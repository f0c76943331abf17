-- ===== src/Control/Serial.antt =====
-- internal/control/control.go: the connections of a server are served as if each call had been made
-- alone, one behind the other.
use packer_qemu_mcp_server.Prelude.{
  ℕ, ◌==◌, ◌≡◌, arith, refl, sym, ap, ◌∙◌, subst, true, false, List, [], ◌∷◌, ◌++◌, some,
  if◌then◌else◌, ok, map, Bool-cases, inl, inr, ==_iff,
}
use packer_qemu_mcp_server.Control.Messages.{Request, Response, Codec}
use packer_qemu_mcp_server.Control.Servers.{Handler, answer}
use packer_qemu_mcp_server.Control.Connections.{Phase, asking, replying, gone, Conn, set_conn}

-- What of a log, the latest first, is of one connection.
unfoldable pub part_of {ℓ} : {A : Type ℓ} → ℕ → List (ℕ × A) → List A
part_of i [] = []
part_of i ((j, a) ∷ log) = let rest = part_of i log in if i == j then a ∷ rest else rest

abbrev pub asked_now : Phase → List Request
asked_now (asking req) = req ∷ []
asked_now _ = []

-- The response that is on its way, or was lost.
abbrev pub owed : Phase → List Response
owed (replying response) = response ∷ []
owed (gone (some response)) = response ∷ []
owed _ = []

module _ {ℓ κ} {S : Type ℓ} {V : Type κ} (codec : Codec V) (handler : Handler S V) where
  -- The calls alone, one behind the other.
  unfoldable pub serial : S → List (ℕ × Request) → S × List (ℕ × Response)
  serial s [] = (s, [])
  serial s ((i, req) ∷ log) =
      let (t, out) = serial s log in
      let (u, response) = answer codec handler req t in (u, (i, response) ∷ out)

module _ {κ} {V : Type κ} (codec : Codec V) where
  -- A connection whose requests were asked in their order, and which was sent the responses that
  -- the calls have alone, each once and in that order, but for the one on its way or lost.
  pub record IsSerial (log : List (ℕ × Request)) (out : List (ℕ × Response)) (i : ℕ) (c : Conn)
      : Type 0 where
    pub asked : map codec.read_request c.reads ≡ map ok (asked_now c.phase ++ part_of i log)
    pub replied : owed c.phase ++ c.sent ≡ part_of i out
    pub written : map codec.write_response c.sent ≡ map ok c.texts

  pub set_conn-IsSerial :
      (log : List (ℕ × Request)) (out : List (ℕ × Response)) (i : ℕ) (c : Conn) (conns : ℕ → Conn)
      → IsSerial log out i c
      → ((j : ℕ) → IsSerial log out j (conns j))
      → (j : ℕ) → IsSerial log out j (set_conn i c conns j)
  unfolding set_conn
  set_conn-IsSerial log out i c conns h hs j = elim (Bool-cases (j == i)) [
    | inl e ↦ rw (e) (subst (λ k. IsSerial log out k c) (sym ((==_iff j i).0 e)) h)
    | inr e ↦ rw (e) (hs j)
  ]

  -- The log grows by a call of another connection.
  IsSerial-other :
      (log : List (ℕ × Request)) (out : List (ℕ × Response)) (i j : ℕ) (req : Request)
      (response : Response) (c : Conn)
      → (j == i) ≡ false
      → IsSerial log out j c
      → IsSerial ((i, req) ∷ log) ((i, response) ∷ out) j c
  unfolding part_of
  IsSerial-other log out i j req response c e h = record {
    asked = h.asked ∙ (rw (e) refl);
    replied = h.replied ∙ (rw (e) refl);
    written = h.written;
  }

  same : (i : ℕ) → (i == i) ≡ true
  same i = ground arith

  ask-IsSerial :
      (log : List (ℕ × Request)) (out : List (ℕ × Response)) (i : ℕ) (req : Request)
      (response : Response) (c : Conn)
      → c.phase ≡ asking req
      → IsSerial log out i c
      → IsSerial ((i, req) ∷ log) ((i, response) ∷ out) i (record c { phase = replying response })
  unfolding part_of
  ask-IsSerial log out i req response c here h = record {
    asked = h.asked ∙ (rw (here, same i) refl);
    replied =
        ap (λ x. response ∷ x) (ap (λ p. owed p ++ c.sent) (sym here) ∙ h.replied)
        ∙ (rw (same i) refl);
    written = h.written;
  }

  pub ask-set_conn :
      (log : List (ℕ × Request)) (out : List (ℕ × Response)) (i : ℕ) (req : Request)
      (response : Response) (conns : ℕ → Conn)
      → (conns i).phase ≡ asking req
      → ((j : ℕ) → IsSerial log out j (conns j))
      → (j : ℕ)
      → IsSerial
          ((i, req) ∷ log)
          ((i, response) ∷ out)
          j
          (set_conn i (record (conns i) { phase = replying response }) conns j)
  unfolding set_conn
  ask-set_conn log out i req response conns here hs j =
      let IsNow : ℕ → Conn → Type 0 = IsSerial ((i, req) ∷ log) ((i, response) ∷ out) in
      elim (Bool-cases (j == i)) [
        | inl e ↦ rw (e) (
            subst (λ k. IsNow k (record (conns i) { phase = replying response }))
              (sym ((==_iff j i).0 e)) (ask-IsSerial log out i req response (conns i) here (hs i)))
        | inr e ↦ rw (e) (IsSerial-other log out i j req response (conns j) e (hs j))
      ]
