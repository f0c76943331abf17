-- ===== src/Control/Servers.antt =====
-- internal/control/control.go: the server: `answer`, and the loop of `serve` over one connection.
--
-- A handler may change a state that it owns; the state is passed on from call to call.
use packer_qemu_mcp_server.Prelude.{
  ℕ, true, false, List, [], ◌∷◌, ◌++◌, Text, codes, Outcome, ok, err,
}
use packer_qemu_mcp_server.Control.Messages.{Request, Response, Codec}

-- `Handler`
abbrev pub Handler {ℓ κ} : Type ℓ → Type κ → Type (ℓ ⊔ κ)
Handler S V = Text → Text → S → S × Outcome Text V

abbrev pub failure : ℕ → Text → Response
failure id e = record { id = id; is_ok = false; result = []; error = e }

-- The response to what the handler gave.
unfoldable pub respond {κ} : {V : Type κ} → Codec V → Request → Outcome Text V → Response
respond codec req (err e) = failure req.id e
respond codec req (ok v) = elim (codec.marshal v) [
  | err e ↦ failure req.id (codes "encoding the result of " ++ (req.method ++ (codes ": " ++ e)))
  | ok encoded ↦ record { id = req.id; is_ok = true; result = encoded; error = [] }
]

module _ {ℓ κ} {S : Type ℓ} {V : Type κ} (codec : Codec V) where
  unfoldable pub answer : Handler S V → Request → S → S × Response
  unfolding respond
  answer handler req s =
      let (t, result) = handler req.method req.params s in (t, respond codec req result)

  -- `serve`, of what arrives: the responses that it sends, and the state that it leaves. It stops
  -- at what it cannot read, and at a response that it cannot send.
  unfoldable pub serve : Handler S V → List Text → S → S × List Text
  unfolding answer
  serve handler [] s = (s, [])
  serve handler (text ∷ texts) s = elim (codec.read_request text) [
    | err e ↦ (s, [])
    | ok req ↦
        let (t, response) = answer handler req s in
        let (u, rest) = serve handler texts t in
        elim (codec.write_response response) [ err e ↦ (t, []) | ok sent ↦ (u, sent ∷ rest) ]
  ]
