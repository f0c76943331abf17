-- ===== src/Control/Attended.antt =====
-- internal/control/control.go: the loop of `serve` over one connection, as steps among the others.
use packer_qemu_mcp_server.Prelude.{
  ℕ, ◌≡◌, arith, refl, ap, ◌∙◌, List, [], ◌∷◌, Text, Outcome-cases, ok, err, inl, inr,
}
use packer_qemu_mcp_server.Control.Messages.{Request, Response, Codec}
use packer_qemu_mcp_server.Control.Servers.{Handler, answer, serve}
use packer_qemu_mcp_server.Control.Connections.{
  reading, asking, replying, Conn, Served, set_conn, with_conn, move, take, post, ask, reads, calls,
  sends, Reachable, step,
}

-- The texts sent, the latest first.
abbrev pub sent_onto : List Text → List Text → List Text
sent_onto [] before = before
sent_onto (text ∷ texts) before = sent_onto texts (text ∷ before)

set_conn_here : (i : ℕ) (c : Conn) (conns : ℕ → Conn) → set_conn i c conns i ≡ c
unfolding set_conn
set_conn_here i c conns = ground arith

module _ {ℓ κ} {S : Type ℓ} {V : Type κ} (codec : Codec V) (handler : Handler S V) where
  serve_unread :
      (text e : Text) (texts : List Text) (s : S)
      → codec.read_request text ≡ err e
      → (s, []) ≡ serve codec handler (text ∷ texts) s
  unfolding serve
  serve_unread text e texts s hr = rw (serve, hr) refl

  serve_unsent :
      (text e : Text) (req : Request) (texts : List Text) (s : S)
      → codec.read_request text ≡ ok req
      → codec.write_response (answer codec handler req s).1 ≡ err e
      → ((answer codec handler req s).0, []) ≡ serve codec handler (text ∷ texts) s
  unfolding serve
  serve_unsent text e req texts s hr hw = rw (serve, hr, hw) refl

  serve_sent :
      (text sent : Text) (req : Request) (texts : List Text) (s : S)
      → codec.read_request text ≡ ok req
      → codec.write_response (answer codec handler req s).1 ≡ ok sent
      → let rest = serve codec handler texts (answer codec handler req s).0 in
        (rest.0, sent ∷ rest.1) ≡ serve codec handler (text ∷ texts) s
  unfolding serve
  serve_sent text sent req texts s hr hw = rw (serve, hr, hw) refl

  -- What `serve` leaves of a connection and of the state.
  pub record IsAttended (i : ℕ) (s : S) (texts : List Text) (v w : Served S) : Type (ℓ ⊔ κ) where
    pub reached : Reachable codec handler s w
    pub state_left : w.state ≡ (serve codec handler texts v.state).0
    pub texts_sent :
        (w.conns i).texts ≡ sent_onto (serve codec handler texts v.state).1 (v.conns i).texts

  -- A request that is read, and asked.
  abbrev asked : ℕ → Text → Request → Served S → Served S
  asked i text req v = ask codec handler i req (take i text req v)

  record IsAsked (i : ℕ) (s : S) (text : Text) (req : Request) (v : Served S) : Type (ℓ ⊔ κ) where
    run_on : Reachable codec handler s (asked i text req v)
    replies : ((asked i text req v).conns i).phase ≡ replying (answer codec handler req v.state).1
    kept : ((asked i text req v).conns i).texts ≡ (v.conns i).texts

  ask-IsAsked :
      (i : ℕ) (s : S) (text : Text) (req : Request) (v : Served S)
      → Reachable codec handler s v
      → (v.conns i).phase ≡ reading
      → codec.read_request text ≡ ok req
      → IsAsked i s text req v
  unfolding take ask move with_conn
  ask-IsAsked i s text req v run here hr =
      let v1 = take i text req v in
      let response = (answer codec handler req v.state).1 in
      let c1 : Conn = record (v.conns i) { phase = asking req; reads = text ∷ (v.conns i).reads } in
      let here1 : v1.conns i ≡ c1 = set_conn_here i c1 v.conns in
      let here2 = set_conn_here i (record (v1.conns i) { phase = replying response }) v1.conns in
      record {
        run_on = step (step run (reads i text req here hr)) (calls i req (ap (λ c. c.phase) here1));
        replies = ap (λ c. c.phase) here2;
        kept = ap (λ c. c.texts) here2 ∙ ap (λ c. c.texts) here1;
      }

  abbrev posted : Response → Text → Conn → Conn
  posted response text c = record c {
    phase = reading;
    sent = response ∷ c.sent;
    texts = text ∷ c.texts;
  }

  -- What a connection delivers is served by steps of its goroutine alone as `serve` says.
  pub serve-IsAttended :
      (i : ℕ) (s : S) (texts : List Text) (v : Served S)
      → Reachable codec handler s v
      → (v.conns i).phase ≡ reading
      → (w : Served S) × IsAttended i s texts v w
  unfolding serve take ask post move with_conn
  serve-IsAttended i s [] v run here =
      (v, record { reached = run; state_left = refl; texts_sent = refl })
  serve-IsAttended i s (text ∷ texts) v run here = elim (Outcome-cases (codec.read_request text)) [
    | inr (e, hr) ↦
        let same = serve_unread text e texts v.state hr in
        (
          v,
          record {
            reached = run;
            state_left = ap (λ x. x.0) same;
            texts_sent = ap (λ x. sent_onto x.1 (v.conns i).texts) same;
          },
        )
    | inl (req, hr) ↦
        let one = ask-IsAsked i s text req v run here hr in
        let v2 = asked i text req v in
        let response = (answer codec handler req v.state).1 in
        elim (Outcome-cases (codec.write_response response)) [
          | inr (e, hw) ↦
              let same = serve_unsent text e req texts v.state hr hw in
              (
                v2,
                record {
                  reached = one.run_on;
                  state_left = ap (λ x. x.0) same;
                  texts_sent = one.kept ∙ ap (λ x. sent_onto x.1 (v.conns i).texts) same;
                },
              )
          | inl (sent, hw) ↦
              let same = serve_sent text sent req texts v.state hr hw in
              let v3 = post i response sent v2 in
              let here3 = set_conn_here i (posted response sent (v2.conns i)) v2.conns in
              let run3 = step one.run_on (sends i response sent one.replies hw) in
              let (w, rest) = serve-IsAttended i s texts v3 run3 (ap (λ c. c.phase) here3) in
              (
                w,
                record {
                  reached = rest.reached;
                  state_left = rest.state_left ∙ ap (λ x. x.0) same;
                  texts_sent =
                      rest.texts_sent
                      ∙ ap (sent_onto (serve codec handler texts v3.state).1)
                          (ap (λ c. c.texts) here3 ∙ ap (λ t. sent ∷ t) one.kept)
                      ∙ ap (λ x. sent_onto x.1 (v.conns i).texts) same;
                },
              )
        ]
  ]
