-- ===== src/Control/Exchanges.antt =====
-- internal/control/control.go: a `Call` that reaches a server gives what the server's handler gave.
use packer_qemu_mcp_server.Prelude.{
  ◌≡◌, refl, ap, ◌∙◌, Bool, true, false, List, [], ◌∷◌, Option, none, some, if◌then◌else◌, Text,
  codes, is_empty, Outcome, ok, err,
}
use packer_qemu_mcp_server.Control.Messages.{Request, Response, Codec, IsFaithful}
use packer_qemu_mcp_server.Control.Servers.{Handler, failure, respond, answer, serve}
use packer_qemu_mcp_server.Control.Clients.{
  CallError, failed, encode_params, Wire, refusal, accept, receive, send, call,
}

-- The connection to a server that hangs up behind its responses.
abbrev pub first_of : List Text → Outcome Text Text
first_of [] = err (codes "EOF")
first_of (text ∷ texts) = ok text

abbrev pub served_wire {ℓ κ} : {S : Type ℓ} {V : Type κ} → Codec V → Handler S V → S → Text → Wire
served_wire codec handler s socket = record {
  socket = socket;
  dial = none;
  deadline = none;
  exchange = λ text. ok (first_of (serve codec handler (text ∷ []) s).1);
}

-- A result that the codec carries: an error that it keeps, or a value that is written as a message
-- that it keeps, which, if the value is wanted, is not empty and reads as the value.
abbrev pub Carries {κ} :
    {V : Type κ} → Codec V → (Text → Type κ) → (Text → Type κ) → Bool → Outcome Text V → Type κ
Carries codec IsString IsMessage wanted (err e) = IsString e
Carries codec IsString IsMessage wanted (ok v) =
    (t : Text) × IsMessage t
    × (codec.marshal v ≡ ok t)
    × (wanted ≡ true → (is_empty t ≡ false) × (codec.unmarshal t ≡ ok v))

-- What a caller is told of a handler's result.
abbrev pub told {κ} : {V : Type κ} → Text → Bool → Outcome Text V → Outcome CallError (Option V)
told method wanted (err e) = err (failed (refusal method e))
told method true (ok v) = ok (some v)
told method false (ok v) = ok none

unwanted {κ} : {A : Type κ} (empty : Bool) (a : A) → (if empty then a else a) ≡ a
unwanted true a = refl
unwanted false a = refl

accept-respond {κ} :
    {V : Type κ} (codec : Codec V) (IsString IsMessage : Text → Type κ) (req : Request)
    (wanted : Bool) (result : Outcome Text V)
    → Carries codec IsString IsMessage wanted result
    → accept codec req.method wanted (respond codec req result) ≡ told req.method wanted result
unfolding accept respond
accept-respond codec IsString IsMessage req wanted (err e) h = refl
accept-respond codec IsString IsMessage req true (ok v) (t, c, hm, hu) =
    rw (respond, hm, accept, (hu refl).0, (hu refl).1) refl
accept-respond codec IsString IsMessage req false (ok v) (t, c, hm, hu) =
    rw (respond, hm, accept) (unwanted (is_empty t) (ok none))

-- A call over a wire that answers its request with a response.
call_sent {κ} :
    {V : Type κ} (codec : Codec V) (wire : Wire) (method encoded text sent : Text)
    (params : Option (Outcome Text Text)) (wanted : Bool) (res : Response)
    → wire.dial ≡ none
    → wire.deadline ≡ none
    → encode_params params ≡ ok encoded
    → codec.write_request (record { id = 1; method = method; params = encoded }) ≡ ok text
    → wire.exchange text ≡ ok (ok sent)
    → codec.read_response sent ≡ ok res
    → call codec wire method params wanted ≡ accept codec method wanted res
unfolding call send receive
call_sent codec wire method encoded text sent params wanted res hd hl he hw hx hr =
    rw (call, hd, hl, he, send, hw, hx, receive, hr) refl

module _ {ℓ κ} {S : Type ℓ} {V : Type κ} (codec : Codec V) (IsString IsMessage : Text → Type κ)
    (law : IsFaithful codec IsString IsMessage) (handler : Handler S V) where
  -- One request on a connection.
  serve_one :
      (req : Request) (text sent : Text) (s t : S) (result : Outcome Text V)
      → handler req.method req.params s ≡ (t, result)
      → codec.read_request text ≡ ok req
      → codec.write_response (respond codec req result) ≡ ok sent
      → serve codec handler (text ∷ []) s ≡ (t, sent ∷ [])
  unfolding serve answer
  serve_one req text sent s t result hh hr hw =
      let written = ap (λ x. codec.write_response (respond codec req x.1)) hh ∙ hw in
      rw (serve, hr, written) (ap (λ x. (x.0, sent ∷ [])) hh)

  -- The response to a result that the codec carries is one that it keeps.
  respond-kept :
      (req : Request) (wanted : Bool) (result : Outcome Text V)
      → Carries codec IsString IsMessage wanted result
      → (t : Text) × (codec.write_response (respond codec req result) ≡ ok t)
        × (codec.read_response t ≡ ok (respond codec req result))
  unfolding respond
  respond-kept req wanted (err e) hc = law.response_text (failure req.id e) hc law.no_message
  respond-kept req wanted (ok v) (t, c, hm, hu) =
      rw (respond, hm)
        (law.response_text (record { id = req.id; is_ok = true; result = t; error = [] })
          law.no_string c)

  -- A call that reaches a server, with parameters that can be encoded and
  -- a result that the codec carries, gives what the handler gave
  -- to the method and the encoded parameters: its error under the method's name, or its value, if
  -- one is wanted; and the server goes on from the state that the handler left.
  pub call_served :
      (socket method encoded : Text) (params : Option (Outcome Text Text)) (wanted : Bool) (s t : S)
      (result : Outcome Text V)
      → encode_params params ≡ ok encoded
      → handler method encoded s ≡ (t, result)
      → IsString method
      → IsMessage encoded
      → Carries codec IsString IsMessage wanted result
      → (call codec (served_wire codec handler s socket) method params wanted
          ≡ told method wanted result)
        × ((text : Text) × (codec.write_request
                (record { id = 1; method = method; params = encoded })
              ≡ ok text)
            × ((serve codec handler (text ∷ []) s).0 ≡ t))
  call_served socket method encoded params wanted s t result he hh hm hp hc =
      let req : Request = record { id = 1; method = method; params = encoded } in
      let (text, hw, hr) = law.request_text req hm hp in
      let (sent, hs, hread) = respond-kept req wanted result hc in
      let served = serve_one req text sent s t result hh hr hs in
      let heard : first_of (serve codec handler (text ∷ []) s).1 ≡ ok sent =
        ap (λ x. first_of x.1) served in
      (
        call_sent codec (served_wire codec handler s socket) method encoded text sent params wanted
              (respond codec req result) refl refl he hw (ap ok heard) hread
            ∙ accept-respond codec IsString IsMessage req wanted result hc,
        (text, hw, ap (λ x. x.0) served),
      )
