-- ===== src/Control/Clients.antt =====
-- internal/control/control.go: the client's `Call`.
use packer_qemu_mcp_server.Prelude.{
  Bool, [], ◌++◌, Option, none, some, if◌then◌else◌, Text, codes, is_empty, Outcome, ok, err,
}
use packer_qemu_mcp_server.Control.Messages.{Response, Codec}

-- An error of a call to a supervisor, by what `errors.Is` makes of it.
pub data CallError : Type 0 where
  no_supervisor : Text → CallError
  failed : Text → CallError

-- `encodeParams`, of what marshalling the parameters gives, if there are any.
unfoldable pub encode_params : Option (Outcome Text Text) → Outcome Text Text
encode_params none = ok []
encode_params (some (ok encoded)) = ok encoded
encode_params (some (err e)) = err (codes "encoding parameters: " ++ e)

-- `ErrNoSupervisor`
abbrev err_no_supervisor : Text
err_no_supervisor = codes "no supervisor is listening"

-- What the socket answers: to the dialling and to the deadline, and what it gives for the text
-- that is sent to it: an error of the sending, or what is read, which may be an error too.
pub record Wire : Type 0 where
  pub socket : Text
  pub dial : Option Text
  pub deadline : Option Text
  pub exchange : Text → Outcome Text (Outcome Text Text)

abbrev pub sending : Text → Text → Text
sending method e = codes "sending " ++ (method ++ (codes ": " ++ e))

abbrev pub reading : Text → Text → Text
reading method e = codes "reading the reply to " ++ (method ++ (codes ": " ++ e))

abbrev pub refusal : Text → Text → Text
refusal method e = method ++ (codes " failed: " ++ e)

module _ {κ} {V : Type κ} (codec : Codec V) where
  -- What `Call` makes of the response: the value, if one is wanted and was sent.
  unfoldable pub accept : Text → Bool → Response → Outcome CallError (Option V)
  accept method wanted res =
      if res.is_ok
      then (if is_empty res.result
          then ok none
          else if wanted
          then elim (codec.unmarshal res.result) [ err e ↦ err (failed e) | ok v ↦ ok (some v) ]
          else ok none)
      else err (failed (refusal method res.error))

  -- Behind the sending of the request.
  unfoldable pub receive :
      Text → Bool → Outcome Text (Outcome Text Text) → Outcome CallError (Option V)
  unfolding accept
  receive method wanted (err e) = err (failed (sending method e))
  receive method wanted (ok (err e)) = err (failed (reading method e))
  receive method wanted (ok (ok text)) = elim (codec.read_response text) [
    | err e ↦ err (failed (reading method e))
    | ok res ↦ accept method wanted res
  ]

  unfoldable pub send : Wire → Text → Bool → Text → Outcome CallError (Option V)
  unfolding receive
  send wire method wanted encoded =
      elim (codec.write_request (record { id = 1; method = method; params = encoded })) [
        | err e ↦ err (failed (sending method e))
        | ok text ↦ receive method wanted (wire.exchange text)
      ]

  -- `Call`: `wanted` says whether `out` is not nil.
  unfoldable pub call :
      Wire → Text → Option (Outcome Text Text) → Bool → Outcome CallError (Option V)
  unfolding encode_params send
  call wire method params wanted = elim wire.dial [
    | some e ↦
        err (
          no_supervisor (err_no_supervisor ++ (codes " on " ++ (wire.socket ++ (codes ": " ++ e)))))
    | none ↦ elim wire.deadline [
      | some e ↦ err (failed e)
      | none ↦ elim (encode_params params) [
        | err e ↦ err (failed e)
        | ok encoded ↦ send wire method wanted encoded
      ]
    ]
  ]
