-- ===== src/Control/Messages.antt =====
-- internal/control/control.go: `request` and `response`, and the codec that carries them.
--
-- The package encoding/json is a parameter: what a value is written as and what is read from a
-- text. A raw message that is absent is the empty text.
use packer_qemu_mcp_server.Prelude.{ℕ, ◌≡◌, Bool, [], Text, Outcome, ok}

pub record Request : Type 0 where
  pub id : ℕ
  pub method : Text
  pub params : Text

pub record Response : Type 0 where
  pub id : ℕ
  pub is_ok : Bool
  pub result : Text
  pub error : Text

-- The values that methods give are of the type V.
pub record Codec {ℓ} (V : Type ℓ) : Type ℓ where
  pub write_request : Request → Outcome Text Text
  pub read_request : Text → Outcome Text Request
  pub write_response : Response → Outcome Text Text
  pub read_response : Text → Outcome Text Response
  pub marshal : V → Outcome Text Text
  pub unmarshal : Text → Outcome Text V

-- What is written can be read, and is read as what it was, where its strings and its raw messages
-- are ones that the encoding keeps: strings of valid UTF-8, and no message or a compact JSON value.
pub record IsFaithful {ℓ} {V : Type ℓ} (c : Codec V) (IsString IsMessage : Text → Type ℓ)
    : Type ℓ where
  pub no_string : IsString []
  pub no_message : IsMessage []
  pub request_text :
      (r : Request)
      → IsString r.method
      → IsMessage r.params
      → (t : Text) × (c.write_request r ≡ ok t) × (c.read_request t ≡ ok r)
  pub response_text :
      (r : Response)
      → IsString r.error
      → IsMessage r.result
      → (t : Text) × (c.write_response r ≡ ok t) × (c.read_response t ≡ ok r)
