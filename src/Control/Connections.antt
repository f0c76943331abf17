-- ===== src/Control/Connections.antt =====
-- internal/control/control.go: `Listen`, `accept`, `serve` and `Close`, as steps that the goroutines
-- of the connections take in any order.
--
-- What a connection delivers is the environment's. A call of the handler is one step: it changes
-- the state that the handler owns at once, and no two calls do so together.
use packer_qemu_mcp_server.Prelude.{
  ℕ, ◌==◌, ◌≡◌, Bool, true, false, List, [], ◌∷◌, ◌++◌, Option, none, some, if◌then◌else◌, Text,
  codes, ok,
}
use packer_qemu_mcp_server.Control.Messages.{Request, Response, Codec}
use packer_qemu_mcp_server.Control.Servers.{Handler, answer}

-- Where the goroutine of a connection is.
pub data Phase : Type 0 where
  absent : Phase
  -- In `Decode`.
  reading : Phase
  -- In the handler.
  asking : Request → Phase
  -- In `Encode`.
  replying : Response → Phase
  -- It has returned, perhaps from the sending of a response.
  gone : Option Response → Phase

-- The texts that were read from a connection, and those that were sent over it with the responses
-- that they stand for, the latest first.
pub record Conn : Type 0 where
  pub phase : Phase
  pub reads : List Text
  pub sent : List Response
  pub texts : List Text

-- `calls` is what the handler was called with, the latest first.
pub record Served {ℓ} (S : Type ℓ) : Type ℓ where
  pub listening : Bool
  pub bound : Bool
  pub state : S
  pub conns : ℕ → Conn
  pub calls : List (ℕ × Request)

abbrev pub nobody : Conn
nobody = record { phase = absent; reads = []; sent = []; texts = [] }

abbrev pub served {ℓ} : {S : Type ℓ} → Bool → S → Served S
served up s = record { listening = up; bound = up; state = s; conns = λ i. nobody; calls = [] }

-- `Listen`, of the errors of the listening and of the `Chmod` behind it; a listener that is closed
-- takes its socket away.
unfoldable pub listen {ℓ} :
    {S : Type ℓ} → Text → Option Text → Option Text → S → Option Text × Served S
listen socket (some e) secured s =
    (some (codes "listening on " ++ (socket ++ (codes ": " ++ e))), served false s)
listen socket none (some e) s =
    (some (codes "securing " ++ (socket ++ (codes ": " ++ e))), served false s)
listen socket none none s = (none, served true s)

unfoldable pub set_conn : ℕ → Conn → (ℕ → Conn) → ℕ → Conn
set_conn i c conns j = if j == i then c else conns j

module _ {ℓ} {S : Type ℓ} where
  unfoldable pub with_conn : ℕ → Conn → Served S → Served S
  with_conn i c w = record w { conns = set_conn i c w.conns }

  unfoldable pub move : ℕ → Phase → Served S → Served S
  move i phase w = with_conn i (record (w.conns i) { phase = phase }) w

  unfoldable pub take : ℕ → Text → Request → Served S → Served S
  take i text req w =
      with_conn i (record (w.conns i) { phase = asking req; reads = text ∷ (w.conns i).reads }) w

  unfoldable pub post : ℕ → Response → Text → Served S → Served S
  post i response text w =
      with_conn i
        (record (w.conns i) {
          phase = reading;
          sent = response ∷ (w.conns i).sent;
          texts = text ∷ (w.conns i).texts;
        })
        w

  -- `Close`, whatever the listener says.
  unfoldable pub shut : Served S → Served S
  shut w = record w { listening = false; bound = false }

module _ {ℓ κ} {S : Type ℓ} {V : Type κ} (codec : Codec V) (handler : Handler S V) where
  unfoldable pub ask : ℕ → Request → Served S → Served S
  unfolding move
  ask i req w =
      let (t, response) = answer codec handler req w.state in
      record (move i (replying response) w) { state = t; calls = (i, req) ∷ w.calls }

  pub data Step : Served S → Served S → Type (ℓ ⊔ κ) where
    accepts :
        {w : Served S} (i : ℕ)
        → w.listening ≡ true
        → (w.conns i).phase ≡ absent
        → Step w (move i reading w)
    reads :
        {w : Served S} (i : ℕ) (text : Text) (req : Request)
        → (w.conns i).phase ≡ reading
        → codec.read_request text ≡ ok req
        → Step w (take i text req w)
    -- The connection has ended, or holds no request.
    hangs_up : {w : Served S} (i : ℕ) → (w.conns i).phase ≡ reading → Step w (move i (gone none) w)
    calls :
        {w : Served S} (i : ℕ) (req : Request)
        → (w.conns i).phase ≡ asking req
        → Step w (ask i req w)
    sends :
        {w : Served S} (i : ℕ) (response : Response) (text : Text)
        → (w.conns i).phase ≡ replying response
        → codec.write_response response ≡ ok text
        → Step w (post i response text w)
    -- The response cannot be written, or the connection has ended.
    drops :
        {w : Served S} (i : ℕ) (response : Response)
        → (w.conns i).phase ≡ replying response
        → Step w (move i (gone (some response)) w)
    closes : {w : Served S} → Step w (shut w)

  pub data Reachable (s : S) : Served S → Type (ℓ ⊔ κ) where
    listened : Reachable s (served true s)
    step : {v w : Served S} → Reachable s v → Step v w → Reachable s w
