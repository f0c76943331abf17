-- ===== src/Supervisor/Transcripts.antt =====
-- internal/supervisor/supervisor.go and internal/pause/pause.go: what the output of a build's
-- terminal makes of the supervisor that reads it.
use packer_qemu_mcp_server.Prelude.{
  ℕ, suc, ◌≤◌, ◌≡◌, ap, ◌∙◌, sym, subst, refl, arith, List, [], ◌∷◌, ◌++◌, Option, none, Text,
  is_empty, length, length-append, take, inl, inr, false,
}
use packer_qemu_mcp_server.BuildState.States.{Meta}
use packer_qemu_mcp_server.Pause.Found.{Pause}
use packer_qemu_mcp_server.Pause.Scanner.{Scanned, panicked, scanned, and_then, scan}
use packer_qemu_mcp_server.Pause.Streams.Chunks.{prepend_all}
use packer_qemu_mcp_server.Pause.Streams.Feeding.{
  then_feed, feed, joined, Fits, feed-joined, Scanned-cases,
}
use packer_qemu_mcp_server.Supervisor.Loop.{Input, paused, call, exited, loop, start}
use packer_qemu_mcp_server.Supervisor.Answered.{answers, pauses, answers-loop}
use packer_qemu_mcp_server.Supervisor.Output.{
  Reading, going, crashed, Output, behind, scan_bytes, read,
}

-- The readings of a terminal that goes on: chunks that are not empty, however little of them the
-- log takes.
pub record IsChunk (r : Reading) (chunk : Text) : Type 0 where
  pub shown : r.bytes ≡ chunk
  pub filled : is_empty chunk ≡ false
  pub well : r.error ≡ none

abbrev pub AreChunks : List Reading → List Text → Type 0
AreChunks [] [] = Unit
AreChunks [] (c ∷ cs) = ⊥
AreChunks (r ∷ rs) [] = ⊥
AreChunks (r ∷ rs) (c ∷ cs) = IsChunk r c × AreChunks rs cs

-- The output of what a scanner gives.
abbrev pub IsOutput : Scanned → Output → Type 0
IsOutput panicked out = out.reader ≡ crashed
IsOutput (scanned ps tail) out = (out.sent ≡ ps) × (out.reader ≡ going tail)

-- The first chunk, that the scanner takes.
read_chunk :
    (tail rest c : Text) (r : Reading) (rs : List Reading) (ps : List Pause)
    → IsChunk r c
    → scan tail c ≡ scanned ps rest
    → read tail (r ∷ rs) ≡ behind ps (take r.logged r.bytes) (read rest rs)
unfolding read scan_bytes
read_chunk tail rest c r rs ps h e = rw (read, h.shown, scan_bytes, h.filled, e, h.well) refl

read_crash :
    (tail c : Text) (r : Reading) (rs : List Reading)
    → IsChunk r c
    → scan tail c ≡ panicked
    → (read tail (r ∷ rs)).reader ≡ crashed
unfolding read scan_bytes
read_crash tail c r rs h e = rw (read, h.shown, scan_bytes, h.filled, e) refl

prepend_all-panicked : (ps : List Pause) → prepend_all ps panicked ≡ panicked
prepend_all-panicked [] = refl
prepend_all-panicked (p ∷ ps) = ap (and_then p) (prepend_all-panicked ps)

prepend_all-scanned :
    (ps qs : List Pause) (tail : Text) → prepend_all ps (scanned qs tail) ≡ scanned (ps ++ qs) tail
prepend_all-scanned [] qs tail = refl
prepend_all-scanned (p ∷ ps) qs tail = ap (and_then p) (prepend_all-scanned ps qs tail)

behind-IsOutput :
    (ps : List Pause) (t : Text) (found : Scanned) (out : Output)
    → IsOutput found out
    → IsOutput (prepend_all ps found) (behind ps t out)
behind-IsOutput ps t panicked out h =
    subst (λ x. IsOutput x (behind ps t out)) (sym (prepend_all-panicked ps)) h
behind-IsOutput ps t (scanned qs tail) out h =
    subst (λ x. IsOutput x (behind ps t out)) (sym (prepend_all-scanned ps qs tail))
      (ap (λ x. ps ++ x) h.0, h.1)

-- The pauses that `read` sends are those that the scanner finds in the readings, whatever the log
-- takes of them.
pub read-feed :
    (tail : Text) (rs : List Reading) (cs : List Text)
    → AreChunks rs cs
    → IsOutput (feed tail cs) (read tail rs)
unfolding feed read
read-feed tail [] [] h = (refl, refl)
read-feed tail [] (c ∷ cs) h = absurd h
read-feed tail (r ∷ rs) [] h = absurd h
read-feed tail (r ∷ rs) (c ∷ cs) (h, hs) = elim (Scanned-cases (scan tail c)) [
  | inl e ↦
      subst (λ x. IsOutput (then_feed x (λ t. feed t cs)) (read tail (r ∷ rs))) (sym e)
        (read_crash tail c r rs h e)
  | inr (ps, rest, e) ↦
      subst (λ x. IsOutput (then_feed x (λ t. feed t cs)) (read tail (r ∷ rs))) (sym e)
        (subst (IsOutput (prepend_all ps (feed rest cs))) (sym (read_chunk tail rest c r rs ps h e))
          (behind-IsOutput ps (take r.logged r.bytes) (feed rest cs) (read rest rs)
            (read-feed rest rs cs hs)))
]

-- The pauses that a loop receives, in order.
abbrev pub pauses_of : List Input → List Pause
pauses_of [] = []
pauses_of (paused o p ∷ rest) = p ∷ pauses_of rest
pauses_of (call o gone method params ∷ rest) = pauses_of rest
pauses_of (exited now status ∷ rest) = pauses_of rest

length-pauses_of : (inputs : List Input) → length (pauses_of inputs) ≡ pauses inputs
length-pauses_of [] = refl
length-pauses_of (paused o p ∷ rest) = ap suc (length-pauses_of rest)
length-pauses_of (call o gone method params ∷ rest) = length-pauses_of rest
length-pauses_of (exited now status ∷ rest) = length-pauses_of rest

-- A build whose terminal is read in chunks that are not empty, however they cut its output, and
-- however little of them the log takes: whatever calls the supervisor receives between the pauses
-- that are sent to it, of which it may receive only the first ones, the terminal takes no more
-- carriage returns than a scan of the whole output finds pauses. What each chunk leaves unmatched
-- fits in the scanner's buffer, and the scan does not panic.
pub answers-read :
    (decode : Text → Option Text) (meta : Meta) (supervisor_pid build_pid now : ℕ)
    (rs : List Reading) (c : Text) (cs : List Text) (ps unreceived : List Pause) (tail : Text)
    (inputs : List Input)
    → AreChunks rs (c ∷ cs)
    → Fits [] (c ∷ cs)
    → scan [] (joined (c ∷ cs)) ≡ scanned ps tail
    → pauses_of inputs ++ unreceived ≡ (read [] rs).sent
    → answers (loop decode (start meta supervisor_pid build_pid now) inputs).0.done ≤ length ps
answers-read decode meta supervisor_pid build_pid now rs c cs ps unreceived tail inputs h fits e
      received =
    let found : feed [] (c ∷ cs) ≡ scanned ps tail = feed-joined [] c cs fits ∙ e in
    let sent = (subst (λ x. IsOutput x (read [] rs)) found (read-feed [] rs (c ∷ cs) h)).0 in
    omega (
      arith,
      answers-loop decode meta supervisor_pid build_pid now inputs,
      length-pauses_of inputs,
      length-append (pauses_of inputs) unreceived,
      ap length (received ∙ sent),
    )
