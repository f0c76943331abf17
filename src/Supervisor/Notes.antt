-- ===== src/Supervisor/Notes.antt =====
-- internal/supervisor/supervisor.go: `note`, which joins what went wrong.
use packer_qemu_mcp_server.Prelude.{
  ◌≡◌, ◌≢◌, refl, ◌∙◌, List, [], ◌∷◌, ◌++◌, append_assoc, append-nil, Text, codes, arith,
  strip_prefix, join, join_rest, All,
}
use packer_qemu_mcp_server.Supervisor.Machine.{add_note}

append-ne-nil : (s t : Text) → t ≢ [] → s ++ t ≢ []
append-ne-nil [] t h = h
append-ne-nil (c ∷ s) t h = λ e. cc

pub add_note-ne-nil : (note err : Text) → err ≢ [] → add_note note err ≢ []
unfolding add_note strip_prefix
add_note-ne-nil [] err h = h
add_note-ne-nil (c ∷ []) err h = ground arith
add_note-ne-nil (c ∷ (d ∷ note)) err h =
    ground (arith, append-ne-nil note (codes "; " ++ err) (λ e. cc))

-- The text of an error: it is not empty, and does not begin with a semicolon.
abbrev pub IsMessage : Text → Type 0
IsMessage [] = ⊥
IsMessage (c ∷ s) = c ≢ b';'

add_note-append :
    (note err : Text) → IsMessage note → add_note note err ≡ note ++ (codes "; " ++ err)
unfolding add_note strip_prefix
add_note-append [] err h = absurd h
add_note-append (c ∷ note) err h = ground arith

-- The notes of one handler, the first one first.
abbrev pub add_notes : Text → List Text → Text
add_notes note [] = note
add_notes note (err ∷ errs) = add_notes (add_note note err) errs

IsMessage-append : (s t : Text) → IsMessage s → IsMessage (s ++ t)
IsMessage-append [] t h = absurd h
IsMessage-append (c ∷ s) t h = h

add_notes-join_rest :
    (note : Text) (errs : List Text)
    → IsMessage note
    → add_notes note errs ≡ note ++ join_rest (codes "; ") errs
unfolding join_rest
add_notes-join_rest note [] h = rw append-nil refl
add_notes-join_rest note (err ∷ errs) h = rw (add_note-append note err h) (
    add_notes-join_rest (note ++ (codes "; " ++ err)) errs (IsMessage-append note _ h)
    ∙ append_assoc note (codes "; " ++ err) (join_rest (codes "; ") errs))

-- What is noted on a clean slate reads as the messages joined by semicolons, in their order.
pub add_notes-join :
    (errs : List Text) → All IsMessage errs → add_notes [] errs ≡ join errs (codes "; ")
unfolding join add_note strip_prefix
add_notes-join [] h = refl
add_notes-join (err ∷ errs) (h, hs) = add_notes-join_rest err errs h
