-- ===== src/Packertest/Prints.antt =====
-- internal/packertest/script.go and internal/pause/pause.go: what the scripts print is a prompt that
-- the supervisor finds.
--
-- The shell is a parameter: what a script has written to its terminal when it waits there.
use packer_qemu_mcp_server.Prelude.{
  ◌≡◌, refl, ap, ◌∙◌, sym, arith, true, false, List, [], ◌∷◌, ◌++◌, Text, codes, contains,
  has_prefix, All, append_assoc, to_lower, lower,
}
use packer_qemu_mcp_server.Pause.Found.{Pause, after_run, label, interesting, boot_step}
use packer_qemu_mcp_server.Pause.Scanner.{scan, scanned}
use packer_qemu_mcp_server.Pause.Prompts.{EndsOnce, press_enter, transcript, scan-transcript}
use packer_qemu_mcp_server.Pause.Labels.{Lacks, boot_entry, label-boot_entry}
use packer_qemu_mcp_server.Packertest.Scripts.{pause_script, boot_step_pause}

-- A byte that stands for itself between quotation marks and in the format of printf.
abbrev pub IsLiteral : Text → Type 0
IsLiteral t = Lacks b'"' t × Lacks b'\\' t × Lacks b'$' t × Lacks b'`' t × Lacks b'%' t

pub data Piece : Type 0 where
  word : Text → Piece
  mark : Piece

-- How pieces are quoted, and what they stand for.
unfoldable pub quoted : List Piece → Text
quoted [] = []
quoted (word t ∷ ps) = t ++ quoted ps
quoted (mark ∷ ps) = codes "\\\"" ++ quoted ps

unfoldable pub meant : List Piece → Text
meant [] = []
meant (word t ∷ ps) = t ++ meant ps
meant (mark ∷ ps) = b'"' ∷ meant ps

abbrev pub AreLiteral : List Piece → Type 0
AreLiteral = All (λ p. elim p [ word t ↦ IsLiteral t | mark ↦ Unit ])

-- What a shell does with a quoted argument of printf: an escaped quotation mark stands for itself.
abbrev pub Prints : (Text → Text) → Type 0
Prints prints = (ps : List Piece) → AreLiteral ps → prints (pause_script (quoted ps)) ≡ meant ps

abbrev pub boot_prompt : Text → List Piece
boot_prompt name =
    word (codes "==> qemu.probe: Pausing after run of step 'boot description: ")
    ∷ mark
    ∷ word name
    ∷ mark
    ∷ word (codes ", command: <enter>'. Press enter to continue. ")
    ∷ []

-- The pause that a script announces.
abbrev pub boot_pause : Text → Pause
boot_pause name = record { location = after_run; step = boot_entry name (codes "<enter>") }

pause_script-boot_prompt :
    (name : Text) → pause_script (quoted (boot_prompt name)) ≡ boot_step_pause name
unfolding boot_step_pause quoted
pause_script-boot_prompt name = refl

meant-boot_prompt : (name : Text) → meant (boot_prompt name) ≡ transcript (boot_pause name ∷ [])
unfolding meant
meant-boot_prompt name =
    ap (λ t. codes "==> qemu.probe: Pausing after run of step 'boot description: \"" ++ t)
      (sym (append_assoc name (codes "\", command: <enter>") (codes "'." ++ press_enter)))

contains_described :
    (name : Text)
    → contains name (codes "'.") ≡ false
    → contains (name ++ codes "\", command: <enter>") (codes "'.") ≡ false
unfolding contains has_prefix
contains_described [] h = refl
contains_described (c ∷ []) h = ground arith
contains_described (c ∷ (d ∷ s)) h = ground (arith, contains_described (d ∷ s))

boot_pause-EndsOnce :
    (name : Text) → contains name (codes "'.") ≡ false → EndsOnce (boot_pause name)
unfolding contains has_prefix
boot_pause-EndsOnce name h = contains_described name h

boot_pause-interesting : (name : Text) → interesting (boot_pause name) ≡ true
unfolding interesting boot_step has_prefix to_lower lower
boot_pause-interesting name = refl

-- The script of a boot step, in a shell that prints what printf is given: the supervisor finds one
-- prompt, of a step to stop at with the label that the script was made for. The label is one line
-- of bytes that a shell and printf leave as they are, and does not end a prompt.
pub scan-boot_step_pause :
    (prints : Text → Text) (name : Text)
    → Prints prints
    → IsLiteral name
    → Lacks 10 name
    → contains name (codes "'.") ≡ false
    → (p : Pause) × (scan [] (prints (boot_step_pause name)) ≡ scanned (p ∷ []) press_enter)
      × (label p ≡ name)
      × (interesting p ≡ true)
scan-boot_step_pause prints name law literal line once =
    let p = boot_pause name in
    let printed : prints (boot_step_pause name) ≡ transcript (p ∷ []) =
      ap prints (sym (pause_script-boot_prompt name))
      ∙ law (boot_prompt name) (omega arith, (tt, (literal, (tt, (omega arith, tt)))))
      ∙ meant-boot_prompt name in
    (
      p,
      ap (scan []) printed ∙ scan-transcript p [] (boot_pause-EndsOnce name once, tt),
      label-boot_entry p name (codes "<enter>") line (omega arith) refl,
      boot_pause-interesting name,
    )
