-- ===== src/Packertest/Tests.antt =====
-- A shell that undoes the quoting of the scripts, and the prompt of a script there.
use packer_qemu_mcp_server.Prelude.{
  ℕ, ◌≢◌, ◌≡◌, ◌==◌, false, has_prefix, refl, arith, true, List, [], ◌∷◌, ◌++◌, Text, codes,
  contains, if◌then◌else◌, drop, length, append_assoc, ap, ◌∙◌,
}
use packer_qemu_mcp_server.Pause.Found.{Pause, label, interesting}
use packer_qemu_mcp_server.Pause.Scanner.{scan, scanned}
use packer_qemu_mcp_server.Pause.Prompts.{press_enter}
use packer_qemu_mcp_server.Pause.Labels.{Lacks}
use packer_qemu_mcp_server.Packertest.Scripts.{
  raw_mode, await_answer, pause_script, boot_step_pause,
}
use packer_qemu_mcp_server.Packertest.Prints.{
  IsLiteral, Piece, word, mark, quoted, meant, AreLiteral, Prints, scan-boot_step_pause,
}

-- Up to a quotation mark, with what a backslash is in front of kept.
unfoldable unquoted : Text → Text
unquoted [] = []
unquoted (c ∷ []) = if c == b'"' then [] else c ∷ []
unquoted (c ∷ (d ∷ t)) =
    let rest = unquoted t in
    let next = unquoted (d ∷ t) in
    if c == b'"' then [] else if c == b'\\' then d ∷ rest else c ∷ next

abbrev end : Text
end = codes "\"; " ++ await_answer

unquoted_byte : (c : ℕ) (t : Text) → c ≢ b'"' → c ≢ b'\\' → unquoted (c ∷ t) ≡ c ∷ unquoted t
unfolding unquoted
unquoted_byte c [] h k = ground arith
unquoted_byte c (d ∷ t) h k = ground arith

unquoted-append :
    (t rest : Text) → Lacks b'"' t → Lacks b'\\' t → unquoted (t ++ rest) ≡ t ++ unquoted rest
unquoted-append [] rest h k = refl
unquoted-append (c ∷ t) rest (h, hs) (k, ks) =
    unquoted_byte c (t ++ rest) h k ∙ ap (λ u. c ∷ u) (unquoted-append t rest hs ks)

unquoted-quoted : (ps : List Piece) → AreLiteral ps → unquoted (quoted ps ++ end) ≡ meant ps
unfolding unquoted quoted meant
unquoted-quoted [] h = refl
unquoted-quoted (mark ∷ ps) (h, hs) = ap (λ t. b'"' ∷ t) (unquoted-quoted ps hs)
unquoted-quoted (word t ∷ ps) (h, hs) =
    ap unquoted (append_assoc t (quoted ps) end)
    ∙ unquoted-append t (quoted ps ++ end) h.0 h.1
    ∙ ap (λ u. t ++ u) (unquoted-quoted ps hs)

-- What stands in front of the prompt.
abbrev lead : Text
lead = raw_mode ++ codes "; printf \""

abbrev shell : Text → Text
shell script = unquoted (drop (length lead) script)

shell-Prints : Prints shell
unfolding pause_script
shell-Prints ps h = unquoted-quoted ps h

abbrev step_one : Text
step_one = codes "step one"

step_one-IsLiteral : IsLiteral step_one
step_one-IsLiteral = omega arith

step_one_once : contains step_one (codes "'.") ≡ false
unfolding contains has_prefix
step_one_once = refl

scan-boot_step_pause_example :
    (p : Pause) × (scan [] (shell (boot_step_pause step_one)) ≡ scanned (p ∷ []) press_enter)
    × (label p ≡ step_one)
    × (interesting p ≡ true)
scan-boot_step_pause_example =
    scan-boot_step_pause shell step_one shell-Prints step_one-IsLiteral (omega arith) step_one_once
