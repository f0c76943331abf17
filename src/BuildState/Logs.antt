-- ===== src/BuildState/Logs.antt =====
-- internal/buildstate/buildstate.go: the last lines of a log, `tail` and `readTail`.
--
-- A file is its bytes, or `none` where it cannot be opened or read. It does not grow between the
-- question of its size and the reading.
use packer_qemu_mcp_server.Prelude.{
  ℕ, ℤ, pos, negsuc, zero, suc, ◌-◌, ltb, ◌==◌, Bool, ◌||◌, List, [], ◌∷◌, Option, none, some,
  if◌then◌else◌, map, length, drop, Text, is_empty, split, trim_right,
}

abbrev pub log_tail : ℕ
log_tail = 65536

-- What is behind the first end of a line.
unfoldable pub after_newline : Text → Option Text
after_newline [] = none
after_newline (c ∷ s) = let rest = after_newline s in if c == b'\n' then some s else rest

unfoldable pub from_line : Text → Option Text → Text
from_line buffer none = buffer
from_line buffer (some s) = s

unfoldable pub read_tail : Text → Text
unfolding after_newline from_line
read_tail file =
    if ltb log_tail (length file)
    then (let buffer = drop (length file - log_tail) file in
        from_line buffer (after_newline buffer))
    else file

-- `strings.TrimRight(line, " \t\r")`
unfoldable pub is_blank : ℕ → Bool
is_blank c = c == b' ' || c == b'\t' || c == b'\r'

unfoldable pub drop_last_empty : List Text → List Text
drop_last_empty [] = []
drop_last_empty (line ∷ []) = if is_empty line then [] else line ∷ []
drop_last_empty (line ∷ next ∷ rest) = line ∷ drop_last_empty (next ∷ rest)

unfoldable pub last_lines : ℕ → List Text → List Text
last_lines n all = if ltb n (length all) then drop (length all - n) all else all

unfoldable pub tail_from : ℕ → Option Text → List Text
unfolding read_tail drop_last_empty last_lines is_blank split trim_right
tail_from n none = []
tail_from n (some file) =
    last_lines n (drop_last_empty (map (trim_right is_blank) (split (read_tail file) b'\n')))

unfoldable pub tail : ℤ → Option Text → List Text
unfolding tail_from
tail (negsuc n) file = []
tail (pos zero) file = []
tail (pos (suc n)) file = tail_from (suc n) file
