-- ===== src/BuildState/Lines.antt =====
-- internal/buildstate/buildstate.go: the lines that `tail` reports are the last ones of the log.
use packer_qemu_mcp_server.Prelude.{
  ℕ, pos, zero, suc, ◌-◌, ◌≤◌, ◌<◌, ltb, ◌≡◌, ◌≢◌, refl, inl, inr, arith, true, List, [], ◌∷◌, ◌++◌,
  some, map, length, length-drop, length-append, drop, Text, split, cons_first, trim_right, All,
  Bool-cases,
}
use packer_qemu_mcp_server.BuildState.Logs.{
  log_tail, after_newline, from_line, read_tail, is_blank, drop_last_empty, last_lines, tail_from,
  tail,
}

length-last_lines : (n : ℕ) (all : List Text) → length (last_lines n all) ≤ n
unfolding last_lines
length-last_lines n all = ground (arith, length-drop (length all - n) all)

-- A line that a log can hold, as it is reported: no end of a line is in it, and nothing at its end
-- is trimmed.
pub record IsLine (line : Text) : Type 0 where
  pub whole : All (λ c. c ≢ b'\n') line
  pub trimmed : trim_right is_blank line ≡ line

-- The text that lines make when each of them is ended.
unfoldable pub ended : List Text → Text
ended [] = []
ended (line ∷ lines) = line ++ (b'\n' ∷ ended lines)

split_line :
    (line rest : Text)
    → All (λ c. c ≢ b'\n') line
    → split (line ++ (b'\n' ∷ rest)) b'\n' ≡ line ∷ split rest b'\n'
unfolding split cons_first
split_line [] rest h = refl
split_line (c ∷ line) rest (hc, h) = ground (arith, hc, split_line line rest h)

split-ended :
    (lines : List Text) → All IsLine lines → split (ended lines) b'\n' ≡ lines ++ ([] ∷ [])
unfolding ended split
split-ended [] h = refl
split-ended (line ∷ lines) (hl, h) =
    rw (split_line line (ended lines) hl.whole, split-ended lines h) refl

trimmed-All :
    (lines : List Text)
    → All IsLine lines
    → map (trim_right is_blank) (lines ++ ([] ∷ [])) ≡ lines ++ ([] ∷ [])
unfolding trim_right
trimmed-All [] h = refl
trimmed-All (line ∷ lines) (hl, h) = rw (hl.trimmed, trimmed-All lines h) refl

drop_last_empty_last : (lines : List Text) → drop_last_empty (lines ++ ([] ∷ [])) ≡ lines
unfolding drop_last_empty
drop_last_empty_last [] = refl
drop_last_empty_last (line ∷ []) = refl
drop_last_empty_last (line ∷ next ∷ rest) = rw (drop_last_empty_last (next ∷ rest)) refl

last_lines-drop : (n : ℕ) (all : List Text) → last_lines n all ≡ drop (length all - n) all
unfolding last_lines
last_lines-drop n all = elim (Bool-cases (ltb n (length all))) [
  | inl e ↦ rw e refl
  | inr e ↦ let none_left : length all - n ≡ 0 = ground (arith, e) in rw (e, none_left) refl
]

-- What is reported of lines that are read back.
tail_lines :
    (n : ℕ) (file : Text) (lines : List Text)
    → 0 < n
    → All IsLine lines
    → read_tail file ≡ ended lines
    → tail (pos n) (some file) ≡ drop (length lines - n) lines
unfolding tail tail_from
tail_lines zero file lines h hl e = absurd (omega (arith, h))
tail_lines (suc n) file lines h hl e =
    rw (e, split-ended lines hl, trimmed-All lines hl, drop_last_empty_last lines)
      (last_lines-drop (suc n) lines)

read_tail_whole : (file : Text) → length file ≤ log_tail → read_tail file ≡ file
unfolding read_tail
read_tail_whole file h = ground (arith, h)

-- Of a log of at most 64 KiB that holds lines that are ended, each of which is reported as it is,
-- the tail of n lines, n not 0, is the last n lines, or all where there are no more.
pub tail-ended :
    (n : ℕ) (lines : List Text)
    → 0 < n
    → All IsLine lines
    → length (ended lines) ≤ log_tail
    → tail (pos n) (some (ended lines)) ≡ drop (length lines - n) lines
tail-ended n lines h hl hs =
    tail_lines n (ended lines) lines h hl (read_tail_whole (ended lines) hs)

drop_front : (front rest : Text) → drop (length front) (front ++ rest) ≡ rest
drop_front [] rest = refl
drop_front (c ∷ front) rest = drop_front front rest

after_newline_part :
    (part rest : Text)
    → All (λ c. c ≢ b'\n') part
    → after_newline (part ++ (b'\n' ∷ rest)) ≡ some rest
unfolding after_newline
after_newline_part [] rest h = refl
after_newline_part (c ∷ part) rest (hc, h) = ground (arith, hc, after_newline_part part rest h)

read_tail_cut :
    (front part rest : Text)
    → 0 < length front
    → length (part ++ (b'\n' ∷ rest)) ≡ log_tail
    → All (λ c. c ≢ b'\n') part
    → read_tail (front ++ (part ++ (b'\n' ∷ rest))) ≡ rest
unfolding read_tail from_line
read_tail_cut front part rest hf hlen hp =
    let back = part ++ (b'\n' ∷ rest) in
    let whole = length-append front back in
    let long : ltb log_tail (length (front ++ back)) ≡ true = ground (arith, whole, hf, hlen) in
    let at_cut : length (front ++ back) - log_tail ≡ length front = omega (arith, whole, hlen) in
    rw (long, at_cut, drop_front front back, after_newline_part part rest hp) refl

-- Of a log that is longer than 64 KiB, the line that the last 64 KiB begin in the middle of is not
-- reported: the tail is of the ended lines behind it.
pub tail-cut :
    (n : ℕ) (front part : Text) (lines : List Text)
    → 0 < n
    → All IsLine lines
    → 0 < length front
    → length (part ++ (b'\n' ∷ ended lines)) ≡ log_tail
    → All (λ c. c ≢ b'\n') part
    → tail (pos n) (some (front ++ (part ++ (b'\n' ∷ ended lines)))) ≡ drop (length lines - n) lines
tail-cut n front part lines h hl hf hlen hp =
    tail_lines n (front ++ (part ++ (b'\n' ∷ ended lines))) lines h hl
      (read_tail_cut front part (ended lines) hf hlen hp)
