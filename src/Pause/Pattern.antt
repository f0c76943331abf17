-- ===== src/Pause/Pattern.antt =====
-- internal/pause/pause.go: the regular expression `pauseRE`, as the matcher it compiles to.
--
--   (?is)pausing\s+(after run of|before cleanup of|at)?\s*step\s+'(.*?)'\.
--
-- No alternative of the group begins with white space, and none is a prefix of another, so the
-- greedy repetitions never have to give anything back and each piece is read once.
use packer_qemu_mcp_server.Prelude.{
  ℕ, ◌==◌, Bool, ◌||◌, [], ◌∷◌, Option, none, some, ◌>>=◌, if◌then◌else◌, Text, codes, lower,
  strip_prefix,
}

-- A literal under `(?i)`, itself in lower case: what is left behind it.
unfoldable pub eat : Text → Text → Option Text
unfolding lower
eat s [] = some s
eat [] (p ∷ ps) = none
eat (c ∷ s) (p ∷ ps) = if lower c == p then eat s ps else none

-- `\s`.
unfoldable pub is_space : ℕ → Bool
is_space c = (c == 32 || c == 9) || (c == 10 || (c == 12 || c == 13))

-- `\s*`.
unfoldable pub spaces : Text → Text
unfolding is_space
spaces [] = []
spaces (c ∷ s) = let rest = spaces s in if is_space c then rest else c ∷ s

-- `\s+`.
unfoldable pub some_spaces : Text → Option Text
unfolding spaces
some_spaces [] = none
some_spaces (c ∷ s) = if is_space c then some (spaces s) else none

-- What the pattern's optional group took: which alternative, or none of them.
pub data Group : Type 0 where
  after_run_of before_cleanup_of at absent : Group

abbrev pub behind : Group → Option Text → Option (Group × Text)
behind g none = none
behind g (some r) = some (g, r)

abbrev pub first_of_two : Option (Group × Text) → Option (Group × Text) → Option (Group × Text)
first_of_two (some r) other = some r
first_of_two none other = other

-- `(after run of|before cleanup of|at)?`
unfoldable pub group : Text → Option (Group × Text)
group s = first_of_two (behind after_run_of (eat s (codes "after run of"))) (
    first_of_two (behind before_cleanup_of (eat s (codes "before cleanup of")))
      (first_of_two (behind at (eat s (codes "at"))) (some (absent, s))))

-- `step\s+'`, behind the group.
unfoldable pub step_name : Group → Text → Option (Group × Text)
step_name g s = do
  s1 ← eat (spaces s) (codes "step")
  s2 ← some_spaces s1
  behind g (eat s2 (codes "'"))

unfoldable pub then_step : Group × Text → Option (Group × Text)
then_step (g, s) = step_name g s

-- `pausing\s+(…)?\s*step\s+'`
unfoldable pub opening : Text → Option (Group × Text)
opening s = do s1 ← eat s (codes "pausing"); s2 ← some_spaces s1; found ← group s2; then_step found

-- `(.*?)'\.`: up to the first quote that a full stop follows, over newlines too.
abbrev pub prepend : ℕ → Option (Text × Text) → Option (Text × Text)
prepend c none = none
prepend c (some (name, rest)) = some (c ∷ name, rest)

unfoldable pub closing : Text → Option (Text × Text)
unfolding strip_prefix
closing [] = none
closing (c ∷ s) =
    let further = prepend c (closing s) in
    elim (strip_prefix (c ∷ s) (codes "'.")) [ some rest ↦ some ([], rest) | none ↦ further ]

-- A match: the group, the step's name, and the text behind the match.
pub record Match : Type 0 where
  pub taken : Group
  pub name : Text
  pub rest : Text

abbrev pub matched : Group → Option (Text × Text) → Option Match
matched g none = none
matched g (some (name, rest)) = some (record { taken = g; name = name; rest = rest })

-- The pattern at the beginning of a text.
unfoldable pub match_here : Text → Option Match
match_here s = do found ← opening s; matched found.0 (closing found.1)

-- `pauseRE.FindSubmatchIndex`: the leftmost match.
unfoldable pub find_prompt : Text → Option Match
find_prompt [] = none
find_prompt (c ∷ s) =
    let later = find_prompt s in elim (match_here (c ∷ s)) [ some m ↦ some m | none ↦ later ]
