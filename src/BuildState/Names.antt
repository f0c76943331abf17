-- ===== src/BuildState/Names.antt =====
-- internal/buildstate/buildstate.go: identifiers of builds (`NewID`, `validID`), and the paths
-- inside a build's directory.
--
-- The time as `NewID` formats it and the random bytes are arguments. A directory's path is a clean
-- one, as `filepath.Join` gives it.
use packer_qemu_mcp_server.Prelude.{
  ℕ, ◌+◌, ◌/◌, ◌%◌, ltb, leb, ◌==◌, Bool, true, false, ◌&&◌, ◌||◌, List, [], ◌∷◌, ◌++◌, Option,
  none, some, if◌then◌else◌, length, take, Text, codes, is_empty, eq_text, to_lower, trim_right,
  quote,
}

-- `strings.TrimSuffix`, of a suffix that is not empty.
unfoldable pub trim_suffix : Text → Text → Text
trim_suffix [] suffix = []
trim_suffix (c ∷ s) suffix =
    let rest = trim_suffix s suffix in if eq_text (c ∷ s) suffix then [] else c ∷ rest

abbrev pub extensions : List Text
extensions = codes ".pkr.hcl" ∷ codes ".pkr.json" ∷ codes ".hcl" ∷ codes ".json" ∷ []

unfoldable pub trim_extensions : List Text → Text → Text
trim_extensions [] name = name
trim_extensions (e ∷ es) name = trim_extensions es (trim_suffix name e)

-- `filepath.Base`: what is behind the last slash, slashes at the end put aside.
unfoldable pub has_slash : Text → Bool
has_slash [] = false
has_slash (c ∷ s) = c == b'/' || has_slash s

unfoldable pub after_slash : Text → Text
unfolding has_slash
after_slash [] = []
after_slash (c ∷ s) =
    let rest = after_slash s in if has_slash s then rest else if c == b'/' then s else c ∷ s

unfoldable pub is_slash : ℕ → Bool
is_slash c = c == b'/'

unfoldable pub base : Text → Text
unfolding after_slash trim_right is_slash
base path =
    let name = trim_right is_slash path in
    if is_empty path then codes "." else if is_empty name then codes "/" else after_slash name

-- `notSlugRE`: what is no letter of a slug becomes a dash, and a run of such becomes one.
unfoldable pub is_slug : ℕ → Bool
is_slug c = (leb b'a' c && leb c b'z') || (leb b'0' c && leb c b'9')

unfoldable pub dashed : Bool → Text → Text
unfolding is_slug
dashed in_run [] = []
dashed in_run (c ∷ s) = elim (is_slug c) [
  | true ↦ c ∷ dashed false s
  | false ↦ let rest = dashed true s in if in_run then rest else b'-' ∷ rest
]

-- `strings.Trim(s, "-")`
unfoldable pub is_dash : ℕ → Bool
is_dash c = c == b'-'

unfoldable pub trim_dashes_left : Text → Text
unfolding is_dash
trim_dashes_left [] = []
trim_dashes_left (c ∷ s) = let rest = trim_dashes_left s in if is_dash c then rest else c ∷ s

unfoldable pub trim_dashes : Text → Text
unfolding trim_dashes_left trim_right is_dash
trim_dashes s = trim_right is_dash (trim_dashes_left s)

abbrev pub max_slug : ℕ
max_slug = 24

-- The slug of `NewID`, from the dashed name on.
unfoldable pub or_build : Text → Text
or_build s = if is_empty s then codes "build" else s

unfoldable pub shorten : Text → Text
unfolding trim_dashes
shorten s = if ltb max_slug (length s) then trim_dashes (take max_slug s) else s

unfoldable pub slug : Text → Text
unfolding trim_extensions base to_lower dashed trim_dashes or_build shorten
slug template =
    shorten (
      or_build (trim_dashes (dashed false (trim_extensions extensions (to_lower (base template))))))

-- `randomSuffix`, of its three bytes.
unfoldable pub hex_digit : ℕ → ℕ
hex_digit d = if ltb d 10 then b'0' + d else 87 + d

unfoldable pub random_suffix : List ℕ → Text
unfolding hex_digit
random_suffix [] = []
random_suffix (n ∷ ns) = hex_digit (n / 16) ∷ hex_digit (n % 16) ∷ random_suffix ns

unfoldable pub new_id : Text → Text → List ℕ → Text
unfolding slug random_suffix
new_id template now random =
    slug template ++ (codes "-" ++ (now ++ (codes "-" ++ random_suffix random)))

-- `validID`, by `idRE`.
unfoldable pub is_alnum : ℕ → Bool
is_alnum c = (leb b'a' c && leb c b'z') || (leb b'A' c && leb c b'Z') || (leb b'0' c && leb c b'9')

unfoldable pub is_id : ℕ → Bool
unfolding is_alnum
is_id c = is_alnum c || c == b'.' || c == b'_' || c == b'-'

unfoldable pub all_id : Text → Bool
unfolding is_id
all_id [] = true
all_id (c ∷ s) = is_id c && all_id s

unfoldable pub matches_id : Text → Bool
unfolding is_alnum all_id
matches_id [] = false
matches_id (c ∷ s) = is_alnum c && all_id s

unfoldable pub valid_id : Text → Option Text
unfolding matches_id
valid_id id = if matches_id id then none else some (codes "invalid build id " ++ quote id)
