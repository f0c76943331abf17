-- ===== src/Keyboard/Layout.antt =====
-- internal/keyboard/keyboard.go: `Type` against the layout of a US keyboard.
use packer_qemu_mcp_server.Prelude.{
  ℕ, zero, suc, ◌-◌, ◌≤◌, ◌<◌, ◌==◌, leb, ◌≡◌, refl, sym, subst, inl, inr, Bool, true, false, not,
  ◌&&◌, ◌||◌, List, [], ◌∷◌, ◌++◌, Option, none, some, if◌then◌else◌, Text, eq_text, arith, All,
  Bool-cases, Outcome, ok, err, Outcome-cases, ==_iff, leb→le,
}
use packer_qemu_mcp_server.Keyboard.Keys.{
  Press, KeyError, untypable, shift, plain_symbols, shifted_symbols, is_between, find_code, typed,
  type_from, type_text,
}

abbrev pub is_ok {ℓ κ} : {E : Type ℓ} {A : Type κ} → Outcome E A → Bool
is_ok (ok a) = true
is_ok (err e) = false

-- Tab, newline, carriage return, and the printable characters of ASCII.
abbrev pub on_keyboard : ℕ → Bool
on_keyboard c = c == 9 || (c == 10 || (c == 13 || (leb 32 c && leb c 126)))

-- What a press types on a US keyboard. Both ends of a line are on the enter key, which is read as
-- a newline.
find_key : Text → List (ℕ × Text) → Option ℕ
find_key k [] = none
find_key k ((c, name) ∷ rest) = if eq_text k name then some c else find_key k rest

alone : Text → Option ℕ
unfolding find_key plain_symbols
alone (c ∷ []) =
    if is_between b'a' b'z' c || is_between b'0' b'9' c
    then some c
    else find_key (c ∷ []) plain_symbols
alone k = find_key k plain_symbols

with_shift : Text → Option ℕ
unfolding find_key shifted_symbols
with_shift (c ∷ []) =
    if is_between b'a' b'z' c then some (c - 32) else find_key (c ∷ []) shifted_symbols
with_shift k = find_key k shifted_symbols

pub reads : Press → Option ℕ
unfolding alone with_shift
reads (k ∷ []) = alone k
reads (m ∷ (k ∷ [])) = if eq_text m shift then with_shift k else none
reads _ = none

abbrev is_char : ℕ → Option ℕ → Bool
is_char c none = false
is_char c (some d) = d == c

-- Every character below 127 is checked by evaluation.
agrees : ℕ → Outcome KeyError Press → Bool
unfolding reads
agrees c (err e) = not (on_keyboard c)
agrees c (ok p) = on_keyboard c && (c == 13 || is_char c (reads p))

all_agree : ℕ → Bool
all_agree zero = true
all_agree (suc n) = agrees n (typed n) && all_agree n

table : all_agree 127 ≡ true
unfolding all_agree agrees typed eq_text
table = refl

all_agree_at : (n c : ℕ) → all_agree n ≡ true → c < n → agrees c (typed c) ≡ true
unfolding all_agree
all_agree_at zero c h l = absurd (omega arith)
all_agree_at (suc n) c h l = elim (Bool-cases (c == n)) [
  | inl e ↦ subst (λ k. agrees k (typed k) ≡ true) (sym ((==_iff c n).0 e)) (ground arith)
  | inr e ↦ all_agree_at n c (ground arith) (ground arith)
]

-- No character from 127 on stands in a table.
find_code_high :
    (c : ℕ) (table : List (ℕ × Text))
    → All (λ e. e.0 < 127) table
    → 127 ≤ c
    → find_code c table ≡ none
unfolding find_code
find_code_high c [] h l = refl
find_code_high c ((d, name) ∷ rest) (h, hs) l = ground (arith, find_code_high c rest hs l)

typed_high : (c : ℕ) → 127 ≤ c → typed c ≡ err (untypable c)
unfolding typed
typed_high c l = ground (
  arith,
  find_code_high c plain_symbols (unfold plain_symbols in omega arith) l,
  find_code_high c shifted_symbols (unfold shifted_symbols in omega arith) l,
)

agrees_below : (c : ℕ) → c < 127 → agrees c (typed c) ≡ true
agrees_below c l = all_agree_at 127 c table l

is_ok-agrees : (c : ℕ) (r : Outcome KeyError Press) → agrees c r ≡ true → is_ok r ≡ on_keyboard c
unfolding agrees
is_ok-agrees c (err e) h = ground arith
is_ok-agrees c (ok p) h = ground arith

-- What can be typed is exactly tab, the ends of a line and the printable characters of ASCII.
pub is_ok-typed : (c : ℕ) → is_ok (typed c) ≡ on_keyboard c
is_ok-typed c = elim (Bool-cases (leb 127 c)) [
  | inl high ↦ rw (typed_high c (leb→le 127 c high)) (ground arith)
  | inr low ↦ is_ok-agrees c (typed c) (agrees_below c (ground arith))
]

abbrev both : Option ℕ → Option (List ℕ) → Option (List ℕ)
both none r = none
both (some c) none = none
both (some c) (some s) = some (c ∷ s)

-- What the presses type, one after the other.
unfoldable pub read_all : List Press → Option (List ℕ)
read_all [] = some []
read_all (p ∷ ps) = both (reads p) (read_all ps)

abbrev pub all_on_keyboard : List ℕ → Bool
all_on_keyboard [] = true
all_on_keyboard (c ∷ s) = on_keyboard c && all_on_keyboard s

is_ok-type_from : (ps : List Press) (s : List ℕ) → is_ok (type_from ps s) ≡ all_on_keyboard s
unfolding type_from
is_ok-type_from ps [] = refl
is_ok-type_from ps (c ∷ s) = elim (Outcome-cases (typed c)) [
  | inl (p, e) ↦
      let here : true ≡ on_keyboard c = rw e at (is_ok-typed c) in
      rw (e, ← here) (is_ok-type_from (ps ++ (p ∷ [])) s)
  | inr (x, e) ↦ let here : false ≡ on_keyboard c = rw e at (is_ok-typed c) in rw (e, ← here) refl
]

-- A text is typed exactly when each of its characters is on the keyboard: tab, the ends of a line,
-- and the printable characters of ASCII.
pub is_ok-type_text : (s : List ℕ) → is_ok (type_text s) ≡ all_on_keyboard s
unfolding type_text
is_ok-type_text s = is_ok-type_from [] s
