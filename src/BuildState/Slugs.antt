-- ===== src/BuildState/Slugs.antt =====
-- internal/buildstate/buildstate.go: the identifiers that `NewID` makes are ones that `validID`
-- takes, and the readable half of them is short.
use packer_qemu_mcp_server.Prelude.{
  ℕ, suc, zero, ◌+◌, ◌*◌, ◌/◌, ◌%◌, ◌≤◌, ◌<◌, ltb, ◌≡◌, refl, inl, inr, arith, Bool, true, false,
  ◌&&◌, ◌||◌, List, [], ◌∷◌, ◌++◌, none, length, length-append, take, Text, codes, is_empty,
  to_lower, trim_right, All, Bool-cases,
}
use packer_qemu_mcp_server.BuildState.Names.{
  is_slug, dashed, is_dash, trim_dashes_left, trim_dashes, max_slug, or_build, shorten, slug,
  trim_extensions, extensions, base, hex_digit, random_suffix, new_id, is_alnum, is_id, all_id,
  matches_id, valid_id,
}

-- The bytes of a slug.
abbrev IsSlugByte : ℕ → Type 0
IsSlugByte c = (is_slug c || is_dash c) ≡ true

-- A text of such bytes.
abbrev IsSlugText : Text → Type 0
IsSlugText s = All IsSlugByte s

dash-IsSlugByte : IsSlugByte b'-'
unfolding is_slug is_dash
dash-IsSlugByte = refl

dashed-IsSlugText : (b : Bool) (s : Text) → IsSlugText (dashed b s)
unfolding dashed
dashed-IsSlugText b [] = tt
dashed-IsSlugText b (c ∷ s) = elim (Bool-cases (is_slug c)) [
  | inl e ↦ rw (dashed, e) (rw e refl, dashed-IsSlugText false s)
  | inr e ↦ elim (Bool-cases b) [
    | inl eb ↦ rw (dashed, e, eb) (dashed-IsSlugText true s)
    | inr eb ↦ rw (dashed, e, eb) (dash-IsSlugByte, dashed-IsSlugText true s)
  ]
]

trim_right-IsSlugText : (s : Text) → IsSlugText s → IsSlugText (trim_right is_dash s)
unfolding trim_right
trim_right-IsSlugText [] h = tt
trim_right-IsSlugText (c ∷ s) (hc, hs) =
    elim (Bool-cases (is_empty (trim_right is_dash s) && is_dash c)) [
      | inl e ↦ rw e tt
      | inr e ↦ rw e (hc, trim_right-IsSlugText s hs)
    ]

-- A slug: it begins with a letter or a digit.
abbrev IsSlug : Text → Type 0
IsSlug [] = true ≡ false
IsSlug (c ∷ s) = (is_slug c ≡ true) × IsSlugText s

-- Nothing, or a slug.
abbrev IsTrimmed : Text → Type 0
IsTrimmed [] = Unit
IsTrimmed (c ∷ s) = (is_slug c ≡ true) × IsSlugText s

trim_dashes_left-IsTrimmed : (s : Text) → IsSlugText s → IsTrimmed (trim_dashes_left s)
unfolding trim_dashes_left
trim_dashes_left-IsTrimmed [] h = tt
trim_dashes_left-IsTrimmed (c ∷ s) (hc, hs) = elim (Bool-cases (is_dash c)) [
  | inl e ↦ rw e (trim_dashes_left-IsTrimmed s hs)
  | inr e ↦ rw e (ground (arith, hc, e), hs)
]

trim_right-IsTrimmed : (s : Text) → IsTrimmed s → IsTrimmed (trim_right is_dash s)
unfolding trim_right
trim_right-IsTrimmed [] h = tt
trim_right-IsTrimmed (c ∷ s) (hc, hs) =
    elim (Bool-cases (is_empty (trim_right is_dash s) && is_dash c)) [
      | inl e ↦ rw e tt
      | inr e ↦ rw e (hc, trim_right-IsSlugText s hs)
    ]

trim_dashes-IsTrimmed : (s : Text) → IsSlugText s → IsTrimmed (trim_dashes s)
unfolding trim_dashes
trim_dashes-IsTrimmed s h =
    trim_right-IsTrimmed (trim_dashes_left s) (trim_dashes_left-IsTrimmed s h)

or_build-IsSlug : (s : Text) → IsTrimmed s → IsSlug (or_build s)
unfolding or_build is_slug is_dash
or_build-IsSlug [] h = (refl, (refl, (refl, (refl, (refl, tt)))))
or_build-IsSlug (c ∷ s) h = h

take-IsSlugText : (n : ℕ) (s : Text) → IsSlugText s → IsSlugText (take n s)
take-IsSlugText zero s h = tt
take-IsSlugText (suc n) [] h = tt
take-IsSlugText (suc n) (c ∷ s) (hc, hs) = (hc, take-IsSlugText n s hs)

trim_dashes_first :
    (c : ℕ) (s : Text) → is_slug c ≡ true → trim_dashes (c ∷ s) ≡ c ∷ trim_right is_dash s
unfolding trim_dashes trim_dashes_left trim_right is_dash is_slug
trim_dashes_first c s h = ground (arith, h)

-- A slug that is cut short still begins with its first byte.
cut-IsSlug : (n : ℕ) (s : Text) → IsSlug s → IsSlug (trim_dashes (take (suc n) s))
cut-IsSlug n [] h = ground (arith, h)
cut-IsSlug n (c ∷ s) (hc, hs) =
    rw (trim_dashes_first c (take n s) hc)
      (hc, trim_right-IsSlugText (take n s) (take-IsSlugText n s hs))

shorten-IsSlug : (s : Text) → IsSlug s → IsSlug (shorten s)
unfolding shorten
shorten-IsSlug s h = elim (Bool-cases (ltb max_slug (length s))) [
  | inl e ↦ rw e (cut-IsSlug 23 s h)
  | inr e ↦ rw e h
]

slug-IsSlug : (template : Text) → IsSlug (slug template)
unfolding slug
slug-IsSlug template =
    let name = trim_extensions extensions (to_lower (base template)) in
    let s = trim_dashes (dashed false name) in
    shorten-IsSlug (or_build s)
      (or_build-IsSlug s (trim_dashes-IsTrimmed (dashed false name) (dashed-IsSlugText false name)))

length-trim_right : (s : Text) → length (trim_right is_dash s) ≤ length s
unfolding trim_right
length-trim_right [] = omega arith
length-trim_right (c ∷ s) = ground (arith, length-trim_right s)

length-trim_dashes_left : (s : Text) → length (trim_dashes_left s) ≤ length s
unfolding trim_dashes_left
length-trim_dashes_left [] = omega arith
length-trim_dashes_left (c ∷ s) = ground (arith, length-trim_dashes_left s)

length-trim_dashes : (s : Text) → length (trim_dashes s) ≤ length s
unfolding trim_dashes
length-trim_dashes s =
    omega (arith, length-trim_right (trim_dashes_left s), length-trim_dashes_left s)

length-take : (n : ℕ) (s : Text) → length (take n s) ≤ n
length-take zero s = omega arith
length-take (suc n) [] = omega arith
length-take (suc n) (c ∷ s) = omega (arith, length-take n s)

length-shorten : (s : Text) → length (shorten s) ≤ max_slug
unfolding shorten
length-shorten s = ground (arith, length-trim_dashes (take max_slug s), length-take max_slug s)

IsSlugByte-id : (c : ℕ) → IsSlugByte c → is_id c ≡ true
unfolding is_slug is_dash is_id is_alnum
IsSlugByte-id c h = ground (arith, h)

all_id-append : (s t : Text) → all_id s ≡ true → all_id t ≡ true → all_id (s ++ t) ≡ true
unfolding all_id
all_id-append [] t hs ht = ht
all_id-append (c ∷ s) t hs ht = ground (arith, hs, all_id-append s t, ht)

IsSlugText-id : (s : Text) → IsSlugText s → all_id s ≡ true
unfolding all_id
IsSlugText-id [] h = refl
IsSlugText-id (c ∷ s) (hc, hs) = rw (IsSlugByte-id c hc, IsSlugText-id s hs) refl

hex_digit_id : (d : ℕ) → d < 16 → is_id (hex_digit d) ≡ true
unfolding hex_digit is_id is_alnum
hex_digit_id d h = ground (arith, h)

-- Bytes.
abbrev pub IsByte : ℕ → Type 0
IsByte n = n < 256

random_suffix_id : (random : List ℕ) → All IsByte random → all_id (random_suffix random) ≡ true
unfolding all_id random_suffix
random_suffix_id [] h = refl
random_suffix_id (n ∷ ns) (hn, hns) =
    rw
      (
        hex_digit_id (n / 16) (omega (arith, hn)),
        hex_digit_id (n % 16) (omega arith),
        random_suffix_id ns hns,
      )
      refl

slug_first : (s t : Text) → IsSlug s → all_id t ≡ true → matches_id (s ++ t) ≡ true
unfolding matches_id is_slug is_alnum
slug_first [] t h ht = ground (arith, h)
slug_first (c ∷ s) t (hc, hs) ht =
    let rest = all_id-append s t (IsSlugText-id s hs) ht in ground (arith, hc, rest)

-- An identifier that `NewID` makes, of whatever template, of a time whose bytes an identifier may
-- have and of random bytes, is one that `validID` takes.
pub valid_id-new_id :
    (template now : Text) (random : List ℕ)
    → all_id now ≡ true
    → All IsByte random
    → valid_id (new_id template now random) ≡ none
unfolding valid_id new_id all_id is_id is_alnum
valid_id-new_id template now random hnow hr =
    let rest = all_id-append (codes "-") (now ++ (codes "-" ++ random_suffix random)) refl (
      all_id-append now (codes "-" ++ random_suffix random) hnow
        (all_id-append (codes "-") (random_suffix random) refl (random_suffix_id random hr))) in
    rw
      (slug_first (slug template) (codes "-" ++ (now ++ (codes "-" ++ random_suffix random)))
        (slug-IsSlug template) rest)
      refl

length-random_suffix : (random : List ℕ) → length (random_suffix random) ≡ 2 * length random
unfolding random_suffix
length-random_suffix [] = refl
length-random_suffix (n ∷ ns) = omega (arith, length-random_suffix ns)

-- The length of an identifier: that of its slug is bounded.
pub length-new_id :
    (template now : Text) (random : List ℕ)
    → length (new_id template now random) ≤ max_slug + 2 + length now + 2 * length random
unfolding new_id slug
length-new_id template now random =
    let name = trim_extensions extensions (to_lower (base template)) in
    omega (
      arith,
      length-append (slug template) (codes "-" ++ (now ++ (codes "-" ++ random_suffix random))),
      length-append now (codes "-" ++ random_suffix random),
      length-random_suffix random,
      length-shorten (or_build (trim_dashes (dashed false name))),
    )
