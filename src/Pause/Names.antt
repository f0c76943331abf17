-- ===== src/Pause/Names.antt =====
-- internal/pause/pause.go: `Matches` and `Interesting`, against descriptions that use neither the
-- patterns nor the lower-case copies.
use packer_qemu_mcp_server.Prelude.{
  ◌≡◌, ◌≢◌, ◌↔◌, refl, ap, true, [], ◌∷◌, ◌++◌, some, inl, inr, Text, codes, arith, to_lower,
  has_prefix, contains, Bool-cases, Option-cases,
}
use packer_qemu_mcp_server.Pause.Pattern.{eat}
use packer_qemu_mcp_server.Pause.Found.{after_run, Pause, interesting, described, label, matches}

has_prefix-eat : (s p : Text) {r : Text} → eat s p ≡ some r → has_prefix (to_lower s) p ≡ true
unfolding eat has_prefix to_lower
has_prefix-eat s [] e = refl
has_prefix-eat [] (p ∷ ps) e = cc
has_prefix-eat (c ∷ s) (p ∷ ps) {r} e = ground (arith, has_prefix-eat s ps {r = r})

-- A pause after the run of a step that reads as a described entry of `boot_steps` is interesting:
-- the pattern that finds the label and the test of the prefix agree.
pub interesting-described :
    (p : Pause) {d : Text}
    → p.location ≡ after_run
    → described p.step ≡ some d
    → interesting p ≡ true
unfolding interesting described
interesting-described p h e = elim (Option-cases (eat p.step (codes "boot description:"))) [
  | inl e1 ↦ cc (rw e1 at e)
  | inr (r, e1) ↦ rw (h, has_prefix-eat p.step (codes "boot description:") e1) refl
]

-- The text `l` has a part that is `asked` but for the case of its letters.
abbrev pub HasPart : Text → Text → Type 0
HasPart l asked =
    (before part after : Text) × (l ≡ before ++ (part ++ after)) × (to_lower part ≡ to_lower asked)

prefix_part :
    (s q : Text)
    → has_prefix (to_lower s) q ≡ true
    → (part after : Text) × (s ≡ part ++ after) × (to_lower part ≡ q)
unfolding has_prefix to_lower
prefix_part s [] h = ([], s, refl, refl)
prefix_part [] (c ∷ q) h = cc
prefix_part (b ∷ s) (c ∷ q) h =
    let (part, after, e, e1) = prefix_part s q (ground arith) in
    (b ∷ part, after, ap (λ t. b ∷ t) e, ground arith)

part_of_contains :
    (s q : Text)
    → contains (to_lower s) q ≡ true
    → (before part after : Text) × (s ≡ before ++ (part ++ after)) × (to_lower part ≡ q)
unfolding contains to_lower
part_of_contains [] q h = let (part, after, e, e1) = prefix_part [] q h in ([], part, after, e, e1)
part_of_contains (c ∷ s) q h = elim (Bool-cases (has_prefix (to_lower (c ∷ s)) q)) [
  | inl e0 ↦ let (part, after, e, e1) = prefix_part (c ∷ s) q e0 in ([], part, after, e, e1)
  | inr e0 ↦
      let (before, part, after, e, e1) = part_of_contains s q (rw e0 at h) in
      (c ∷ before, part, after, ap (λ t. c ∷ t) e, e1)
]

prefix-append : (part after : Text) → has_prefix (to_lower (part ++ after)) (to_lower part) ≡ true
unfolding has_prefix to_lower
prefix-append [] after = refl
prefix-append (c ∷ part) after = ground (arith, prefix-append part after)

contains-append :
    (before part after : Text)
    → contains (to_lower (before ++ (part ++ after))) (to_lower part) ≡ true
unfolding contains to_lower
contains-append [] [] [] = unfold has_prefix in refl
contains-append [] [] (c ∷ after) = unfold has_prefix in refl
contains-append [] (c ∷ part) after = rw (prefix-append (c ∷ part) after) refl
contains-append (c ∷ before) part after = ground (arith, contains-append before part after)

-- A pause is the one a caller named exactly when the name is not empty and the pause's label has
-- a part that is the name but for the case of its letters.
pub matches_iff :
    (p : Pause) (asked : Text) → (matches p asked ≡ true) ↔ ((asked ≢ []) × HasPart (label p) asked)
unfolding matches
matches_iff p [] = (λ h. cc, λ (h, _). absurd (h refl))
matches_iff p (c ∷ asked) = (
  λ h. (λ e. cc, part_of_contains (label p) (to_lower (c ∷ asked)) h),
  λ (_, (before, part, after, e, e1)). rw (e, ← e1) (contains-append before part after),
)
