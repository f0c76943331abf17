-- ===== src/Pause/Streams/Pieces.antt =====
-- How each piece of the pattern reads a text that grows at its end. The opening of a prompt ends at
-- the first quote of what it reads, so a text with a quote settles whether it begins with one.
use packer_qemu_mcp_server.Prelude.{
  ℕ, ◌==◌, ◌≡◌, refl, sym, ◌∙◌, Bool, true, not, ◌&&◌, [], ◌∷◌, ◌++◌, Option, none, some, ◌↔◌, inl,
  inr, if◌then◌else◌, Text, codes, lower, arith, Option-cases,
}
use packer_qemu_mcp_server.Pause.Pattern.{eat, spaces, some_spaces, Group, group, step_name, behind}

-- The text behind the first quote.
abbrev pub after_quote : Text → Option Text
after_quote [] = none
after_quote (c ∷ s) = if c == 39 then some s else after_quote s

-- A literal without a quote.
abbrev pub is_plain : Text → Bool
is_plain [] = true
is_plain (p ∷ ps) = not (p == 39) && is_plain ps

abbrev pub extend : Option Text → Text → Option Text
extend none t = none
extend (some r) t = some (r ++ t)

abbrev pub extend_group : Option (Group × Text) → Text → Option (Group × Text)
extend_group none t = none
extend_group (some (g, r)) t = some (g, r ++ t)

pub eat-append :
    (s p t : Text) {r : Text}
    → is_plain p ≡ true
    → after_quote s ≡ some r
    → eat (s ++ t) p ≡ extend (eat s p) t
unfolding eat
eat-append s [] t {r} hp q = refl
eat-append [] (p ∷ ps) t {r} hp q = cc
eat-append (c ∷ s) (p ∷ ps) t {r} hp q = ground (arith, eat-append s ps t {r = r})

lower_quote : (c : ℕ) → (lower c ≡ 39) ↔ (c ≡ 39)
unfolding lower
lower_quote c = (λ h. ground arith, λ h. ground arith)

pub after_quote-eat :
    (s p : Text) {r : Text} → is_plain p ≡ true → eat s p ≡ some r → after_quote r ≡ after_quote s
unfolding eat
after_quote-eat s [] hp e = cc
after_quote-eat [] (p ∷ ps) hp e = cc
after_quote-eat (c ∷ s) (p ∷ ps) {r} hp e =
    ground (arith, after_quote-eat s ps {r = r}, lower_quote c)

spaces-append : (s t : Text) {r : Text} → after_quote s ≡ some r → spaces (s ++ t) ≡ spaces s ++ t
unfolding spaces
spaces-append [] t q = cc
spaces-append (c ∷ s) t {r} q = ground (arith, spaces-append s t {r = r})

after_quote-spaces : (s : Text) → after_quote (spaces s) ≡ after_quote s
unfolding spaces
after_quote-spaces [] = refl
after_quote-spaces (c ∷ s) = ground (arith, after_quote-spaces s)

pub some_spaces-append :
    (s t : Text) {r : Text}
    → after_quote s ≡ some r
    → some_spaces (s ++ t) ≡ extend (some_spaces s) t
unfolding some_spaces
some_spaces-append [] t q = cc
some_spaces-append (c ∷ s) t {r} q = ground (arith, spaces-append s t {r = r})

pub after_quote-some_spaces :
    (s : Text) {r : Text} → some_spaces s ≡ some r → after_quote r ≡ after_quote s
unfolding some_spaces
after_quote-some_spaces [] e = cc
after_quote-some_spaces (c ∷ s) e = ground (arith, after_quote-spaces s)

pub group-append :
    (s t : Text) {r : Text} → after_quote s ≡ some r → group (s ++ t) ≡ extend_group (group s) t
unfolding group
group-append s t q =
    rw
      (
        eat-append s (codes "after run of") t refl q,
        eat-append s (codes "before cleanup of") t refl q,
        eat-append s (codes "at") t refl q,
      )
      (ground arith)

pub after_quote-group :
    (s : Text) {g : Group} {r : Text} → group s ≡ some (g, r) → after_quote r ≡ after_quote s
unfolding group
after_quote-group s {g} {r} e = ground (
  arith,
  after_quote-eat s (codes "after run of") {r = r} refl,
  after_quote-eat s (codes "before cleanup of") {r = r} refl,
  after_quote-eat s (codes "at") {r = r} refl,
)

quote-append :
    (s t : Text) {r : Text}
    → after_quote s ≡ some r
    → eat (s ++ t) (codes "'") ≡ extend (eat s (codes "'")) t
unfolding eat
quote-append [] t q = cc
quote-append (c ∷ s) t q = ground arith

after_quote_lem : (s : Text) {r : Text} → eat s (codes "'") ≡ some r → after_quote s ≡ some r
unfolding eat
after_quote_lem [] e = cc
after_quote_lem (c ∷ s) e = ground (arith, lower_quote c)

behind-eq :
    (g : Group) (o : Option Text) {g' : Group} {r : Text} → behind g o ≡ some (g', r) → o ≡ some r
behind-eq g none h = cc
behind-eq g (some x) h = ground arith

pub step_name-append :
    (g : Group) (s t : Text) {r : Text}
    → after_quote s ≡ some r
    → step_name g (s ++ t) ≡ extend_group (step_name g s) t
unfolding step_name
step_name-append g s t {r} q =
    rw (spaces-append s t q, eat-append (spaces s) (codes "step") t refl (after_quote-spaces s ∙ q))
      (elim (Option-cases (eat (spaces s) (codes "step"))) [
        | inl e ↦ rw e
        | inr (s1, e) ↦
            let q1 : after_quote s1 ≡ some r =
              after_quote-eat (spaces s) (codes "step") refl e ∙ (after_quote-spaces s ∙ q) in
            rw (e, some_spaces-append s1 t q1)
              (elim (Option-cases (some_spaces s1)) [
                | inl e1 ↦ rw e1
                | inr (s2, e1) ↦
                    rw (e1, quote-append s2 t (after_quote-some_spaces s1 e1 ∙ q1)) (ground arith)
              ])
      ])

pub after_quote-step_name :
    (g : Group) (s : Text) {g' : Group} {r : Text}
    → step_name g s ≡ some (g', r)
    → after_quote s ≡ some r
unfolding step_name
after_quote-step_name g s {g'} {r} h = elim (Option-cases (eat (spaces s) (codes "step"))) [
  | inl e ↦ cc (rw e at h)
  | inr (s1, e) ↦ elim (Option-cases (some_spaces s1)) [
    | inl e1 ↦ cc (rw (e, e1) at h)
    | inr (s2, e1) ↦
        sym (after_quote-spaces s)
        ∙ (sym (after_quote-eat (spaces s) (codes "step") refl e)
            ∙ (sym (after_quote-some_spaces s1 e1)
                ∙ after_quote_lem s2 (behind-eq g _ (rw (e, e1) at h))))
  ]
]
