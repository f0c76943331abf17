-- ===== src/Pause/Streams/Openings.antt =====
-- The opening and the closing of a prompt in a growing text.
use packer_qemu_mcp_server.Prelude.{
  ℕ, ◌≤◌, ◌≡◌, ◌≢◌, refl, sym, ap, ◌∙◌, [], ◌∷◌, ◌++◌, Option, none, some, inl, inr, Text, codes,
  strip_prefix, arith, Option-cases, length,
}
use packer_qemu_mcp_server.Pause.Pattern.{
  eat, some_spaces, Group, group, then_step, opening, closing, prepend,
}
use packer_qemu_mcp_server.Pause.Streams.Pieces.{
  after_quote, extend, extend_group, eat-append, after_quote-eat, some_spaces-append,
  after_quote-some_spaces, group-append, after_quote-group, step_name-append, after_quote-step_name,
}

pub opening-append :
    (s t : Text) {r : Text} → after_quote s ≡ some r → opening (s ++ t) ≡ extend_group (opening s) t
unfolding opening then_step
opening-append s t {r} q =
    rw (eat-append s (codes "pausing") t refl q) (elim (Option-cases (eat s (codes "pausing"))) [
      | inl e ↦ rw e
      | inr (s1, e) ↦
          let q1 : after_quote s1 ≡ some r = after_quote-eat s (codes "pausing") refl e ∙ q in
          rw (e, some_spaces-append s1 t q1)
            (elim (Option-cases (some_spaces s1)) [
              | inl e1 ↦ rw e1
              | inr (s2, e1) ↦
                  let q2 : after_quote s2 ≡ some r = after_quote-some_spaces s1 e1 ∙ q1 in
                  rw (e1, group-append s2 t q2)
                    (elim (Option-cases (group s2)) [
                      | inl e2 ↦ rw e2
                      | inr ((g, s3), e2) ↦
                          rw e2 (step_name-append g s3 t (after_quote-group s2 e2 ∙ q2))
                    ])
            ])
    ])

pub after_quote-opening :
    (s : Text) {g : Group} {r : Text} → opening s ≡ some (g, r) → after_quote s ≡ some r
unfolding opening then_step
after_quote-opening s {g} {r} h = elim (Option-cases (eat s (codes "pausing"))) [
  | inl e ↦ cc (rw e at h)
  | inr (s1, e) ↦ elim (Option-cases (some_spaces s1)) [
    | inl e1 ↦ cc (rw (e, e1) at h)
    | inr (s2, e1) ↦ elim (Option-cases (group s2)) [
      | inl e2 ↦ cc (rw (e, e1, e2) at h)
      | inr ((g', s3), e2) ↦
          sym (after_quote-eat s (codes "pausing") refl e)
          ∙ (sym (after_quote-some_spaces s1 e1)
              ∙ (sym (after_quote-group s2 e2) ∙ after_quote-step_name g' s3 (rw (e, e1, e2) at h)))
    ]
  ]
]

strip_close :
    (c d : ℕ) (s t : Text)
    → strip_prefix (c ∷ d ∷ (s ++ t)) (codes "'.")
      ≡ extend (strip_prefix (c ∷ d ∷ s) (codes "'.")) t
unfolding strip_prefix
strip_close c d s t = ground arith

abbrev or_later : Option Text → Option (Text × Text) → Option (Text × Text)
or_later none later = later
or_later (some r) later = some ([], r)

closing_step :
    (c : ℕ) (s : Text)
    → closing (c ∷ s) ≡ or_later (strip_prefix (c ∷ s) (codes "'.")) (prepend c (closing s))
unfolding closing
closing_step c s = ground arith

closing_last : (c : ℕ) → closing (c ∷ []) ≡ none
unfolding closing strip_prefix
closing_last c = ground arith

-- A closed name stays closed, where it was.
pub closing-append :
    (s t : Text) {n r : Text} → closing s ≡ some (n, r) → closing (s ++ t) ≡ some (n, r ++ t)
closing-append [] t h = unfold closing in cc
closing-append (c ∷ []) t h = cc (closing_last c)
closing-append (c ∷ (d ∷ s)) t {n} {r} h =
    rw (closing_step, strip_close)
      (elim (Option-cases (strip_prefix (c ∷ d ∷ s) (codes "'."))) [
        | inr (r', e) ↦ rw e (ground (arith, closing_step c (d ∷ s)))
        | inl e ↦ elim (Option-cases (closing (d ∷ s))) [
          | inl e1 ↦ cc (closing_step c (d ∷ s), ap (or_later none) (ap (prepend c) e1), e, e1)
          | inr ((n', r'), e1) ↦
              rw (e, closing-append (d ∷ s) t e1) (ground (arith, closing_step c (d ∷ s)))
        ]
      ])

pub closing-cons : (c : ℕ) (s : Text) → closing s ≢ none → closing (c ∷ s) ≢ none
unfolding closing
closing-cons c s h = ground arith

pub length-closing : (s : Text) {n r : Text} → closing s ≡ some (n, r) → length r ≤ length s
unfolding closing strip_prefix
length-closing [] h = cc
length-closing (c ∷ []) h = ground arith
length-closing (c ∷ (d ∷ s)) {n} {r} h = elim (Option-cases (closing (d ∷ s))) [
  | inl e1 ↦ ground arith
  | inr ((n', r'), e1) ↦ ground (arith, length-closing (d ∷ s) e1)
]
