-- ===== src/Pause/Streams/Leftmost.antt =====
-- The leftmost prompt of a growing text: more text never moves it, and what it leaves is shorter.
use packer_qemu_mcp_server.Prelude.{
  ℕ, ◌<◌, ◌≡◌, ◌≢◌, refl, sym, ◌∙◌, ◌==◌, [], ◌∷◌, ◌++◌, none, some, inl, inr, Text, arith,
  Bool-cases, Option-cases, length,
}
use mathlib.Core.Option.{some-injective}
use packer_qemu_mcp_server.Pause.Pattern.{Group, opening, closing, Match, match_here, find_prompt}
use packer_qemu_mcp_server.Pause.Streams.Pieces.{after_quote}
use packer_qemu_mcp_server.Pause.Streams.Openings.{
  opening-append, after_quote-opening, closing-append, closing-cons, length-closing,
}

abbrev pub grow : Match → Text → Match
grow m t = record m { rest = m.rest ++ t }

-- A match names the quote that ends its opening, and its name is closed behind it.
match_here_inv :
    (s : Text) {m : Match}
    → match_here s ≡ some m
    → (r : Text) × (opening s ≡ some (m.taken, r)) × (closing r ≡ some (m.name, m.rest))
unfolding match_here
match_here_inv s {m} h = elim (Option-cases (opening s)) [
  | inl e ↦ cc (rw e at h)
  | inr ((g, r), e) ↦ elim (Option-cases (closing r)) [
    | inl e1 ↦ cc (rw (e, e1) at h)
    | inr ((n, r'), e1) ↦
        let e2 : some (record { taken = g; name = n; rest = r' }) ≡ some m = rw (e, e1) at h in
        (r, ground arith, ground arith)
  ]
]

match_here_closed :
    (s : Text) {g : Group} {r : Text}
    → opening s ≡ some (g, r)
    → closing r ≢ none
    → match_here s ≢ none
unfolding match_here
match_here_closed s {g} {r} h k =
    rw h
      (elim (Option-cases (closing r)) [ inl e ↦ absurd (k e) | inr ((n, r'), e) ↦ rw e (λ q. cc) ])

match_here-append :
    (s t : Text) {m : Match} → match_here s ≡ some m → match_here (s ++ t) ≡ some (grow m t)
unfolding match_here
match_here-append s t {m} h =
    let (r, e, e1) = match_here_inv s h in
    rw (opening-append s t (after_quote-opening s e), e, closing-append r t e1) refl

-- A text has a quote, and a closing behind the first one.
abbrev QuotedName : Text → Type 0
QuotedName s = (r : Text) × (after_quote s ≡ some r) × (closing r ≢ none)

closing_of_QuotedName :
    (s : Text) {r : Text} → after_quote s ≡ some r → closing r ≢ none → closing s ≢ none
closing_of_QuotedName [] q k = cc
closing_of_QuotedName (c ∷ s) {r} q k = elim (Bool-cases (c == 39)) [
  | inl e ↦ let e1 : some s ≡ some r = rw e at q in closing-cons c s (rw (some-injective _ _ e1) k)
  | inr e ↦ closing-cons c s (closing_of_QuotedName s (rw e at q) k)
]

QuotedName-cons : (c : ℕ) (s : Text) → QuotedName s → QuotedName (c ∷ s)
QuotedName-cons c s (r, q, k) = elim (Bool-cases (c == 39)) [
  | inl e ↦ (s, rw e, closing_of_QuotedName s q k)
  | inr e ↦ (r, rw e q, k)
]

find_prompt-QuotedName : (s : Text) {m : Match} → find_prompt s ≡ some m → QuotedName s
unfolding find_prompt
find_prompt-QuotedName [] h = cc
find_prompt-QuotedName (c ∷ s) {m} h = elim (Option-cases (match_here (c ∷ s))) [
  | inr (m', e) ↦
      let (r, e1, e2) = match_here_inv (c ∷ s) e in (r, after_quote-opening (c ∷ s) e1, λ q. cc)
  | inl e ↦ QuotedName-cons c s (find_prompt-QuotedName s {m = m} (ground arith))
]

-- No match at the beginning, and a prompt later: more text makes no match at the beginning.
match_here-append_none :
    (s t : Text) → QuotedName s → match_here s ≡ none → match_here (s ++ t) ≡ none
match_here-append_none s t (r, q, k) h = elim (Option-cases (opening s)) [
  | inl e ↦ unfold match_here in rw (opening-append s t q, e)
  | inr ((g, r'), e) ↦
      let same : some r' ≡ some r = sym (after_quote-opening s e) ∙ q in
      absurd (match_here_closed s e (rw (some-injective _ _ same) k) h)
]

-- The leftmost prompt of a text is that of the text with more behind it.
pub find_prompt-append :
    (s t : Text) {m : Match} → find_prompt s ≡ some m → find_prompt (s ++ t) ≡ some (grow m t)
unfolding find_prompt
find_prompt-append [] t h = cc
find_prompt-append (c ∷ s) t {m} h = elim (Option-cases (match_here (c ∷ s))) [
  | inr (m', e) ↦ ground (arith, match_here-append (c ∷ s) t e)
  | inl e ↦ ground (
    arith,
    match_here-append_none (c ∷ s) t (find_prompt-QuotedName (c ∷ s) h) e,
    find_prompt-append s t {m = m},
  )
]

length-after_quote : (s : Text) {r : Text} → after_quote s ≡ some r → length r < length s
length-after_quote [] q = cc
length-after_quote (c ∷ s) {r} q = ground (arith, length-after_quote s {r = r})

length-match_here : (s : Text) {m : Match} → match_here s ≡ some m → length m.rest < length s
length-match_here s h =
    let (r, e, e1) = match_here_inv s h in
    omega (arith, length-after_quote s (after_quote-opening s e), length-closing r e1)

-- A match takes a byte at least.
pub length-find_prompt : (s : Text) {m : Match} → find_prompt s ≡ some m → length m.rest < length s
unfolding find_prompt
length-find_prompt [] h = cc
length-find_prompt (c ∷ s) {m} h = elim (Option-cases (match_here (c ∷ s))) [
  | inr (m', e) ↦ let same : m' ≡ m = ground arith in rw (← same) (length-match_here (c ∷ s) e)
  | inl e ↦ ground (arith, length-find_prompt s {m = m})
]
