-- ===== src/Pause/Streams/Feeding.antt =====
-- internal/pause/pause.go: `Scan` as internal/supervisor/supervisor.go calls it in `read`, on one
-- chunk of the terminal's output after the other.
use packer_qemu_mcp_server.Prelude.{
  ◌≤◌, ◌≡◌, ◌⊎◌, refl, sym, ap, subst, ◌∙◌, List, [], ◌∷◌, ◌++◌, append_assoc, append-nil, inl, inr,
  Text, arith, length,
}
use packer_qemu_mcp_server.Pause.Found.{Pause}
use packer_qemu_mcp_server.Pause.Scanner.{
  Scanned, panicked, scanned, and_then, scan_all, scan, truncate, truncated, max_buffer,
}
use packer_qemu_mcp_server.Pause.Streams.Chunks.{go_on, go_on-scanned, prepend_all, scan_all-append}

abbrev pub then_feed : Scanned → (Text → Scanned) → Scanned
then_feed panicked further = panicked
then_feed (scanned ps tail) further = prepend_all ps (further tail)

-- The chunks that one scanner is given, one after the other.
unfoldable pub feed : Text → List Text → Scanned
feed tail [] = scanned [] tail
feed tail (c ∷ cs) = then_feed (scan tail c) (λ tail'. feed tail' cs)

abbrev pub joined : List Text → Text
joined [] = []
joined (c ∷ cs) = c ++ joined cs

abbrev pub FitsThen : Scanned → (Text → Type 0) → Type 0
FitsThen panicked further = Unit
FitsThen (scanned ps tail) further = (length tail ≤ max_buffer) × further tail

-- What each chunk leaves unmatched fits in the buffer.
abbrev pub Fits : Text → List Text → Type 0
Fits tail [] = Unit
Fits tail (c ∷ cs) = FitsThen (scan_all (tail ++ c)) (λ tail'. Fits tail' cs)

truncate_fits : (s : Text) → length s ≤ max_buffer → truncate s ≡ s
unfolding truncate
truncate_fits s h = ground arith

truncated-and_then : (p : Pause) (r : Scanned) → truncated (and_then p r) ≡ and_then p (truncated r)
unfolding truncate
truncated-and_then p panicked = refl
truncated-and_then p (scanned ps tail) = refl

truncated-prepend_all :
    (ps : List Pause) (r : Scanned) → truncated (prepend_all ps r) ≡ prepend_all ps (truncated r)
truncated-prepend_all [] r = refl
truncated-prepend_all (p ∷ ps) r =
    truncated-and_then p (prepend_all ps r) ∙ ap (and_then p) (truncated-prepend_all ps r)

pub Scanned-cases :
    (r : Scanned) → (r ≡ panicked) ⊎ ((ps : List Pause) × (tail : Text) × (r ≡ scanned ps tail))
Scanned-cases panicked = inl refl
Scanned-cases (scanned ps tail) = inr (ps, tail, refl)

scan_fits :
    (tail c : Text) {ps : List Pause} {tail' : Text}
    → scan_all (tail ++ c) ≡ scanned ps tail'
    → length tail' ≤ max_buffer
    → scan tail c ≡ scanned ps tail'
unfolding scan truncate
scan_fits tail c {ps} {tail'} e h = ap truncated e ∙ ap (scanned ps) (truncate_fits tail' h)

scan_panicked : (tail c : Text) → scan_all (tail ++ c) ≡ panicked → scan tail c ≡ panicked
unfolding scan truncate
scan_panicked tail c e = ap truncated e

scan_split :
    (tail c : Text) (cs : List Text)
    → scan tail (joined (c ∷ cs)) ≡ truncated (go_on (scan_all (tail ++ c)) (joined cs) scan_all)
unfolding scan
scan_split tail c cs =
    rw (← append_assoc tail c (joined cs), scan_all-append (tail ++ c) (joined cs)) refl

split_scanned :
    (tail c : Text) (cs : List Text) {ps : List Pause} {tail' : Text}
    → scan_all (tail ++ c) ≡ scanned ps tail'
    → scan tail (joined (c ∷ cs)) ≡ prepend_all ps (scan tail' (joined cs))
unfolding scan truncate
split_scanned tail c cs {ps} {tail'} e =
    rw (scan_split tail c cs, e, go_on-scanned)
      (truncated-prepend_all ps (scan_all (tail' ++ joined cs)))

keep-nil : (ps : List Pause) (tail : Text) → prepend_all ps (scanned [] tail) ≡ scanned ps tail
keep-nil [] tail = refl
keep-nil (p ∷ ps) tail = ap (and_then p) (keep-nil ps tail)

abbrev later_of : List Text → Scanned → Scanned
unfolding truncate
later_of cs r = truncated (go_on r (joined cs) scan_all)

-- However the output is cut into chunks, a scanner finds in it what it would find in one piece,
-- and keeps the same tail, if what each chunk leaves unmatched fits in the buffer.
pub feed-joined :
    (tail c : Text) (cs : List Text)
    → Fits tail (c ∷ cs)
    → feed tail (c ∷ cs) ≡ scan tail (joined (c ∷ cs))
unfolding feed truncate
feed-joined tail c [] h = elim (Scanned-cases (scan_all (tail ++ c))) [
  | inl e ↦ rw (append-nil, scan_panicked tail c e) refl
  | inr (ps, tail', e) ↦
      let (fits, _) = subst (λ r. FitsThen r (λ t. Fits t [])) e h in
      rw (append-nil, scan_fits tail c e fits) (keep-nil ps tail')
]
feed-joined tail c (d ∷ ds) h = elim (Scanned-cases (scan_all (tail ++ c))) [
  | inl e ↦
      rw (scan_panicked tail c e) (sym (scan_split tail c (d ∷ ds) ∙ ap (later_of (d ∷ ds)) e))
  | inr (ps, tail', e) ↦
      let (fits, more) = subst (λ r. FitsThen r (λ t. Fits t (d ∷ ds))) e h in
      rw (scan_fits tail c e fits)
        (ap (prepend_all ps) (feed-joined tail' d ds more) ∙ sym (split_scanned tail c (d ∷ ds) e))
]
