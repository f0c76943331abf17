-- ===== src/Pause/Streams/Chunks.antt =====
-- `Scan` over output that arrives in chunks.
use packer_qemu_mcp_server.Prelude.{
  ℕ, zero, suc, ◌≤◌, ◌≡◌, refl, ap, List, [], ◌∷◌, ◌++◌, Option, none, some, inl, inr, Text, arith,
  Option-cases, length,
}
use packer_qemu_mcp_server.Pause.Pattern.{Match, find_prompt}
use packer_qemu_mcp_server.Pause.Found.{Pause}
use packer_qemu_mcp_server.Pause.Scanner.{
  Scanned, panicked, scanned, and_then, read_match, report, scan_loop, scan_all,
}
use packer_qemu_mcp_server.Pause.Streams.Leftmost.{find_prompt-append, length-find_prompt}

-- One round of the loop, whatever the fuel.
abbrev pub rounds : Option Match → (Match → Scanned) → Text → Scanned
rounds none further s = scanned [] s
rounds (some m) further s = report (read_match m.taken m.name) (further m)

scan_loop_step :
    (fuel : ℕ) (s : Text)
    → scan_loop (suc fuel) s ≡ rounds (find_prompt s) (λ m. scan_loop fuel m.rest) s
unfolding scan_loop
scan_loop_step fuel s = elim (Option-cases (find_prompt s)) [
  | inl e ↦ rw (e, scan_loop)
  | inr (m, e) ↦ rw (e, scan_loop)
]

find_prompt-nil : find_prompt [] ≡ none
unfolding find_prompt
find_prompt-nil = refl

-- Fuel for every byte is enough: more of it changes nothing.
scan_loop_fuel : (f g : ℕ) (s : Text) → length s ≤ f → length s ≤ g → scan_loop f s ≡ scan_loop g s
scan_loop_fuel zero zero s hf hg = refl
scan_loop_fuel zero (suc g) [] hf hg =
    rw (scan_loop_step, find_prompt-nil) (unfold scan_loop in refl)
scan_loop_fuel zero (suc g) (c ∷ s) hf hg = absurd (omega arith)
scan_loop_fuel (suc f) zero [] hf hg =
    rw (scan_loop_step, find_prompt-nil) (unfold scan_loop in refl)
scan_loop_fuel (suc f) zero (c ∷ s) hf hg = absurd (omega arith)
scan_loop_fuel (suc f) (suc g) s hf hg =
    rw (scan_loop_step f, scan_loop_step g)
      (elim (Option-cases (find_prompt s)) [
        | inl e ↦ rw e
        | inr (m, e) ↦ rw (
          e,
          scan_loop_fuel f g m.rest (omega (arith, length-find_prompt s e))
              (omega (arith, length-find_prompt s e)),
        )
      ])

pub scan_all_step : (s : Text) → scan_all s ≡ rounds (find_prompt s) (λ m. scan_all m.rest) s
unfolding scan_all
scan_all_step [] = rw find_prompt-nil (unfold scan_loop in refl)
scan_all_step (c ∷ s) = rw (scan_loop_step (length s)) (elim (Option-cases (find_prompt (c ∷ s))) [
  | inl e ↦ rw e
  | inr (m, e) ↦ rw (
    e,
    scan_loop_fuel (length s) (length m.rest) m.rest (omega (arith, length-find_prompt (c ∷ s) e))
        (omega arith),
  )
])

-- A scan that goes on with more output.
abbrev pub go_on : Scanned → Text → (Text → Scanned) → Scanned
go_on panicked t further = panicked
go_on (scanned [] tail) t further = further (tail ++ t)
go_on (scanned (p ∷ ps) tail) t further = and_then p (go_on (scanned ps tail) t further)

go_on-report :
    (o : Option Pause) (r : Scanned) (t : Text) (further : Text → Scanned)
    → go_on (report o r) t further ≡ report o (go_on r t further)
go_on-report none r t further = refl
go_on-report (some p) panicked t further = refl
go_on-report (some p) (scanned ps tail) t further = refl

scan_loop-append :
    (f : ℕ) (s t : Text) → length s ≤ f → scan_all (s ++ t) ≡ go_on (scan_loop f s) t scan_all
scan_loop-append zero [] t h = unfold scan_loop in refl
scan_loop-append zero (c ∷ s) t h = absurd (omega arith)
scan_loop-append (suc f) s t h = rw (scan_loop_step f) (elim (Option-cases (find_prompt s)) [
  | inl e ↦ rw e
  | inr (m, e) ↦ rw (
    e,
    scan_all_step (s ++ t),
    find_prompt-append s t e,
    go_on-report,
    scan_loop-append f m.rest t (omega (arith, length-find_prompt s e)),
  )
])

-- Scanning a text and then more text finds what scanning them at once finds, whatever they hold.
pub scan_all-append : (s t : Text) → scan_all (s ++ t) ≡ go_on (scan_all s) t scan_all
unfolding scan_all
scan_all-append s t = scan_loop-append (length s) s t (omega arith)

abbrev pub prepend_all : List Pause → Scanned → Scanned
prepend_all [] r = r
prepend_all (p ∷ ps) r = and_then p (prepend_all ps r)

pub go_on-scanned :
    (ps : List Pause) (tail t : Text) (further : Text → Scanned)
    → go_on (scanned ps tail) t further ≡ prepend_all ps (further (tail ++ t))
go_on-scanned [] tail t further = refl
go_on-scanned (p ∷ ps) tail t further = ap (and_then p) (go_on-scanned ps tail t further)

abbrev pub tail_of : Scanned → Text
tail_of panicked = []
tail_of (scanned ps tail) = tail

report_inv :
    (o : Option Pause) (r : Scanned) {ps : List Pause} {tail : Text}
    → report o r ≡ scanned ps tail
    → (qs : List Pause) × (r ≡ scanned qs tail)
report_inv none r e = cc
report_inv (some p) panicked e = cc
report_inv (some p) (scanned qs tail') {ps} {tail} e = (qs, ap (scanned qs) (ap tail_of e))

-- No prompt is left in what a scan keeps.
scan_loop_quiet :
    (f : ℕ) (s : Text) {ps : List Pause} {tail : Text}
    → length s ≤ f
    → scan_loop f s ≡ scanned ps tail
    → find_prompt tail ≡ none
scan_loop_quiet zero [] {ps} {tail} h e =
    let same : scanned [] [] ≡ scanned ps tail = unfold scan_loop in e in
    rw (← ap tail_of same) find_prompt-nil
scan_loop_quiet zero (c ∷ s) h e = absurd (omega arith)
scan_loop_quiet (suc f) s {ps} {tail} h e = elim (Option-cases (find_prompt s)) [
  | inl e1 ↦
      let same : scanned [] s ≡ scanned ps tail = rw (scan_loop_step f s, e1) at e in
      rw (← ap tail_of same) e1
  | inr (m, e1) ↦
      let e2 : report (read_match m.taken m.name) (scan_loop f m.rest) ≡ scanned ps tail =
        rw (scan_loop_step f s, e1) at e in
      let (qs, e3) = report_inv (read_match m.taken m.name) (scan_loop f m.rest) e2 in
      scan_loop_quiet f m.rest {ps = qs} {tail = tail} (omega (arith, length-find_prompt s e1)) e3
]

pub scan_all_quiet :
    (s : Text) {ps : List Pause} {tail : Text}
    → scan_all s ≡ scanned ps tail
    → find_prompt tail ≡ none
unfolding scan_all
scan_all_quiet s e = scan_loop_quiet (length s) s (omega arith) e
