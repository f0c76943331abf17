-- ===== src/McpServer/Lines.antt =====
-- internal/mcpserver/mcpserver.go: the lines of what a listing says.
use packer_qemu_mcp_server.Prelude.{
  ℕ, ◌≡◌, refl, ltb, inl, inr, Bool-cases, ◌&&◌, not, List, [], ◌∷◌, ◌++◌, map, Text, codes,
  is_empty, All, All-append, join, split, show_nat, quote, IsLine, literal-IsLine, if-IsLine, ◌==◌,
  IsLine-append, show_nat-IsLine, show_int, show_int-IsLine, quote-IsLine, newline, split-join,
}
use packer_qemu_mcp_server.Builds.Reports.{Summary, Listing}
use packer_qemu_mcp_server.McpServer.Descriptions.{
  plural, condition, summary_line, builds_lines, omitted_line, omitted_lines, listing_lines,
  listing,
}

-- A summary whose names are of one line. The label that it runs forward to may be any text.
pub record IsPlain (s : Summary) : Type 0 where
  pub id_line : IsLine s.id
  pub elapsed_line : IsLine s.elapsed
  pub template_line : IsLine s.template

-- A condition is one line.
condition-IsLine : (s : Summary) → IsLine (condition s)
unfolding condition
condition-IsLine s =
    if-IsLine s.finished _ _
      (λ e.
        IsLine-append (codes "finished with exit status ") (show_int s.exit_code)
          (literal-IsLine (codes "finished with exit status ") refl) (show_int-IsLine s.exit_code))
      (λ e1.
        if-IsLine (not (is_empty s.awaiting)) _ _
          (λ e.
            IsLine-append (codes "running forward to ") (quote s.awaiting)
              (literal-IsLine (codes "running forward to ") refl) (quote-IsLine s.awaiting))
          (λ e2.
            if-IsLine (s.paused && s.frozen) _ _
              (λ e. literal-IsLine (codes "waiting at a pause, guest frozen") refl)
              (λ e3.
                if-IsLine s.paused _ _ (λ e. literal-IsLine (codes "waiting at a pause") refl)
                  (λ e. literal-IsLine (codes "running") refl))))

gap-IsLine : (s t : Text) → IsLine s → IsLine t → IsLine (s ++ (codes "  " ++ t))
gap-IsLine s t h k = IsLine-append s (codes "  " ++ t) h (refl, (refl, k))

summary_line-IsLine : (s : Summary) → IsPlain s → IsLine (summary_line s)
unfolding summary_line
summary_line-IsLine s h =
    gap-IsLine s.id (s.elapsed ++ (codes "  " ++ (condition s ++ (codes "  " ++ s.template))))
      h.id_line
      (gap-IsLine s.elapsed (condition s ++ (codes "  " ++ s.template)) h.elapsed_line
        (gap-IsLine (condition s) s.template (condition-IsLine s) h.template_line))

plural-IsLine : (n : ℕ) → IsLine (plural n (codes "build"))
unfolding plural
plural-IsLine n =
    if-IsLine (n == 1) _ _ (λ e. literal-IsLine (codes "build") refl)
      (λ e. literal-IsLine (codes "builds") refl)

summary_lines : (ss : List Summary) → All IsPlain ss → All IsLine (map summary_line ss)
summary_lines [] h = tt
summary_lines (s ∷ ss) (h, hs) = (summary_line-IsLine s h, summary_lines ss hs)

builds_lines-IsLine :
    (ss : List Summary) → All IsPlain ss → All IsLine (builds_lines (map summary_line ss))
unfolding builds_lines
builds_lines-IsLine [] h =
    (literal-IsLine (codes "No builds from the last day on this host.") refl, tt)
builds_lines-IsLine (s ∷ ss) (h, hs) = (summary_line-IsLine s h, summary_lines ss hs)

split_lines :
    (lines more : List Text)
    → All IsLine (builds_lines lines ++ more)
    → split (join (builds_lines lines ++ more) (newline ∷ [])) newline ≡ builds_lines lines ++ more
unfolding builds_lines
split_lines [] more h = split-join _ more h
split_lines (line ∷ lines) more h = split-join line (lines ++ more) h

omitted_line-IsLine : (n : ℕ) → IsLine (omitted_line n)
unfolding omitted_line
omitted_line-IsLine n = (
  refl,
  IsLine-append (show_nat n)
      (codes " older " ++ (plural n (codes "build") ++ codes " left out; pass all to see them.)"))
      (show_nat-IsLine n)
      (IsLine-append (codes " older ")
        (plural n (codes "build") ++ codes " left out; pass all to see them.)")
        (literal-IsLine (codes " older ") refl)
        (IsLine-append (plural n (codes "build")) (codes " left out; pass all to see them.)")
          (plural-IsLine n) (literal-IsLine (codes " left out; pass all to see them.)") refl))),
)

omitted_lines-IsLine : (n : ℕ) → All IsLine (omitted_lines n)
unfolding omitted_lines
omitted_lines-IsLine n = elim (Bool-cases (ltb 0 n)) [
  | inl e ↦ rw (e) (omitted_line-IsLine n, tt)
  | inr e ↦ rw (e) tt
]

-- The lines of the text of a listing, whose names are of one line: one line for each build, in
-- their order, or one that says that there are none, and then one for those that are left out, if
-- there are any. A label that a build runs forward to may hold line breaks.
pub split-listing :
    (found : Listing)
    → All IsPlain found.builds
    → split (listing found) newline
      ≡ builds_lines (map summary_line found.builds) ++ omitted_lines found.omitted
unfolding listing listing_lines
split-listing found h = split_lines (map summary_line found.builds) (omitted_lines found.omitted) (
    All-append IsLine (builds_lines (map summary_line found.builds)) (omitted_lines found.omitted)
      (builds_lines-IsLine found.builds h) (omitted_lines-IsLine found.omitted))
