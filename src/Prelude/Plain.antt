-- ===== src/Prelude/Plain.antt =====
-- Texts of one line: what is written of a number and of a quoted text, and the lines of a text.
use Prim.Native.Nat.{ℕ, zero, suc, ◌+◌, ◌/◌, ◌%◌}
use mathlib.Core.Path.{◌≡◌, refl, ap, ◌∙◌}
use mathlib.Core.Bool.{Bool, true, false, not, ◌&&◌, ◌||◌}
use mathlib.Core.List.{List, [], ◌∷◌, ◌++◌, append-nil}
use native.Mathlib.Omega.{arith}
use packer_qemu_mcp_server.Prelude.Tests.{leb, ltb, ◌==◌, if◌then◌else◌}
use packer_qemu_mcp_server.Prelude.Lists.{All, All-append}
use packer_qemu_mcp_server.Prelude.Ints.{ℤ, pos, negsuc}
use packer_qemu_mcp_server.Prelude.Texts.{
  Text, digits, show_nat, show_int, hex_digit, quote_byte, quote_bytes, quote, join, join_rest,
  cons_first, split,
}

abbrev pub newline : ℕ
newline = 10

-- A text of one line.
abbrev pub IsLine : Text → Type 0
IsLine t = All (λ c. (c == newline) ≡ false) t

-- The test of a literal.
abbrev pub is_line : Text → Bool
is_line [] = true
is_line (c ∷ t) = not (c == newline) && is_line t

pub literal-IsLine : (t : Text) → is_line t ≡ true → IsLine t
literal-IsLine [] e = tt
literal-IsLine (c ∷ t) e = (ground (arith, e), literal-IsLine t (ground (arith, e)))

pub IsLine-append : (s t : Text) → IsLine s → IsLine t → IsLine (s ++ t)
IsLine-append s t = All-append (λ c. (c == newline) ≡ false) s t

pub if-IsLine :
    (b : Bool) (s t : Text)
    → (b ≡ true → IsLine s)
    → (b ≡ false → IsLine t)
    → IsLine (if b then s else t)
if-IsLine true s t h k = h refl
if-IsLine false s t h k = k refl

no_newline : (d : ℕ) → (48 + d == newline) ≡ false
no_newline d = ground arith

digits-IsLine : (fuel n : ℕ) (out : Text) → IsLine out → IsLine (digits fuel n out)
unfolding digits
digits-IsLine zero n out h = h
digits-IsLine (suc fuel) n out h =
    if-IsLine (ltb n 10) ((48 + n) ∷ out) (digits fuel (n / 10) ((48 + n % 10) ∷ out))
      (λ e. (no_newline n, h))
      (λ e. digits-IsLine fuel (n / 10) ((48 + n % 10) ∷ out) (no_newline (n % 10), h))

pub show_nat-IsLine : (n : ℕ) → IsLine (show_nat n)
unfolding show_nat
show_nat-IsLine n = digits-IsLine (suc n) n [] tt

pub show_int-IsLine : (n : ℤ) → IsLine (show_int n)
unfolding show_int
show_int-IsLine (pos n) = show_nat-IsLine n
show_int-IsLine (negsuc n) = (refl, show_nat-IsLine (suc n))

hex_digit-IsLine : (d : ℕ) → (hex_digit d == newline) ≡ false
unfolding hex_digit
hex_digit-IsLine d = ground arith

quote_byte-IsLine : (c : ℕ) → IsLine (quote_byte c)
unfolding quote_byte
quote_byte-IsLine c =
    if-IsLine (c == 34 || c == 92) _ _ (λ e. (refl, (ground (arith, e), tt)))
      (λ e1.
        if-IsLine (leb 32 c && leb c 126) _ _ (λ e. (ground (arith, e), tt))
          (λ e2.
            if-IsLine (c == 7) _ _ (λ e. (refl, (refl, tt)))
              (λ e3.
                if-IsLine (c == 8) _ _ (λ e. (refl, (refl, tt)))
                  (λ e4.
                    if-IsLine (c == 9) _ _ (λ e. (refl, (refl, tt)))
                      (λ e5.
                        if-IsLine (c == 10) _ _ (λ e. (refl, (refl, tt)))
                          (λ e6.
                            if-IsLine (c == 11) _ _ (λ e. (refl, (refl, tt)))
                              (λ e7.
                                if-IsLine (c == 12) _ _ (λ e. (refl, (refl, tt)))
                                  (λ e8.
                                    if-IsLine (c == 13) _ _ (λ e. (refl, (refl, tt)))
                                      (λ e9. (
                                        refl,
                                        (
                                          refl,
                                          (
                                            hex_digit-IsLine (c / 16),
                                            (hex_digit-IsLine (c % 16), tt),
                                          ),
                                        ),
                                      ))))))))))

quote_bytes-IsLine : (t : Text) → IsLine (quote_bytes t)
unfolding quote_bytes
quote_bytes-IsLine [] = (refl, tt)
quote_bytes-IsLine (c ∷ t) =
    IsLine-append (quote_byte c) (quote_bytes t) (quote_byte-IsLine c) (quote_bytes-IsLine t)

-- A quoted text is one line, whatever the text is.
pub quote-IsLine : (t : Text) → IsLine (quote t)
unfolding quote
quote-IsLine t = (refl, quote_bytes-IsLine t)

split-IsLine : (t : Text) → IsLine t → split t newline ≡ t ∷ []
unfolding split cons_first
split-IsLine [] h = refl
split-IsLine (c ∷ t) (h, hs) = rw (h, split-IsLine t hs) refl

split-newline :
    (t rest : Text) → IsLine t → split (t ++ (newline ∷ rest)) newline ≡ t ∷ split rest newline
unfolding split cons_first
split-newline [] rest h = refl
split-newline (c ∷ t) rest (h, hs) = rw (h, split-newline t rest hs) refl

-- Lines that are joined come apart again.
pub split-join :
    (t : Text) (ts : List Text)
    → All IsLine (t ∷ ts)
    → split (join (t ∷ ts) (newline ∷ [])) newline ≡ t ∷ ts
unfolding join join_rest
split-join t [] (h, hs) = rw (append-nil t) (split-IsLine t h)
split-join t (u ∷ ts) (h, hs) =
    split-newline t (join (u ∷ ts) (newline ∷ [])) h ∙ ap (λ x. t ∷ x) (split-join u ts hs)
