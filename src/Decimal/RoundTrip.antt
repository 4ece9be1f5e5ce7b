-- ===== src/Decimal/RoundTrip.antt =====
-- Numbers are read back from their prints.
use kube_frontend_forge_cont.Common.{
  ℕ, suc, ◌≤◌, ◌^◌, Char, ◌≡◌, ◌≢◌, refl, some, List, [], ◌∷◌, arith, All,
}
use kube_frontend_forge_cont.Api.Fields.{ℤ, pos, negsuc}
use kube_frontend_forge_cont.Decimal.{
  ascii, code-ascii, decimal, decimal_signed, scan, scan_some, max_u32, max_i64, parse_u32,
  parse_i64, signed, negate,
}
use kube_frontend_forge_cont.Decimal.Digits.{IsDigit, decimal-IsDigit, decimal-cons, scan-decimal}

scan_some_of_cons : (most : ℕ) (s : List Char) → s ≢ [] → scan_some most s ≡ scan most 0 s
unfolding scan_some
scan_some_of_cons most [] h = absurd (h refl)
scan_some_of_cons most (c ∷ s) h = refl

scan_some-decimal : (most n : ℕ) → n ≤ most → scan_some most (decimal n) ≡ some n
scan_some-decimal most n h =
    rw (scan_some_of_cons most (decimal n) (decimal-cons n)) (scan-decimal most n h)

-- Digits carry no sign.
parse_u32_of_digits : (s : List Char) → All IsDigit s → s ≢ [] → parse_u32 s ≡ scan_some max_u32 s
unfolding parse_u32
parse_u32_of_digits [] h k = absurd (k refl)
parse_u32_of_digits (c ∷ s) h k = ground arith

parse_i64_of_digits :
    (s : List Char) → All IsDigit s → s ≢ [] → parse_i64 s ≡ signed pos (scan_some max_i64 s)
unfolding parse_i64
parse_i64_of_digits [] h k = absurd (k refl)
parse_i64_of_digits (c ∷ s) h k = ground arith

pub parse_u32-decimal : (n : ℕ) → n ≤ max_u32 → parse_u32 (decimal n) ≡ some n
parse_u32-decimal n h =
    rw (parse_u32_of_digits (decimal n) (decimal-IsDigit n) (decimal-cons n))
      (scan_some-decimal max_u32 n h)

-- The values of an `i64`.
abbrev pub InRange : ℤ → Type 0
InRange (pos n) = n ≤ max_i64
InRange (negsuc n) = n ≤ max_i64

parse_i64-minus :
    (s : List Char) → parse_i64 (ascii b'-' ∷ s) ≡ signed negate (scan_some (2 ^ 63) s)
unfolding parse_i64
parse_i64-minus s = ground (arith, code-ascii b'-')

-- Every `i64` is read back from its print.
pub parse_i64-decimal_signed : (z : ℤ) → InRange z → parse_i64 (decimal_signed z) ≡ some z
unfolding decimal_signed
parse_i64-decimal_signed (pos n) h =
    rw (parse_i64_of_digits (decimal n) (decimal-IsDigit n) (decimal-cons n))
      (rw (scan_some-decimal max_i64 n h) refl)
parse_i64-decimal_signed (negsuc n) h =
    rw (parse_i64-minus (decimal (suc n)))
      (rw (scan_some-decimal (2 ^ 63) (suc n) (omega arith)) refl)
