-- ===== src/Decimal/Digits.antt =====
-- What the printed digits are.
use native.Mathlib.Nat.{pow-suc}
use kube_frontend_forge_cont.Common.{
  ℕ, zero, suc, ◌+◌, ◌/◌, ◌%◌, ◌^◌, ◌≤◌, ◌<◌, Char, code, ◌≡◌, ◌≢◌, some, List, [], ◌∷◌, arith, All,
  length,
}
use kube_frontend_forge_cont.Decimal.{ascii, code-ascii, digits, decimal, scan}

abbrev pub IsDigit : Char → Type 0
IsDigit c = (b'0' ≤ code c) × (code c ≤ b'9')

ascii-IsDigit : (d : ℕ) → d < 10 → IsDigit (ascii (b'0' + d))
ascii-IsDigit d h = omega (arith, code-ascii (b'0' + d))

digits-IsDigit : (fuel n : ℕ) (out : List Char) → All IsDigit out → All IsDigit (digits fuel n out)
unfolding digits
digits-IsDigit zero n out h = h
digits-IsDigit (suc fuel) n out h = ground (
  arith,
  digits-IsDigit fuel (n / 10) (ascii (b'0' + n % 10) ∷ out),
  ascii-IsDigit (n % 10),
  ascii-IsDigit n,
)

pub decimal-IsDigit : (n : ℕ) → All IsDigit (decimal n)
unfolding decimal
decimal-IsDigit n = digits-IsDigit (suc n) n [] tt

digits-ne-nil : (fuel n : ℕ) (out : List Char) → out ≢ [] → digits fuel n out ≢ []
unfolding digits
digits-ne-nil zero n out h = h
digits-ne-nil (suc fuel) n out h =
    ground (arith, digits-ne-nil fuel (n / 10) (ascii (b'0' + n % 10) ∷ out))

-- A printed number has at least one digit.
pub decimal-cons : (n : ℕ) → decimal n ≢ []
unfolding decimal digits
decimal-cons n = ground (arith, digits-ne-nil n (n / 10) (ascii (b'0' + n % 10) ∷ []))

-- Reading what is printed gives the number that the fuel is enough for.
scan-digits :
    (most fuel n : ℕ) (out : List Char)
    → n < fuel
    → n ≤ most
    → scan most 0 (digits fuel n out) ≡ scan most n out
unfolding digits scan
scan-digits most zero n out h fits = elim h [ ]
scan-digits most (suc fuel) n out h fits = ground (
  arith,
  scan-digits most fuel (n / 10) (ascii (b'0' + n % 10) ∷ out),
  code-ascii (b'0' + n % 10),
  code-ascii (b'0' + n),
)

pub scan-decimal : (most n : ℕ) → n ≤ most → scan most 0 (decimal n) ≡ some n
unfolding decimal scan
scan-decimal most n fits = scan-digits most (suc n) n [] (omega arith) fits

-- Below 10 ^ k there are at most k digits.
digits-length :
    (k fuel n : ℕ) (out : List Char)
    → n < 10 ^ suc k
    → length (digits fuel n out) ≤ length out + suc k
unfolding digits
digits-length k zero n out h = omega arith
digits-length zero (suc fuel) n out h = ground arith
digits-length (suc k) (suc fuel) n out h =
    let small : n / 10 < 10 ^ suc k = omega (arith, pow-suc 10 (suc k)) in
    ground (arith, digits-length k fuel (n / 10) (ascii (b'0' + n % 10) ∷ out))

pub length-decimal : (k n : ℕ) → n < 10 ^ suc k → length (decimal n) ≤ suc k
unfolding decimal
length-decimal k n h = omega (arith, digits-length k (suc n) n [] h)
