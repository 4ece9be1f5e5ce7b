-- ===== src/Decimal.antt =====
-- Decimal numbers as the Rust standard library prints and reads them: `{n}` in a format string,
-- `parse::<u32>()` and `parse::<i64>()`. A text is the list of its characters.
pub mod Digits
pub mod RoundTrip
use native.Mathlib.Decide.{dec_lt}
use mathlib.Core.Logic.{dite}
use Prim.Native.Char.{IsScalar, char, nul}
use text.Mathlib.TextBridge.{to_list, of_list}
use kube_frontend_forge_cont.Common.{
  ℕ, zero, suc, ◌+◌, ◌-◌, ◌*◌, ◌/◌, ◌%◌, ◌^◌, ◌≤◌, ◌<◌, Char, code, String, ◌≡◌, ◌||◌, Option, none,
  some, List, [], ◌∷◌, ◌++◌, arith, ltb, eqb, if◌then◌else◌,
}
use kube_frontend_forge_cont.Api.Fields.{ℤ, pos, negsuc}

pub IsScalar-of_lt : (n : ℕ) → n < 128 → IsScalar n
IsScalar-of_lt n h = ground arith

-- The ASCII character with a given code.
pub ascii : ℕ → Char
unfolding dec_lt
ascii n = dite (dec_lt n 128) (λ h. char n (IsScalar-of_lt n h)) (λ _. nul)

pub code-ascii : (n : ℕ) → n < 128 → code (ascii n) ≡ n
unfolding ascii
code-ascii n h = ground arith

-- One digit in each round, the last one first; the fuel is above the number.
digits : ℕ → ℕ → List Char → List Char
digits zero n out = out
digits (suc fuel) n out =
    let more = digits fuel (n / 10) (ascii (b'0' + n % 10) ∷ out) in
    if ltb n 10 then ascii (b'0' + n) ∷ out else more

-- `n.to_string()` of an unsigned number.
unfoldable pub decimal : ℕ → List Char
unfolding digits ascii
decimal n = digits (suc n) n []

-- `z.to_string()` of a signed number.
unfoldable pub decimal_signed : ℤ → List Char
unfolding decimal
decimal_signed (pos n) = decimal n
decimal_signed (negsuc n) = ascii b'-' ∷ decimal (suc n)

-- The loop of `from_str_radix`: a character that is no digit, and a value above `most`, is an error.
pub scan : ℕ → ℕ → List Char → Option ℕ
scan most n [] = some n
scan most n (c ∷ s) =
    if ltb (code c) b'0' || ltb b'9' (code c)
    then none
    else if ltb most (n * 10 + (code c - b'0'))
    then none
    else scan most (n * 10 + (code c - b'0')) s

-- No digits at all is an error.
scan_some : ℕ → List Char → Option ℕ
unfolding scan
scan_some most [] = none
scan_some most (c ∷ s) = scan most 0 (c ∷ s)

abbrev pub max_u32 : ℕ
max_u32 = 2 ^ 32 - 1

abbrev pub max_i64 : ℕ
max_i64 = 2 ^ 63 - 1

-- `parse::<u32>()`: a plus sign may stand in front.
unfoldable pub parse_u32 : List Char → Option ℕ
unfolding scan_some
parse_u32 [] = none
parse_u32 (c ∷ s) = if eqb (code c) b'+' then scan_some max_u32 s else scan_some max_u32 (c ∷ s)

abbrev pub max_u64 : ℕ
max_u64 = 2 ^ 64 - 1

-- `parse::<u64>()`, in the same way.
unfoldable pub parse_u64 : List Char → Option ℕ
unfolding scan_some
parse_u64 [] = none
parse_u64 (c ∷ s) = if eqb (code c) b'+' then scan_some max_u64 s else scan_some max_u64 (c ∷ s)

abbrev negate : ℕ → ℤ
negate zero = pos zero
negate (suc n) = negsuc n

abbrev signed : (ℕ → ℤ) → Option ℕ → Option ℤ
signed f none = none
signed f (some n) = some (f n)

-- `parse::<i64>()`: a sign may stand in front.
unfoldable pub parse_i64 : List Char → Option ℤ
unfolding scan_some
parse_i64 [] = none
parse_i64 (c ∷ s) =
    if eqb (code c) b'+'
    then signed pos (scan_some max_i64 s)
    else if eqb (code c) b'-'
    then signed negate (scan_some (2 ^ 63) s)
    else signed pos (scan_some max_i64 (c ∷ s))
