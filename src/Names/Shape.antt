-- ===== src/Names/Shape.antt =====
-- Each pass of `bounded_name` over its characters (crates/common/src/lib.rs).
use Prim.Native.Char.{len_utf8, len_utf8_def}
use kube_frontend_forge_cont.Common.{
  ℕ, zero, suc, ◌+◌, ◌≤◌, ◌<◌, Char, code, Bool, true, false, ◌≡◌, ◌≢◌, refl, ◌⊎◌, List, [], ◌∷◌,
  map, arith, ◌∙◌, All, take, length, byte_len,
}
use kube_frontend_forge_cont.Decimal.{code-ascii}
use kube_frontend_forge_cont.Names.{
  sanitize_char, compact_from, trim_start, cons_unless_dash, trim_end,
}

-- A lower case letter, a digit or a dash.
abbrev pub IsNameChar : Char → Type 0
IsNameChar c =
    ((b'a' ≤ code c) × (code c ≤ b'z')) ⊎ ((b'0' ≤ code c) × (code c ≤ b'9')) ⊎ (code c ≡ b'-')

abbrev pub IsPlain : Char → Type 0
IsPlain c = code c ≢ b'-'

-- There is a first character, and it is no dash.
abbrev pub StartsPlain : List Char → Type 0
StartsPlain [] = ⊥
StartsPlain (c ∷ cs) = IsPlain c

-- The last character, if there is one, is no dash.
abbrev pub EndsPlain : List Char → Type 0
EndsPlain [] = Unit
EndsPlain (c ∷ []) = IsPlain c
EndsPlain (c ∷ d ∷ cs) = EndsPlain (d ∷ cs)

-- A list that starts with no dash, or is empty.
abbrev pub MayStart : List Char → Type 0
MayStart [] = Unit
MayStart (c ∷ cs) = IsPlain c

-- No two dashes stand side by side.
abbrev pub HasNoDashRun : List Char → Type 0
HasNoDashRun [] = Unit
HasNoDashRun (c ∷ cs) = (code c ≡ b'-' → MayStart cs) × HasNoDashRun cs

pub sanitize_char-IsNameChar : (c : Char) → IsNameChar (sanitize_char c)
unfolding sanitize_char
sanitize_char-IsNameChar c = ground (arith, code-ascii (code c + 32), code-ascii b'-')

pub sanitize-All : (cs : List Char) → All IsNameChar (map sanitize_char cs)
sanitize-All [] = tt
sanitize-All (c ∷ cs) = (sanitize_char-IsNameChar c, sanitize-All cs)

pub sanitize_id : (cs : List Char) → All IsNameChar cs → map sanitize_char cs ≡ cs
unfolding sanitize_char
sanitize_id [] h = refl
sanitize_id (c ∷ cs) (p, h) = ground (arith, sanitize_id cs h)

module _ {ℓ} (P : Char → Type ℓ) where
  pub compact_from-All : (b : Bool) (cs : List Char) → All P cs → All P (compact_from b cs)
  unfolding compact_from
  compact_from-All b [] h = tt
  compact_from-All true (c ∷ cs) (p, h) =
      ground (arith, compact_from-All true cs h, compact_from-All false cs h)
  compact_from-All false (c ∷ cs) (p, h) =
      ground (arith, compact_from-All true cs h, compact_from-All false cs h)

  pub trim_start-All : (cs : List Char) → All P cs → All P (trim_start cs)
  unfolding trim_start
  trim_start-All [] h = tt
  trim_start-All (c ∷ cs) (p, h) = ground (arith, trim_start-All cs h)

  cons_unless_dash-All :
      (c : Char) (cs : List Char) → P c → All P cs → All P (cons_unless_dash c cs)
  unfolding cons_unless_dash
  cons_unless_dash-All c [] p h = ground arith
  cons_unless_dash-All c (d ∷ ds) p h = (p, h)

  pub trim_end-All : (cs : List Char) → All P cs → All P (trim_end cs)
  unfolding trim_end
  trim_end-All [] h = tt
  trim_end-All (c ∷ cs) (p, h) = cons_unless_dash-All c (trim_end cs) p (trim_end-All cs h)

compact_from-MayStart : (cs : List Char) → MayStart (compact_from true cs)
unfolding compact_from
compact_from-MayStart [] = tt
compact_from-MayStart (c ∷ cs) = ground (arith, compact_from-MayStart cs)

pub compact_from-HasNoDashRun : (b : Bool) (cs : List Char) → HasNoDashRun (compact_from b cs)
unfolding compact_from
compact_from-HasNoDashRun b [] = tt
compact_from-HasNoDashRun true (c ∷ cs) = ground (
  arith,
  compact_from-HasNoDashRun true cs,
  compact_from-HasNoDashRun false cs,
  compact_from-MayStart cs,
)
compact_from-HasNoDashRun false (c ∷ cs) = ground (
  arith,
  compact_from-HasNoDashRun true cs,
  compact_from-HasNoDashRun false cs,
  compact_from-MayStart cs,
)

-- A list with no run of dashes is left as it is.
compact_from_id_true :
    (cs : List Char) → HasNoDashRun cs → MayStart cs → compact_from true cs ≡ compact_from false cs
unfolding compact_from
compact_from_id_true [] h m = refl
compact_from_id_true (c ∷ cs) h m = ground arith

pub compact_from_id : (cs : List Char) → HasNoDashRun cs → compact_from false cs ≡ cs
unfolding compact_from
compact_from_id [] h = refl
compact_from_id (c ∷ cs) (r, h) = ground (arith, compact_from_id cs h, compact_from_id_true cs h)

pub trim_start-MayStart : (cs : List Char) → MayStart (trim_start cs)
unfolding trim_start
trim_start-MayStart [] = tt
trim_start-MayStart (c ∷ cs) = ground (arith, trim_start-MayStart cs)

pub trim_start-HasNoDashRun : (cs : List Char) → HasNoDashRun cs → HasNoDashRun (trim_start cs)
unfolding trim_start
trim_start-HasNoDashRun [] h = tt
trim_start-HasNoDashRun (c ∷ cs) (r, h) = ground (arith, trim_start-HasNoDashRun cs h)

pub trim_start_id : (cs : List Char) → MayStart cs → trim_start cs ≡ cs
unfolding trim_start
trim_start_id [] h = refl
trim_start_id (c ∷ cs) h = ground arith

cons_unless_dash-EndsPlain :
    (c : Char) (cs : List Char) → EndsPlain cs → EndsPlain (cons_unless_dash c cs)
unfolding cons_unless_dash
cons_unless_dash-EndsPlain c [] h = ground arith
cons_unless_dash-EndsPlain c (d ∷ ds) h = h

pub trim_end-EndsPlain : (cs : List Char) → EndsPlain (trim_end cs)
unfolding trim_end
trim_end-EndsPlain [] = tt
trim_end-EndsPlain (c ∷ cs) = cons_unless_dash-EndsPlain c (trim_end cs) (trim_end-EndsPlain cs)

cons_unless_dash-MayStart :
    (c : Char) (cs : List Char) → IsPlain c → MayStart (cons_unless_dash c cs)
unfolding cons_unless_dash
cons_unless_dash-MayStart c [] p = ground arith
cons_unless_dash-MayStart c (d ∷ ds) p = p

pub trim_end-MayStart : (cs : List Char) → MayStart cs → MayStart (trim_end cs)
unfolding trim_end
trim_end-MayStart [] h = tt
trim_end-MayStart (c ∷ cs) h = cons_unless_dash-MayStart c (trim_end cs) h

-- What starts with no dash is not trimmed away.
pub trim_end-StartsPlain : (cs : List Char) → StartsPlain cs → StartsPlain (trim_end cs)
unfolding trim_end cons_unless_dash
trim_end-StartsPlain (c ∷ cs) h = ground arith
trim_end-StartsPlain [] h = h

cons_unless_dash-HasNoDashRun :
    (c : Char) (cs : List Char)
    → (code c ≡ b'-' → MayStart cs)
    → HasNoDashRun cs
    → HasNoDashRun (cons_unless_dash c cs)
unfolding cons_unless_dash
cons_unless_dash-HasNoDashRun c [] r h = ground arith
cons_unless_dash-HasNoDashRun c (d ∷ ds) r h = (r, h)

pub trim_end-HasNoDashRun : (cs : List Char) → HasNoDashRun cs → HasNoDashRun (trim_end cs)
unfolding trim_end
trim_end-HasNoDashRun [] h = tt
trim_end-HasNoDashRun (c ∷ cs) (r, h) =
    cons_unless_dash-HasNoDashRun c (trim_end cs) (λ e. trim_end-MayStart cs (r e))
      (trim_end-HasNoDashRun cs h)

pub trim_end_id : (cs : List Char) → EndsPlain cs → trim_end cs ≡ cs
unfolding trim_end cons_unless_dash
trim_end_id [] h = refl
trim_end_id (c ∷ []) h = ground arith
trim_end_id (c ∷ d ∷ cs) h = rw (trim_end_id (d ∷ cs) h) refl

pub take-HasNoDashRun : (n : ℕ) (cs : List Char) → HasNoDashRun cs → HasNoDashRun (take n cs)
take-HasNoDashRun zero cs h = tt
take-HasNoDashRun (suc n) [] h = tt
take-HasNoDashRun (suc zero) (c ∷ cs) (r, h) = (λ e. tt, tt)
take-HasNoDashRun (suc (suc n)) (c ∷ []) (r, h) = (λ e. tt, tt)
take-HasNoDashRun (suc (suc n)) (c ∷ d ∷ cs) (r, h) = (r, take-HasNoDashRun (suc n) (d ∷ cs) h)

one_byte : (c : Char) → code c < 128 → len_utf8 c ≡ 1
one_byte c h = len_utf8_def c ∙ ground arith

-- ASCII characters are one byte each.
pub byte_len-eq-length : (cs : List Char) → All IsNameChar cs → byte_len cs ≡ length cs
unfolding byte_len
byte_len-eq-length [] h = refl
byte_len-eq-length (c ∷ cs) (p, h) = ground (arith, one_byte c, byte_len-eq-length cs h)

pub length-trim_start-le : (cs : List Char) → length (trim_start cs) ≤ length cs
unfolding trim_start
length-trim_start-le [] = omega arith
length-trim_start-le (c ∷ cs) = ground (arith, length-trim_start-le cs)

length-cons_unless_dash-le :
    (c : Char) (cs : List Char) → length (cons_unless_dash c cs) ≤ suc (length cs)
unfolding cons_unless_dash
length-cons_unless_dash-le c [] = ground arith
length-cons_unless_dash-le c (d ∷ ds) = omega arith

pub length-trim_end-le : (cs : List Char) → length (trim_end cs) ≤ length cs
unfolding trim_end
length-trim_end-le [] = omega arith
length-trim_end-le (c ∷ cs) =
    omega (arith, length-cons_unless_dash-le c (trim_end cs), length-trim_end-le cs)
