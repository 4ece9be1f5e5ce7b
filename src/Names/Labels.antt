-- ===== src/Names/Labels.antt =====
-- `bounded_name` as a whole, and the names made with it (crates/common/src/lib.rs).
use kube_frontend_forge_cont.Common.{
  ℕ, zero, suc, ◌≤◌, ◌<◌, Char, String, len, false, ◌≡◌, refl, ap, inl, inr, List, [], ◌∷◌, map,
  arith, All, All-take, take, length, length-take-le, byte_len, chars, collect, chars-collect,
  len-collect, leb, Bool-cases,
}
use kube_frontend_forge_cont.Names.{
  cons_unless_dash, compact_from, trim_start, trim_end, or_fi, or_taken, sanitize_char, compacted,
  bounded, bounded_name,
}
use kube_frontend_forge_cont.Names.Shape.{
  IsNameChar, StartsPlain, EndsPlain, MayStart, HasNoDashRun, sanitize-All, sanitize_id,
  compact_from-All, compact_from-HasNoDashRun, compact_from_id, trim_start-All, trim_start-MayStart,
  trim_start-HasNoDashRun, trim_start_id, trim_end-All, trim_end-EndsPlain, trim_end-MayStart,
  trim_end-StartsPlain, trim_end-HasNoDashRun, trim_end_id, take-HasNoDashRun, byte_len-eq-length,
}

-- A DNS label, as RFC 1123 has it, without its bound, and with no two dashes in a row: lower case
-- letters, digits and dashes, at least one, with no dash at either end.
pub record IsLabel (cs : List Char) : Type 0 where
  pub chars_ok : All IsNameChar cs
  pub starts : StartsPlain cs
  pub ends : EndsPlain cs
  pub no_run : HasNoDashRun cs

-- The passes before the default for an empty name.
abbrev passes : List Char → List Char
passes raw = trim_end (trim_start (compact_from false (map sanitize_char raw)))

or_fi-IsLabel :
    (cs : List Char)
    → All IsNameChar cs
    → MayStart cs
    → EndsPlain cs
    → HasNoDashRun cs
    → IsLabel (or_fi cs)
or_fi-IsLabel [] a m e r = record {
  chars_ok = omega arith;
  starts = omega arith;
  ends = omega arith;
  no_run = (λ h. omega arith, (λ h. tt, tt));
}
or_fi-IsLabel (c ∷ cs) a m e r = record { chars_ok = a; starts = m; ends = e; no_run = r }

compacted-IsLabel : (raw : List Char) → IsLabel (compacted raw)
unfolding compacted
compacted-IsLabel raw =
    let clean = map sanitize_char raw in
    let once = compact_from false clean in
    or_fi-IsLabel (passes raw)
      (trim_end-All IsNameChar (trim_start once) (
        trim_start-All IsNameChar once
          (compact_from-All IsNameChar false clean (sanitize-All raw))))
      (trim_end-MayStart (trim_start once) (trim_start-MayStart once))
      (trim_end-EndsPlain (trim_start once))
      (trim_end-HasNoDashRun (trim_start once)
        (trim_start-HasNoDashRun once (compact_from-HasNoDashRun false clean)))

take-StartsPlain : (n : ℕ) (cs : List Char) → 0 < n → StartsPlain cs → StartsPlain (take n cs)
take-StartsPlain zero cs h s = elim h [ ]
take-StartsPlain (suc n) [] h s = s
take-StartsPlain (suc n) (c ∷ cs) h s = s

or_taken_id : (cs taken : List Char) → StartsPlain cs → or_taken cs taken ≡ cs
or_taken_id [] taken h = absurd h
or_taken_id (c ∷ cs) taken h = refl

-- A truncated label is a label.
truncated-IsLabel :
    (n : ℕ) (cs : List Char)
    → 0 < n
    → IsLabel cs
    → IsLabel (or_taken (trim_end (take n cs)) (take n cs))
truncated-IsLabel n cs h l =
    let starts = trim_end-StartsPlain (take n cs) (take-StartsPlain n cs h l.starts) in
    rw (or_taken_id (trim_end (take n cs)) (take n cs) starts) (record {
      chars_ok = trim_end-All IsNameChar (take n cs) (All-take IsNameChar n cs l.chars_ok);
      starts = starts;
      ends = trim_end-EndsPlain (take n cs);
      no_run = trim_end-HasNoDashRun (take n cs) (take-HasNoDashRun n cs l.no_run);
    })

pub bounded-IsLabel : (raw : List Char) (n : ℕ) → 0 < n → IsLabel (bounded raw n)
unfolding bounded
bounded-IsLabel raw n h = elim (Bool-cases (leb (byte_len (compacted raw)) n)) [
  | inl fits ↦ rw fits (compacted-IsLabel raw)
  | inr long ↦ rw long (truncated-IsLabel n (compacted raw) h (compacted-IsLabel raw))
]

length-cons_unless_dash-le :
    (c : Char) (cs : List Char) → length (cons_unless_dash c cs) ≤ suc (length cs)
unfolding cons_unless_dash
length-cons_unless_dash-le c [] = ground arith
length-cons_unless_dash-le c (d ∷ ds) = omega arith

length-trim_end-le : (cs : List Char) → length (trim_end cs) ≤ length cs
unfolding trim_end
length-trim_end-le [] = omega arith
length-trim_end-le (c ∷ cs) =
    omega (arith, length-cons_unless_dash-le c (trim_end cs), length-trim_end-le cs)

length-or_taken-le :
    (n : ℕ) (cs taken : List Char)
    → length cs ≤ n
    → length taken ≤ n
    → length (or_taken cs taken) ≤ n
length-or_taken-le n [] taken h k = k
length-or_taken-le n (c ∷ cs) taken h k = h

byte_len-bounded-le : (raw : List Char) (n : ℕ) → 0 < n → byte_len (bounded raw n) ≤ n
unfolding bounded
byte_len-bounded-le raw n h = elim (Bool-cases (leb (byte_len (compacted raw)) n)) [
  | inl fits ↦ rw fits (ground arith)
  | inr long ↦
      let cut = take n (compacted raw) in
      let label = truncated-IsLabel n (compacted raw) h (compacted-IsLabel raw) in
      rw (long, byte_len-eq-length (or_taken (trim_end cut) cut) label.chars_ok)
        (length-or_taken-le n (trim_end cut) cut
          (omega (arith, length-trim_end-le cut, length-take-le n (compacted raw)))
          (length-take-le n (compacted raw)))
]

-- Whatever the text, the name is a label of at most `max_len` bytes.
pub bounded_name-IsLabel :
    (raw : String) (max_len : ℕ)
    → 0 < max_len
    → IsLabel (chars (bounded_name raw max_len)) × (len (bounded_name raw max_len) ≤ max_len)
unfolding bounded_name
bounded_name-IsLabel raw n h = (
  rw chars-collect (bounded-IsLabel (chars raw) n h),
  rw len-collect (byte_len-bounded-le (chars raw) n h),
)

or_fi_id : (cs : List Char) → StartsPlain cs → or_fi cs ≡ cs
or_fi_id [] h = absurd h
or_fi_id (c ∷ cs) h = refl

StartsPlain-MayStart : (cs : List Char) → StartsPlain cs → MayStart cs
StartsPlain-MayStart [] h = tt
StartsPlain-MayStart (c ∷ cs) h = h

compacted_id : (cs : List Char) → IsLabel cs → compacted cs ≡ cs
unfolding compacted
compacted_id cs l =
    rw
      (
        sanitize_id cs l.chars_ok,
        compact_from_id cs l.no_run,
        trim_start_id cs (StartsPlain-MayStart cs l.starts),
        trim_end_id cs l.ends,
      )
      (or_fi_id cs l.starts)

bounded_id : (cs : List Char) (n : ℕ) → IsLabel cs → byte_len cs ≤ n → bounded cs n ≡ cs
unfolding bounded
bounded_id cs n l fits = rw (compacted_id cs l) (ground arith)

-- A name that has been made is left as it is when it is made again with the same bound.
pub bounded_name_idempotent :
    (raw : String) (max_len : ℕ)
    → 0 < max_len
    → bounded_name (bounded_name raw max_len) max_len ≡ bounded_name raw max_len
unfolding bounded_name
bounded_name_idempotent raw n h = rw chars-collect (
    ap collect (
      bounded_id (bounded (chars raw) n) n (bounded-IsLabel (chars raw) n h)
        (byte_len-bounded-le (chars raw) n h)))
