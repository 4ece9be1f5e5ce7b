-- ===== src/Names/Bounds.antt =====
-- Names with a suffix that is kept whole, and label values (crates/common/src/lib.rs).
use Prim.Native.Char.{len_utf8, len_utf8_def}
use kube_frontend_forge_cont.Common.{
  ℕ, ◌-◌, ◌*◌, ◌≤◌, ◌<◌, Char, String, len, ◌≡◌, ◌≢◌, refl, ◌∙◌, inl, inr, List, [], ◌∷◌, arith,
  All, take, length, length-take-le, byte_len, chars, collect, chars-collect, len-collect, len-&,
  ◌&◌, leb, Bool-cases, is_empty,
}
use kube_frontend_forge_cont.Decimal.{decimal, max_u32}
use kube_frontend_forge_cont.Decimal.Digits.{IsDigit, decimal-IsDigit, length-decimal}
use kube_frontend_forge_cont.Names.{
  bounded_name, bounded_name_preserving_suffix, trimmed, hash_label_value, hash_name_suffix,
  package_suffix, package_job_name, artifact_configmap_name,
}
use kube_frontend_forge_cont.Names.Labels.{bounded_name-IsLabel}

len_utf8-le : (c : Char) → len_utf8 c ≤ 4
len_utf8-le c = rw (len_utf8_def c) (ground arith)

byte_len-le : (cs : List Char) → byte_len cs ≤ 4 * length cs
unfolding byte_len
byte_len-le [] = omega arith
byte_len-le (c ∷ cs) = omega (arith, len_utf8-le c, byte_len-le cs)

digit_bytes : (cs : List Char) → All IsDigit cs → byte_len cs ≡ length cs
unfolding byte_len
digit_bytes [] h = refl
digit_bytes (c ∷ cs) ((p, q), h) =
    let one : len_utf8 c ≡ 1 = len_utf8_def c ∙ ground arith in omega (arith, one, digit_bytes cs h)

len-decimal-le : (n : ℕ) → n ≤ max_u32 → len (collect (decimal n)) ≤ 10
len-decimal-le n h =
    rw (len-collect, digit_bytes (decimal n) (decimal-IsDigit n)) (length-decimal 9 n (omega arith))

len-hash_name_suffix-le : (hash : String) → len (hash_name_suffix hash) ≤ 48
unfolding hash_name_suffix
len-hash_name_suffix-le hash = elim (Bool-cases (is_empty (trimmed hash))) [
  | inl gone ↦ rw gone (omega arith)
  | inr there ↦
      rw (there, len-collect)
        (omega (arith, byte_len-le (take 12 (trimmed hash)), length-take-le 12 (trimmed hash)))
]

-- The suffix is kept whole behind a shortened prefix.
suffix_kept :
    (raw suffix : String) (n : ℕ)
    → len suffix < n
    → bounded_name_preserving_suffix raw suffix n ≡ bounded_name raw (n - len suffix) & suffix
unfolding bounded_name_preserving_suffix
suffix_kept raw suffix n h = ground arith

-- Whatever the suffix, the name has at most `max_len` bytes.
pub len-bounded_name_preserving_suffix :
    (raw suffix : String) (max_len : ℕ)
    → 0 < max_len
    → len (bounded_name_preserving_suffix raw suffix max_len) ≤ max_len
unfolding bounded_name_preserving_suffix
len-bounded_name_preserving_suffix raw suffix n h = elim (Bool-cases (leb n (len suffix))) [
  | inl long ↦ rw long ((bounded_name-IsLabel suffix n h).1)
  | inr short ↦
      let room : 0 < n - len suffix = ground arith in
      rw (short, len-&) (ground (arith, (bounded_name-IsLabel raw (n - len suffix) room).1))
]

pub len-package_suffix-le :
    (key : String) (attempt : ℕ) → attempt ≤ max_u32 → len (package_suffix key attempt) ≤ 61
unfolding package_suffix
len-package_suffix-le key n h =
    simp len-& (omega (arith, len-decimal-le n h, len-hash_name_suffix-le key))

-- The name of a package Job is a short prefix and then the whole suffix, with the attempt at its end.
pub package_job_name-eq :
    (fe_name key : String) (attempt : ℕ)
    → attempt ≤ max_u32
    → package_job_name fe_name key attempt
      ≡ bounded_name ("fe-" & fe_name & "-package") (63 - len (package_suffix key attempt))
        & package_suffix key attempt
unfolding package_job_name
package_job_name-eq fe_name key n h =
    suffix_kept ("fe-" & fe_name & "-package") (package_suffix key n) 63
      (omega (arith, len-package_suffix-le key n h))

-- Names of package Jobs and of artifact ConfigMaps fit the 63 bytes of a label.
pub resource_names_bounded :
    (name key : String) (attempt : ℕ)
    → (len (package_job_name name key attempt) ≤ 63) × (len (artifact_configmap_name name key) ≤ 63)
unfolding package_job_name artifact_configmap_name
resource_names_bounded name key attempt = (
  len-bounded_name_preserving_suffix ("fe-" & name & "-package") (package_suffix key attempt) 63
      (omega arith),
  len-bounded_name_preserving_suffix ("fe-" & name) ("-" & hash_name_suffix key) 63 (omega arith),
)

-- A hash becomes a label value that is not empty and has at most 63 characters.
pub hash_label_value_bounds :
    (hash : String) → (hash_label_value hash ≢ "") × (length (chars (hash_label_value hash)) ≤ 63)
unfolding hash_label_value
hash_label_value_bounds hash = go (trimmed hash) refl
  where
    go :
        (t : List Char)
        → trimmed hash ≡ t
        → (hash_label_value hash ≢ "") × (length (chars (hash_label_value hash)) ≤ 63)
    go [] e = rw e (λ h. cc, omega arith)
    go (c ∷ cs) e = rw e (λ h. cc, rw chars-collect (length-take-le 63 (c ∷ cs)))
