-- ===== src/Controller/Package/Attempts.antt =====
-- The attempt that a package Job's name carries is read back from it
-- (crates/frontend-extension-controller/src/package.rs, crates/common/src/lib.rs).
use kube_frontend_forge_cont.Common.{
  ℕ, zero, suc, ◌-◌, ◌≤◌, ◌<◌, Char, String, ◌≡◌, refl, none, some, List, [], ◌∷◌, ◌++◌, arith, All,
  chars, chars-collect, chars-append, ◌&◌, len,
}
use mathlib.Core.List.{append_assoc}
use kube_frontend_forge_cont.Api.Kube.{Job}
use kube_frontend_forge_cont.Decimal.{decimal, max_u32}
use kube_frontend_forge_cont.Decimal.Digits.{IsDigit, decimal-IsDigit}
use kube_frontend_forge_cont.Decimal.RoundTrip.{parse_u32-decimal}
use kube_frontend_forge_cont.Names.{
  bounded_name, hash_name_suffix, package_suffix, package_job_name,
}
use kube_frontend_forge_cont.Names.Bounds.{package_job_name-eq}
use kube_frontend_forge_cont.Outside.{Outside, NamesByName}
use kube_frontend_forge_cont.Controller.Package.{
  rsplit_once_dash_a, attempt_of_name, package_attempt_from_job,
}

-- Digits hold no "-a".
rsplit_of_digits : (s : List Char) → All IsDigit s → rsplit_once_dash_a s ≡ none
unfolding rsplit_once_dash_a
rsplit_of_digits [] h = refl
rsplit_of_digits (c ∷ []) h = ground arith
rsplit_of_digits (c ∷ d ∷ s) (p, h) = ground (arith, rsplit_of_digits (d ∷ s) h)

rsplit_at_end :
    (s : List Char) → All IsDigit s → rsplit_once_dash_a (chars "-a" ++ s) ≡ some ([], s)
unfolding rsplit_once_dash_a
rsplit_at_end s h = ground (arith, rsplit_of_digits s h)

rsplit-cons :
    (c : Char) (cs before s : List Char)
    → rsplit_once_dash_a cs ≡ some (before, s)
    → rsplit_once_dash_a (c ∷ cs) ≡ some (c ∷ before, s)
unfolding rsplit_once_dash_a
rsplit-cons c cs before s h = rw h

-- The last "-a" is the one that digits follow.
rsplit-append :
    (before s : List Char)
    → All IsDigit s
    → rsplit_once_dash_a (before ++ (chars "-a" ++ s)) ≡ some (before, s)
rsplit-append [] s h = rsplit_at_end s h
rsplit-append (c ∷ before) s h =
    rsplit-cons c (before ++ (chars "-a" ++ s)) before s (rsplit-append before s h)

attempt_of_append :
    (before : List Char) (n : ℕ)
    → suc n ≤ max_u32
    → attempt_of_name (before ++ (chars "-a" ++ decimal (suc n))) ≡ some (suc n)
unfolding attempt_of_name
attempt_of_append before n h = rw (
  rsplit-append before (decimal (suc n)) (decimal-IsDigit (suc n)),
  attempt_of_name,
  parse_u32-decimal (suc n) h,
)

-- The characters of a package Job's name, up to the attempt.
abbrev stem : String → String → ℕ → String
stem fe_name key attempt =
    bounded_name ("fe-" & fe_name & "-package") (63 - len (package_suffix key attempt))

chars-package_job_name :
    (fe_name key : String) (attempt : ℕ)
    → attempt ≤ max_u32
    → chars (package_job_name fe_name key attempt)
      ≡ (chars (stem fe_name key attempt) ++ (chars "-" ++ chars (hash_name_suffix key)))
        ++ (chars "-a" ++ decimal attempt)
chars-package_job_name fe_name key n h =
    rw (package_job_name-eq fe_name key n h)
      (unfold package_suffix in simp (chars-append, chars-collect, append_assoc))

-- A Job that has the name of an attempt counts as that attempt, whatever the extension and the key.
pub package_attempt_from_job-package_job_name :
    (out : Outside) (job : Job) (fe_name key : String) (attempt : ℕ)
    → NamesByName out
    → job.metadata.name ≡ some (package_job_name fe_name key attempt)
    → 0 < attempt
    → attempt ≤ max_u32
    → package_attempt_from_job out job ≡ some attempt
unfolding package_attempt_from_job
package_attempt_from_job-package_job_name out job fe_name key zero named e pos fits = elim pos [ ]
package_attempt_from_job-package_job_name out job fe_name key (suc n) named e pos fits =
    rw
      (
        named job.metadata (package_job_name fe_name key (suc n)) e,
        chars-package_job_name fe_name key (suc n) fits,
      )
      (attempt_of_append
        (chars (stem fe_name key (suc n)) ++ (chars "-" ++ chars (hash_name_suffix key))) n fits)
