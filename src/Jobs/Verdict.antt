-- ===== src/Jobs/Verdict.antt =====
-- When a Job counts as succeeded or failed (crates/common/src/lib.rs: `observed_job_phase`).
use mathlib.Core.List.{Memᴰ}
use mathlib.Core.List.Memᴰ
use kube_frontend_forge_cont.Common.{
  ℕ, zero, suc, String, true, Option, none, some, List, [], ◌∷◌, ◌≡◌, ◌<◌, refl, ◌↔◌, ◌⊎◌, inl, inr,
  any, arith, ==_iff, Bool-cases,
}
use kube_frontend_forge_cont.Api.Fields.{ℤ, pos, negsuc}
use kube_frontend_forge_cont.Api.Kube.{JobCondition, JobStatus}
use kube_frontend_forge_cont.Jobs.{
  ObservedJobPhase, is_positive, holds, conditions_of, observed_job_phase,
}

-- One of the conditions has the type, and the status "True".
abbrev pub IsReported : String → List JobCondition → Type 0
IsReported type conditions =
    (condition : JobCondition) × Memᴰ condition conditions
    × (condition.type ≡ type)
    × (condition.status ≡ "True")

-- A number of pods that is there and above zero.
abbrev pub Counts : Option ℤ → Type 0
Counts o = (n : ℕ) × (o ≡ some (pos n)) × (0 < n)

holds_iff :
    (type : String) (condition : JobCondition)
    → (holds type condition ≡ true) ↔ ((condition.type ≡ type) × (condition.status ≡ "True"))
holds_iff type condition =
    let s = ==_iff condition.status "True" in
    let t = ==_iff condition.type type in (λ h. ground (arith, s, t), λ h. ground (arith, s, t))

any-holds_iff :
    (type : String) (conditions : List JobCondition)
    → (any (holds type) conditions ≡ true) ↔ IsReported type conditions
any-holds_iff type [] = (λ h. cc, λ (c, m, g, h). elim m [ ])
any-holds_iff type (c ∷ cs) = elim (Bool-cases (holds type c)) [
  | inl e ↦ let (t, u) = (holds_iff type c).0 e in (λ h. (c, Memᴰ.head refl, t, u), λ h. rw e refl)
  | inr e ↦ (
    λ h. let (d, m, g, h) = (any-holds_iff type cs).0 (ground (arith, e)) in (d, Memᴰ.tail m, g, h),
    λ (d, m, g, h). elim (Memᴰ.cases_cons m) [
      | inl same ↦
          let it : holds type c ≡ true = rw (← same) ((holds_iff type d).1 (g, h)) in cc (it, e)
      | inr there ↦ rw e ((any-holds_iff type cs).1 (d, there, g, h))
    ],
  )
]

is_positive_iff : (o : Option ℤ) → (is_positive o ≡ true) ↔ Counts o
is_positive_iff none = (λ h. cc, λ (n, e, p). cc)
is_positive_iff (some (pos zero)) = (λ h. cc, λ (n, e, p). ground (arith, e, p))
is_positive_iff (some (pos (suc n))) = (λ h. (suc n, refl, omega arith), λ h. refl)
is_positive_iff (some (negsuc n)) = (λ h. cc, λ (m, e, p). cc)

-- The verdicts over five facts, carried to facts that hold where those do.
module _ {C D F G A B S T N M : Type 0} (c : C ↔ D) (f : F ↔ G) (a : A ↔ B) (s : S ↔ T)
    (n : N ↔ M) where
  verdict_of_succeeded : (C ⊎ ((¬ C × ¬ F × ¬ A) × S)) → D ⊎ ((¬ D × ¬ G × ¬ B) × T)
  verdict_of_succeeded (inl h) = inl (c.0 h)
  verdict_of_succeeded (inr ((nc, nf, na), h)) =
      inr ((λ d. nc (c.1 d), λ g. nf (f.1 g), λ b. na (a.1 b)), s.0 h)

  verdict_of_failed :
      ((F × ¬ C) ⊎ ((¬ C × ¬ F × ¬ A) × ¬ S × N)) → (G × ¬ D) ⊎ ((¬ D × ¬ G × ¬ B) × ¬ T × M)
  verdict_of_failed (inl (h, nc)) = inl (f.0 h, λ d. nc (c.1 d))
  verdict_of_failed (inr ((nc, nf, na), ns, h)) =
      inr ((λ d. nc (c.1 d), λ g. nf (f.1 g), λ b. na (a.1 b)), λ t. ns (s.1 t), n.0 h)

back : {A B : Type 0} → A ↔ B → B ↔ A
back h = (h.1, h.0)

module _ (status : JobStatus) where
  abbrev Says : String → Type 0
  Says type = any (holds type) (conditions_of status.conditions) ≡ true

  abbrev SaysNothing : Type 0
  SaysNothing = ¬ Says "Complete" × ¬ Says "Failed" × ¬ (is_positive status.active ≡ true)

  computed_succeeded_iff :
      (observed_job_phase (some status) ≡ ObservedJobPhase.succeeded)
      ↔ (Says "Complete" ⊎ (SaysNothing × (is_positive status.succeeded ≡ true)))
  unfolding observed_job_phase
  computed_succeeded_iff = (λ h. ground arith, λ h. ground arith)

  computed_failed_iff : (observed_job_phase (some status) ≡ ObservedJobPhase.failed) ↔ (
      (Says "Failed" × ¬ Says "Complete")
      ⊎ (SaysNothing
          × ¬ (is_positive status.succeeded ≡ true)
          × (is_positive status.failed ≡ true)))
  unfolding observed_job_phase
  computed_failed_iff = (λ h. ground arith, λ h. ground arith)

  -- A true condition of the given type is reported.
  abbrev pub Reports : String → Type 0
  Reports type = IsReported type (conditions_of status.conditions)

  -- No condition gives a verdict, and no pod is active.
  abbrev pub IsSilent : Type 0
  IsSilent = ¬ Reports "Complete" × ¬ Reports "Failed" × ¬ Counts status.active

  -- A Job has succeeded exactly when one of its conditions is Complete with the status "True", or,
  -- where none is Complete or Failed with that status and no pod is active, it counts a succeeded pod.
  -- It has failed exactly when a condition is Failed with that status and none is Complete, or, with
  -- no such condition and no active pod, it counts a failed pod and no succeeded one.
  pub observed_succeeded_iff :
      ((observed_job_phase (some status) ≡ ObservedJobPhase.succeeded)
        ↔ (Reports "Complete" ⊎ (IsSilent × Counts status.succeeded)))
      × ((observed_job_phase (some status) ≡ ObservedJobPhase.failed) ↔ (
          (Reports "Failed" × ¬ Reports "Complete")
          ⊎ (IsSilent × ¬ Counts status.succeeded × Counts status.failed)))
  observed_succeeded_iff =
      let c = any-holds_iff "Complete" (conditions_of status.conditions) in
      let f = any-holds_iff "Failed" (conditions_of status.conditions) in
      let a = is_positive_iff status.active in
      let s = is_positive_iff status.succeeded in
      let n = is_positive_iff status.failed in
      (
        (
          λ h. verdict_of_succeeded c f a s n (computed_succeeded_iff.0 h),
          λ h.
              computed_succeeded_iff.1
                (verdict_of_succeeded (back c) (back f) (back a) (back s) (back n) h),
        ),
        (
          λ h. verdict_of_failed c f a s n (computed_failed_iff.0 h),
          λ h.
              computed_failed_iff.1
                (verdict_of_failed (back c) (back f) (back a) (back s) (back n) h),
        ),
      )
