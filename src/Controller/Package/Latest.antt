-- ===== src/Controller/Package/Latest.antt =====
-- The attempt that counts as the latest one (crates/frontend-extension-controller/src/package.rs).
use kube_frontend_forge_cont.Common.{
  ◌≤◌, ◌≡◌, ◌↔◌, ◌⊎◌, inl, inr, ◌∙◌, refl, none, some, List, [], ◌∷◌, arith, All,
}
use mathlib.Core.List.{Memᴰ}
use mathlib.Core.Path.{subst}
use mathlib.Core.Option.{some-injective}
use kube_frontend_forge_cont.Outside.{Outside}
use kube_frontend_forge_cont.Controller.Package.{
  PackageAttempt, later, max_from, latest_package_attempt,
}

module _ (out : Outside) where
  later_bounds :
      (a b : PackageAttempt)
      → (a.attempt ≤ (later out a b).attempt) × (b.attempt ≤ (later out a b).attempt)
  unfolding later
  later_bounds a b = ground arith

  max_from_bounds :
      (best : PackageAttempt) (attempts : List PackageAttempt)
      → (best.attempt ≤ (max_from out best attempts).attempt)
        × All (λ a. a.attempt ≤ (max_from out best attempts).attempt) attempts
  unfolding max_from
  max_from_bounds best [] = (omega arith, tt)
  max_from_bounds best (a ∷ attempts) =
      let (kept, others) = max_from_bounds (later out best a) attempts in
      let (left, right) = later_bounds best a in (omega arith, (omega arith, others))

  later_cases : (a b : PackageAttempt) → (later out a b ≡ a) ⊎ (later out a b ≡ b)
  unfolding later
  later_cases a b = ground arith

  mem_either :
      {x best a l : PackageAttempt} {attempts : List PackageAttempt}
      → (l ≡ best) ⊎ (l ≡ a)
      → Memᴰ x (l ∷ attempts)
      → Memᴰ x (best ∷ a ∷ attempts)
  mem_either (inl p) (Memᴰ.head e) = Memᴰ.head (e ∙ p)
  mem_either (inr p) (Memᴰ.head e) = Memᴰ.tail (Memᴰ.head (e ∙ p))
  mem_either c (Memᴰ.tail m) = Memᴰ.tail (Memᴰ.tail m)

  max_from-mem :
      (best : PackageAttempt) (attempts : List PackageAttempt)
      → Memᴰ (max_from out best attempts) (best ∷ attempts)
  unfolding max_from
  max_from-mem best [] = Memᴰ.head refl
  max_from-mem best (a ∷ attempts) =
      mem_either (later_cases best a) (max_from-mem (later out best a) attempts)

  -- The latest attempt is one of the attempts, and none has a higher number.
  pub latest_package_attempt_lem :
      (attempts : List PackageAttempt) (latest : PackageAttempt)
      → latest_package_attempt out attempts ≡ some latest
      → Memᴰ latest attempts × All (λ a. a.attempt ≤ latest.attempt) attempts
  unfolding latest_package_attempt
  latest_package_attempt_lem [] latest h = cc
  latest_package_attempt_lem (a ∷ attempts) latest h =
      let same = some-injective _ latest h in
      let (kept, others) = max_from_bounds a attempts in
      subst (λ l. Memᴰ l (a ∷ attempts) × All (λ x. x.attempt ≤ l.attempt) (a ∷ attempts)) same
        (max_from-mem a attempts, (kept, others))

  -- There is one exactly when there are attempts.
  pub latest-eq-none_iff :
      (attempts : List PackageAttempt)
      → (latest_package_attempt out attempts ≡ none) ↔ (attempts ≡ [])
  unfolding latest_package_attempt
  latest-eq-none_iff [] = (λ h. refl, λ h. refl)
  latest-eq-none_iff (a ∷ attempts) = (λ h. cc, λ h. cc)
