-- ===== src/Common/Distinct.antt =====
-- Lists with no repetition, and members that a set does not hold yet.
use mathlib.Core.Path.{◌≡◌, refl, sym}
use mathlib.Core.Logic.{◌≢◌, ◌↔◌, inl, inr}
use mathlib.Core.Bool.{Bool, true, false, ◌||◌}
use mathlib.Core.List.{List, [], ◌∷◌, ◌++◌, map}
use native.Mathlib.Omega.{arith}
use kube_frontend_forge_cont.Common.Tests.{Bool-cases}
use kube_frontend_forge_cont.Common.Lists.{All}

abbrev pub IsDistinct {ℓ} : {A : Type ℓ} → List A → Type ℓ
IsDistinct [] = Unit
IsDistinct (x ∷ xs) = All (λ y. y ≢ x) xs × IsDistinct xs

-- A test for membership in a growing list, by a test for equality.
module _ {A : Type 0} (same : A → A → Bool) where
  abbrev pub holds : List A → A → Bool
  holds [] a = false
  holds (x ∷ xs) a = same x a || holds xs a

  -- Each member is new when it comes.
  abbrev pub Fresh : List A → List A → Type 0
  Fresh seen [] = Unit
  Fresh seen (x ∷ xs) = (holds seen x ≡ false) × Fresh (x ∷ seen) xs

  abbrev pub after : List A → List A → List A
  after seen [] = seen
  after seen (x ∷ xs) = after (x ∷ seen) xs

  pub Fresh-append :
      (seen xs ys : List A) → Fresh seen (xs ++ ys) ↔ (Fresh seen xs × Fresh (after seen xs) ys)
  Fresh-append seen [] ys = (λ h. (tt, h), λ (_, h). h)
  Fresh-append seen (x ∷ xs) ys = (
    λ (h, hs). let (a, b) = (Fresh-append (x ∷ seen) xs ys).0 hs in ((h, a), b),
    λ ((h, a), b). (h, (Fresh-append (x ∷ seen) xs ys).1 (a, b)),
  )

  pub after-append : (seen xs ys : List A) → after seen (xs ++ ys) ≡ after (after seen xs) ys
  after-append seen [] ys = refl
  after-append seen (x ∷ xs) ys = after-append (x ∷ seen) xs ys

module _ {A : Type 0} (same : A → A → Bool)
    (same_iff : (a b : A) → (same a b ≡ true) ↔ (a ≡ b)) where
  holds_none :
      (x : A) (seen xs : List A)
      → All (λ y. holds same (x ∷ seen) y ≡ false) xs
      → All (λ y. holds same seen y ≡ false) xs × All (λ y. y ≢ x) xs
  holds_none x seen [] h = (tt, tt)
  holds_none x seen (y ∷ ys) (h, hs) =
      let (a, b) = holds_none x seen ys hs in
      ((ground (arith, h), a), (λ e. ground (arith, h, (same_iff x y).1 (sym e)), b))

  holds_all :
      (x : A) (seen xs : List A)
      → All (λ y. holds same seen y ≡ false) xs
      → All (λ y. y ≢ x) xs
      → All (λ y. holds same (x ∷ seen) y ≡ false) xs
  holds_all x seen [] h n = tt
  holds_all x seen (y ∷ ys) (h, hs) (n, ns) = (
    elim (Bool-cases (same x y)) [
      | inl e ↦ absurd (n (sym ((same_iff x y).0 e)))
      | inr e ↦ ground (arith, e, h)
    ],
    holds_all x seen ys hs ns,
  )

  pub Fresh-iff :
      (seen xs : List A)
      → Fresh same seen xs ↔ (All (λ y. holds same seen y ≡ false) xs × IsDistinct xs)
  Fresh-iff seen [] = (λ h. (tt, tt), λ h. tt)
  Fresh-iff seen (x ∷ xs) = (
    λ (h, hs).
        let (a, d) = (Fresh-iff (x ∷ seen) xs).0 hs in
        let (b, n) = holds_none x seen xs a in ((h, b), (n, d)),
    λ ((h, a), (n, d)). (h, (Fresh-iff (x ∷ seen) xs).1 (holds_all x seen xs a n, d)),
  )

  all_new : (xs : List A) → All (λ y. holds same [] y ≡ false) xs
  all_new [] = tt
  all_new (x ∷ xs) = (refl, all_new xs)

  -- Each member is new to the set of those before it exactly when there is no repetition.
  pub Fresh-IsDistinct : (xs : List A) → Fresh same [] xs ↔ IsDistinct xs
  Fresh-IsDistinct xs = (λ h. ((Fresh-iff [] xs).0 h).1, λ d. (Fresh-iff [] xs).1 (all_new xs, d))

module _ {A B : Type 0} (f : A → B) (injective : (x y : A) → f x ≡ f y → x ≡ y) where
  map_ne : (x : A) (xs : List A) → All (λ y. y ≢ x) xs → All (λ y. y ≢ f x) (map f xs)
  map_ne x [] h = tt
  map_ne x (y ∷ ys) (n, ns) = ((λ e. n (injective y x e)), map_ne x ys ns)

  pub IsDistinct-map : (xs : List A) → IsDistinct xs → IsDistinct (map f xs)
  IsDistinct-map [] d = tt
  IsDistinct-map (x ∷ xs) (n, d) = (map_ne x xs n, IsDistinct-map xs d)
