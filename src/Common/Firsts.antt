-- ===== src/Common/Firsts.antt =====
-- The first item of each key in a list.
use mathlib.Core.Path.{◌≡◌, refl, ap, sym, subst}
use mathlib.Core.Logic.{◌↔◌, ◌⊎◌, inl, inr}
use mathlib.Core.Bool.{Bool, true, false}
use mathlib.Core.List.{List, [], ◌∷◌, ◌++◌, map, Memᴰ}
use native.Mathlib.Omega.{arith}
use kube_frontend_forge_cont.Common.Tests.{Bool-cases, if◌then◌else◌}
use kube_frontend_forge_cont.Common.Lists.{All, All-imp}
use kube_frontend_forge_cont.Common.Distinct.{holds, Fresh, after, IsDistinct, Fresh-IsDistinct}

module _ {B K : Type 0} (same : K → K → Bool) (key : B → K) where
  -- With the keys seen so far.
  unfoldable pub firsts : List K → List B → List B
  firsts seen [] = []
  firsts seen (b ∷ bs) =
      let skip = firsts seen bs in
      let more = firsts (key b ∷ seen) bs in if holds same seen (key b) then skip else b ∷ more

  pub firsts-old :
      (seen : List K) (b : B) (bs : List B)
      → holds same seen (key b) ≡ true
      → firsts seen (b ∷ bs) ≡ firsts seen bs
  unfolding firsts
  firsts-old seen b bs e = rw e refl

  pub firsts-new :
      (seen : List K) (b : B) (bs : List B)
      → holds same seen (key b) ≡ false
      → firsts seen (b ∷ bs) ≡ b ∷ firsts (key b ∷ seen) bs
  unfolding firsts
  firsts-new seen b bs e = rw e refl

  firsts-nil :
      (seen : List K) (ys : List B)
      → firsts seen ys ≡ firsts seen [] ++ firsts (after same seen (map key (firsts seen []))) ys
  unfolding firsts
  firsts-nil seen ys = refl

  pub firsts-append :
      (seen : List K) (xs ys : List B)
      → firsts seen (xs ++ ys)
        ≡ firsts seen xs ++ firsts (after same seen (map key (firsts seen xs))) ys
  firsts-append seen [] ys = firsts-nil seen ys
  firsts-append seen (x ∷ xs) ys = elim (Bool-cases (holds same seen (key x))) [
    | inl e ↦ rw (firsts-old seen x xs e, firsts-old seen x (xs ++ ys) e) (firsts-append seen xs ys)
    | inr e ↦
        rw (firsts-new seen x xs e, firsts-new seen x (xs ++ ys) e)
          (ap (λ r. x ∷ r) (firsts-append (key x ∷ seen) xs ys))
  ]

  -- No key comes twice.
  pub firsts-Fresh : (seen : List K) (bs : List B) → Fresh same seen (map key (firsts seen bs))
  unfolding firsts
  firsts-Fresh seen [] = tt
  firsts-Fresh seen (b ∷ bs) = elim (Bool-cases (holds same seen (key b))) [
    | inl e ↦ rw e (firsts-Fresh seen bs)
    | inr e ↦ rw e (e, firsts-Fresh (key b ∷ seen) bs)
  ]

  covered :
      (same_iff : (a b : K) → (same a b ≡ true) ↔ (a ≡ b)) (seen : List K) (b : B) (ks : List K)
      (c : B)
      → Memᴰ (key c) ks ⊎ (holds same (key b ∷ seen) (key c) ≡ true)
      → Memᴰ (key c) (key b ∷ ks) ⊎ (holds same seen (key c) ≡ true)
  covered same_iff seen b ks c (inl m) = inl (Memᴰ.tail m)
  covered same_iff seen b ks c (inr e) = elim (Bool-cases (same (key b) (key c))) [
    | inl q ↦ inl (Memᴰ.head (sym ((same_iff (key b) (key c)).0 q)))
    | inr q ↦ inr (ground (arith, e, q))
  ]

  abbrev Covered : List K → List B → List B → Type 0
  Covered seen fs bs = All (λ b. Memᴰ (key b) (map key fs) ⊎ (holds same seen (key b) ≡ true)) bs

  -- The key of each item is seen before, or is that of a first item.
  firsts-cover :
      (same_iff : (a b : K) → (same a b ≡ true) ↔ (a ≡ b)) (seen : List K) (bs : List B)
      → Covered seen (firsts seen bs) bs
  firsts-cover same_iff seen [] = tt
  firsts-cover same_iff seen (b ∷ bs) = elim (Bool-cases (holds same seen (key b))) [
    | inl e ↦ (
      inr e,
      subst (λ fs. Covered seen fs bs) (sym (firsts-old seen b bs e))
          (firsts-cover same_iff seen bs),
    )
    | inr e ↦
        subst (λ fs. Covered seen fs (b ∷ bs)) (sym (firsts-new seen b bs e))
          (
            inl (Memᴰ.head refl),
            All-imp _ _ bs (covered same_iff seen b (map key (firsts (key b ∷ seen) bs)))
                (firsts-cover same_iff (key b ∷ seen) bs),
          )
  ]

  pub firsts-cover_all :
      (same_iff : (a b : K) → (same a b ≡ true) ↔ (a ≡ b)) (bs : List B)
      → All (λ b. Memᴰ (key b) (map key (firsts [] bs))) bs
  firsts-cover_all same_iff bs =
      All-imp _ _ bs (λ b c. elim c [ inl m ↦ m | inr e ↦ absurd (ground (arith, e)) ])
        (firsts-cover same_iff [] bs)

  pub firsts-IsDistinct :
      (same_iff : (a b : K) → (same a b ≡ true) ↔ (a ≡ b)) (bs : List B)
      → IsDistinct (map key (firsts [] bs))
  firsts-IsDistinct same_iff bs = (Fresh-IsDistinct same same_iff _).0 (firsts-Fresh [] bs)

  pub firsts-All :
      (P : B → Type 0) (seen : List K) (bs : List B) → All P bs → All P (firsts seen bs)
  unfolding firsts
  firsts-All P seen [] h = tt
  firsts-All P seen (b ∷ bs) (p, h) = elim (Bool-cases (holds same seen (key b))) [
    | inl e ↦ rw e (firsts-All P seen bs h)
    | inr e ↦ rw e (p, firsts-All P (key b ∷ seen) bs h)
  ]

-- Two keys that tell the items of a list apart in the same way have the same first items.
module _ {B J K : Type 0} (same_j : J → J → Bool) (same_k : K → K → Bool) (j : B → J) (k : B → K)
    (P : B → Type 0) (agree : (x y : B) → P x → P y → same_j (j x) (j y) ≡ same_k (k x) (k y)) where
  holds-agree :
      (seen : List B) (b : B)
      → All P seen
      → P b
      → holds same_j (map j seen) (j b) ≡ holds same_k (map k seen) (k b)
  holds-agree [] b h p = refl
  holds-agree (x ∷ xs) b (h, hs) p = rw (agree x b h p, holds-agree xs b hs p) refl

  pub firsts-agree :
      (seen bs : List B)
      → All P seen
      → All P bs
      → firsts same_j j (map j seen) bs ≡ firsts same_k k (map k seen) bs
  unfolding firsts
  firsts-agree seen [] hs hb = refl
  firsts-agree seen (b ∷ bs) hs (p, hb) =
      rw
        (holds-agree seen b hs p, firsts-agree seen bs hs hb, firsts-agree (b ∷ seen) bs (p, hs) hb)
        refl
