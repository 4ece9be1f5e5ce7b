-- ===== src/Controller/Artifact/Newest.antt =====
-- The order in which artifact ConfigMaps are sorted before the collection: newest first
-- (crates/frontend-extension-controller/src/artifact.rs: `artifact_configmap_gc_candidates`).
use Prim.Native.Nat.{Ordering}
use mathlib.Core.List.{Permᴰ}
use mathlib.Core.List.Permᴰ
use kube_frontend_forge_cont.Common.{
  ℕ, zero, suc, ◌≤◌, Option, none, some, List, [], ◌∷◌, ◌++◌, ◌≡◌, ◌≢◌, refl, ◌∙◌, ap, arith, All,
  All-drop, All-imp, length, take, drop,
}
use kube_frontend_forge_cont.Api.Fields.{DateTime}
use kube_frontend_forge_cont.Api.Kube.{ConfigMap}
use kube_frontend_forge_cont.Outside.{Outside}
use kube_frontend_forge_cont.Controller.Artifact.{place, compare_newest, insert_newest, sort_newest}

-- Times in the order of `Option<Time>`.
abbrev pub rank : Option DateTime → ℕ
rank none = zero
rank (some t) = suc t

-- `c` is at least as new as `d`.
abbrev pub IsNewer : ConfigMap → ConfigMap → Type 0
IsNewer c d = rank d.metadata.creation_timestamp ≤ rank c.metadata.creation_timestamp

-- Newest first.
abbrev pub IsNewestFirst : List ConfigMap → Type 0
IsNewestFirst [] = Unit
IsNewestFirst (c ∷ cs) = All (IsNewer c) cs × IsNewestFirst cs

All-place :
    (P : ConfigMap → Type 0) (o : Ordering) (behind front : List ConfigMap)
    → All P behind
    → All P front
    → All P (place o behind front)
All-place P Ordering.gt behind front h g = h
All-place P Ordering.lt behind front h g = g
All-place P Ordering.eq behind front h g = g

length-place :
    (n : ℕ) (o : Ordering) (behind front : List ConfigMap)
    → length behind ≡ n
    → length front ≡ n
    → length (place o behind front) ≡ n
length-place n Ordering.gt behind front h g = h
length-place n Ordering.lt behind front h g = g
length-place n Ordering.eq behind front h g = g

Perm-place :
    (o : Ordering) (behind front cs : List ConfigMap)
    → Permᴰ behind cs
    → Permᴰ front cs
    → Permᴰ (place o behind front) cs
Perm-place Ordering.gt behind front cs h g = h
Perm-place Ordering.lt behind front cs h g = g
Perm-place Ordering.eq behind front cs h g = g

pub take-append-drop : (n : ℕ) (cs : List ConfigMap) → (take n cs ++ drop n cs) ≡ cs
take-append-drop zero cs = refl
take-append-drop (suc n) [] = refl
take-append-drop (suc n) (c ∷ cs) = ap (λ ds. c ∷ ds) (take-append-drop n cs)

IsNewestFirst-place :
    (o : Ordering) (behind front : List ConfigMap)
    → (o ≡ Ordering.gt → IsNewestFirst behind)
    → (o ≢ Ordering.gt → IsNewestFirst front)
    → IsNewestFirst (place o behind front)
IsNewestFirst-place Ordering.gt behind front h g = h refl
IsNewestFirst-place Ordering.lt behind front h g = g (λ e. cc e)
IsNewestFirst-place Ordering.eq behind front h g = g (λ e. cc e)

-- Of a sorted list, all that is kept is at least as new as all that is dropped.
pub take-IsNewer-drop :
    (n : ℕ) (cs : List ConfigMap)
    → IsNewestFirst cs
    → All (λ c. All (IsNewer c) (drop n cs)) (take n cs)
take-IsNewer-drop zero cs h = tt
take-IsNewer-drop (suc n) [] h = tt
take-IsNewer-drop (suc n) (c ∷ cs) (h, hs) =
    (All-drop (IsNewer c) n cs h, take-IsNewer-drop n cs hs)

module _ (out : Outside) where
  All-insert_newest :
      (P : ConfigMap → Type 0) (cm : ConfigMap) (cs : List ConfigMap)
      → P cm
      → All P cs
      → All P (insert_newest out cm cs)
  unfolding insert_newest
  All-insert_newest P cm [] h hs = (h, tt)
  All-insert_newest P cm (c ∷ cs) h (g, gs) =
      All-place P (compare_newest out cm c) (c ∷ insert_newest out cm cs) (cm ∷ c ∷ cs)
        (g, All-insert_newest P cm cs h gs) (h, (g, gs))

  pub All-sort_newest :
      (P : ConfigMap → Type 0) (cs : List ConfigMap) → All P cs → All P (sort_newest out cs)
  unfolding sort_newest
  All-sort_newest P [] h = tt
  All-sort_newest P (c ∷ cs) (h, hs) =
      All-insert_newest P c (sort_newest out cs) h (All-sort_newest P cs hs)

  length-insert_newest :
      (cm : ConfigMap) (cs : List ConfigMap) → length (insert_newest out cm cs) ≡ suc (length cs)
  unfolding insert_newest
  length-insert_newest cm [] = refl
  length-insert_newest cm (c ∷ cs) =
      length-place (suc (suc (length cs))) (compare_newest out cm c) _ _
        (ap suc (length-insert_newest cm cs)) refl

  pub length-sort_newest : (cs : List ConfigMap) → length (sort_newest out cs) ≡ length cs
  unfolding sort_newest
  length-sort_newest [] = refl
  length-sort_newest (c ∷ cs) =
      length-insert_newest c (sort_newest out cs) ∙ ap suc (length-sort_newest cs)

  insert_newest-Perm :
      (cm : ConfigMap) (cs : List ConfigMap) → Permᴰ (insert_newest out cm cs) (cm ∷ cs)
  unfolding insert_newest
  insert_newest-Perm cm [] = Permᴰ.cons refl Permᴰ.nil
  insert_newest-Perm cm (c ∷ cs) =
      Perm-place (compare_newest out cm c) _ _ (cm ∷ c ∷ cs)
        (Permᴰ.trans (Permᴰ.cons refl (insert_newest-Perm cm cs)) (Permᴰ.swap refl refl))
        (Permᴰ.refl (cm ∷ c ∷ cs))

  pub sort_newest-Perm : (cs : List ConfigMap) → Permᴰ (sort_newest out cs) cs
  unfolding sort_newest
  sort_newest-Perm [] = Permᴰ.nil
  sort_newest-Perm (c ∷ cs) =
      Permᴰ.trans (insert_newest-Perm c (sort_newest out cs))
        (Permᴰ.cons refl (sort_newest-Perm cs))

  compare_newest-eq-gt : (cm c : ConfigMap) → compare_newest out cm c ≡ Ordering.gt → IsNewer c cm
  unfolding compare_newest
  compare_newest-eq-gt cm c h = ground arith

  compare_newest-ne-gt : (cm c : ConfigMap) → compare_newest out cm c ≢ Ordering.gt → IsNewer cm c
  unfolding compare_newest
  compare_newest-ne-gt cm c h = ground arith

  insert_newest-IsNewestFirst :
      (cm : ConfigMap) (cs : List ConfigMap)
      → IsNewestFirst cs
      → IsNewestFirst (insert_newest out cm cs)
  unfolding insert_newest
  insert_newest-IsNewestFirst cm [] h = (tt, tt)
  insert_newest-IsNewestFirst cm (c ∷ cs) (h, hs) =
      IsNewestFirst-place (compare_newest out cm c) _ _
        (λ e. (
          All-insert_newest (IsNewer c) cm cs (compare_newest-eq-gt cm c e) h,
          insert_newest-IsNewestFirst cm cs hs,
        ))
        (λ e.
          let first = compare_newest-ne-gt cm c e in
          ((first, All-imp (IsNewer c) (IsNewer cm) cs (λ d g. omega arith) h), (h, hs)))

  pub sort_newest-IsNewestFirst : (cs : List ConfigMap) → IsNewestFirst (sort_newest out cs)
  unfolding sort_newest
  sort_newest-IsNewestFirst [] = tt
  sort_newest-IsNewestFirst (c ∷ cs) =
      insert_newest-IsNewestFirst c (sort_newest out cs) (sort_newest-IsNewestFirst cs)
