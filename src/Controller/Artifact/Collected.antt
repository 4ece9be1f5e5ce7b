-- ===== src/Controller/Artifact/Collected.antt =====
-- What the collection of artifact ConfigMaps may delete
-- (crates/frontend-extension-controller/src/artifact.rs: `artifact_configmap_gc_candidates`).
use mathlib.Core.List.{Memᴰ, Permᴰ}
use mathlib.Core.List.Memᴰ
use kube_frontend_forge_cont.Common.{
  ◌↔◌, inl, inr, Bool, Bool-cases, retain, ℕ, ◌-◌, true, false, not, String, List, [], ◌∷◌, ◌++◌,
  ◌≡◌, refl, ◌∙◌, ap, arith, All, All-drop, All-map, All-imp, All-retain, All-of_mem, length,
  length-drop, take, drop, map,
}
use kube_frontend_forge_cont.Api.Kube.{ConfigMap}
use kube_frontend_forge_cont.Api.Extension.{FrontendExtension}
use kube_frontend_forge_cont.Outside.{Outside}
use kube_frontend_forge_cont.Controller.Artifact.{
  contains, artifact_configmap_is_owned_by, sort_newest, gc_pool, artifact_configmap_gc_candidates,
}
use kube_frontend_forge_cont.Controller.Artifact.Newest.{
  IsNewer, take-IsNewer-drop, take-append-drop, All-sort_newest, length-sort_newest,
  sort_newest-Perm, sort_newest-IsNewestFirst,
}

-- A filter keeps what is there and passes it, and nothing else.
mem-retain_iff :
    (p : ConfigMap → Bool) (x : ConfigMap) (xs : List ConfigMap)
    → Memᴰ x (retain p xs) ↔ (Memᴰ x xs × (p x ≡ true))
mem-retain_iff p x [] = (λ m. elim m [ ], λ (m, e). elim m [ ])
mem-retain_iff p x (y ∷ ys) = elim (Bool-cases (p y)) [
  | inl e ↦ rw e (
    λ m. elim (Memᴰ.cases_cons m) [
      | inl same ↦ (Memᴰ.head same, ap p same ∙ e)
      | inr m' ↦ let (there, h) = (mem-retain_iff p x ys).0 m' in (Memᴰ.tail there, h)
    ],
    λ (m, h). elim (Memᴰ.cases_cons m) [
      | inl same ↦ Memᴰ.head same
      | inr m' ↦ Memᴰ.tail ((mem-retain_iff p x ys).1 (m', h))
    ],
  )
  | inr e ↦ rw e (
    λ m. let (there, h) = (mem-retain_iff p x ys).0 m in (Memᴰ.tail there, h),
    λ (m, h). elim (Memᴰ.cases_cons m) [
      | inl same ↦ cc (ap p same, h, e)
      | inr m' ↦ (mem-retain_iff p x ys).1 (m', h)
    ],
  )
]

module _ (out : Outside) where
  module _ (configmaps : List ConfigMap) (fe : FrontendExtension) (keep_names : List String) where
    -- A ConfigMap of the list that the extension owns and whose name is not to be kept.
    abbrev pub IsCollectible : ConfigMap → Type 0
    IsCollectible cm =
        Memᴰ cm configmaps
        × (artifact_configmap_is_owned_by cm fe ≡ true)
        × (contains keep_names (out.name_any cm.metadata) ≡ false)

    gc_pool-IsCollectible : All IsCollectible (gc_pool out configmaps fe keep_names)
    unfolding gc_pool
    gc_pool-IsCollectible =
        let listed = All-of_mem (λ cm. Memᴰ cm configmaps) configmaps (λ cm m. m) in
        let owned = All-retain _ (λ cm. artifact_configmap_is_owned_by cm fe) configmaps listed in
        All-imp _ IsCollectible _ (λ cm h. (h.0.0, h.0.1, ground arith))
          (All-retain _ (λ (cm : ConfigMap). not (contains keep_names (out.name_any cm.metadata))) _
            owned)

    -- Every name that is collected is that of a ConfigMap in the list which the extension owns, and it
    -- is none of the names to keep.
    pub artifact_configmap_gc_candidates_lem :
        (retain_old_count : ℕ)
        → All
            (λ name. (cm : ConfigMap) × (out.name_any cm.metadata ≡ name) × IsCollectible cm)
            (artifact_configmap_gc_candidates out configmaps fe keep_names retain_old_count)
    unfolding artifact_configmap_gc_candidates
    artifact_configmap_gc_candidates_lem retain_old_count =
        let sorted = sort_newest out (gc_pool out configmaps fe keep_names) in
        All-map _ (λ (cm : ConfigMap). out.name_any cm.metadata) (drop retain_old_count sorted)
          (All-imp IsCollectible _ (drop retain_old_count sorted) (λ cm h. (cm, refl, h))
            (All-drop IsCollectible retain_old_count sorted
              (All-sort_newest out IsCollectible _ gc_pool-IsCollectible)))

    gc_pool_iff :
        (cm : ConfigMap) → Memᴰ cm (gc_pool out configmaps fe keep_names) ↔ IsCollectible cm
    unfolding gc_pool
    gc_pool_iff cm =
        let is_owned = λ (c : ConfigMap). artifact_configmap_is_owned_by c fe in
        let owned = mem-retain_iff is_owned cm configmaps in
        let named = λ (c : ConfigMap). not (contains keep_names (out.name_any c.metadata)) in
        let kept = mem-retain_iff named cm (retain is_owned configmaps) in
        (
          λ m.
              let (listed, n) = kept.0 m in
              let (there, o) = owned.0 listed in (there, o, ground (arith, n)),
          λ (m, o, n). kept.1 (owned.1 (m, o), ground (arith, n)),
        )

    -- The ConfigMaps that may be collected are those in the list which the extension owns and whose
    -- name is not to be kept. They fall into those that are retained and those that are collected, each
    -- of them in exactly one of the two: the names of the latter are what is collected, all but the
    -- number to retain are, and every one that is retained was created no earlier than any that is
    -- collected.
    pub gc_retains_newest :
        (retain_old_count : ℕ)
        → ((cm : ConfigMap) → Memᴰ cm (gc_pool out configmaps fe keep_names) ↔ IsCollectible cm)
          × (retained : List ConfigMap) × (collected : List ConfigMap) × (Permᴰ
              (retained ++ collected)
              (gc_pool out configmaps fe keep_names))
          × (artifact_configmap_gc_candidates out configmaps fe keep_names retain_old_count
              ≡ map (λ (cm : ConfigMap). out.name_any cm.metadata) collected)
          × (length collected ≡ length (gc_pool out configmaps fe keep_names) - retain_old_count)
          × All (λ kept. All (IsNewer kept) collected) retained
    unfolding artifact_configmap_gc_candidates
    gc_retains_newest retain_old_count =
        let pool = gc_pool out configmaps fe keep_names in
        let sorted = sort_newest out pool in
        (
          gc_pool_iff,
          take retain_old_count sorted,
          drop retain_old_count sorted,
          rw (take-append-drop retain_old_count sorted) (sort_newest-Perm out pool),
          refl,
          length-drop retain_old_count sorted
              ∙ ap (λ n. n - retain_old_count) (length-sort_newest out pool),
          take-IsNewer-drop retain_old_count sorted (sort_newest-IsNewestFirst out pool),
        )
