-- ===== src/Controller/Writes/Conduct.antt =====
-- The calls that the writing of a status and the collection of ConfigMaps can make.
use kube_frontend_forge_cont.Common.{
  ℕ, true, false, String, Option, none, some, List, [], ◌∷◌, ◌≡◌, refl, inl, inr, BTreeMap, All,
  All-imp, Bool-cases, arith,
}
use mathlib.Core.List.{Memᴰ}
use mathlib.Core.Path.{subst}
use kube_frontend_forge_cont.Api.Kube.{ConfigMap}
use kube_frontend_forge_cont.Api.Status.{FrontendExtensionStatus}
use kube_frontend_forge_cont.Api.Extension.{FrontendExtension}
use kube_frontend_forge_cont.Outside.{Outside}
use kube_frontend_forge_cont.Controller.Artifact.{
  contains, artifact_configmap_is_owned_by, artifact_configmap_gc_candidates, gc_selector,
}
use kube_frontend_forge_cont.Controller.Artifact.Collected.{artifact_configmap_gc_candidates_lem}
use kube_frontend_forge_cont.Controller.Status.Labels.{
  fe_status_labels_need_patch, frontend_extension_status_labels_patch,
}
use kube_frontend_forge_cont.Controller.Status.Observe.{
  fe_status_observes_frontend_extension, fe_status_needs_patch,
}
use kube_frontend_forge_cont.Controller.Status.Patch.{frontend_extension_status_patch}
use kube_frontend_forge_cont.Controller.Calls.{Call, Answer}
use kube_frontend_forge_cont.Controller.Calls.Meets.{
  Answers, Any, Meets, Meets->>=, Meets->>, Meets-done, Meets-fail, Meets-call, Meets-request,
  Meets-reply, Meets-need,
}
use kube_frontend_forge_cont.Controller.Writes.{
  after_delete, is_not_found, delete_all, gc_artifact_configmaps, patch_fe_status_labels, observes,
  labels_for, get_fe, write_status, patch_latest, patch_fe_status,
}

module _ (said : Answers) (out : Outside) (fe : FrontendExtension) where
  -- A name that the collection may delete: that of a ConfigMap which the API server listed and the
  -- extension owns, and none of the names to keep.
  abbrev pub IsStale : List String → String → Type 0
  IsStale keep_names name =
      (contains keep_names name ≡ false)
      × ((listed : List ConfigMap) × (cm : ConfigMap) × said
            (Call.list_configmaps (gc_selector out fe)) (Answer.ok listed)
          × Memᴰ cm listed
          × (out.name_any cm.metadata ≡ name)
          × (artifact_configmap_is_owned_by cm fe ≡ true))

  abbrev pub GcCall : List String → Call → Type 0
  GcCall keep_names (Call.list_configmaps selector) = selector ≡ gc_selector out fe
  GcCall keep_names (Call.delete_configmap name) = IsStale keep_names name
  GcCall keep_names _ = ⊥

  module _ (namespace : String) (keep_names : List String) where
    after_delete-Meets :
        (name : String) (r : Answer Unit)
        → Meets said (GcCall keep_names) Any (after_delete namespace name r)
    after_delete-Meets name (Answer.ok u) = Meets-done said _ _ _ tt
    after_delete-Meets name (Answer.err e) = elim (Bool-cases (is_not_found e)) [
      | inl c ↦ rw c (Meets-done said _ _ _ tt)
      | inr c ↦ rw c (Meets-fail said _ _ _)
    ]

    delete_all-Meets :
        (names : List String)
        → All (IsStale keep_names) names
        → Meets said (GcCall keep_names) Any (delete_all namespace names)
    unfolding delete_all
    delete_all-Meets [] h = Meets-done said _ _ _ tt
    delete_all-Meets (name ∷ names) (h, hs) =
        Meets->> said _ _ _ _ (Meets-call said _ _ _ _ h (λ r _. after_delete-Meets name r))
          (delete_all-Meets names hs)

    -- Whatever the API server lists and answers, the collection deletes only ConfigMaps that the
    -- extension owns, and none whose name is to be kept.
    pub gc_artifact_configmaps-Meets :
        (retain_old_count : ℕ)
        → Meets said
            (GcCall keep_names)
            Any
            (gc_artifact_configmaps out namespace fe keep_names retain_old_count)
    unfolding gc_artifact_configmaps
    gc_artifact_configmaps-Meets retain_old_count =
        Meets->>= said _ _ _ _ _
          (Meets-reply said _ (Call.list_configmaps (gc_selector out fe)) _ refl)
          (λ configmaps s.
            delete_all-Meets
              (artifact_configmap_gc_candidates out configmaps fe keep_names retain_old_count)
              (All-imp _ (IsStale keep_names) _
                (λ name (cm, e, (listed, owned, kept)). (
                  subst (λ n. contains keep_names n ≡ false) e kept,
                  (configmaps, cm, s, listed, e, owned),
                ))
                (artifact_configmap_gc_candidates_lem out configmaps fe keep_names
                  retain_old_count)))

-- Labels that mirror the status of the extension as the API server answered it, where that status
-- is about it.
abbrev pub IsMirror : Answers → Outside → String → BTreeMap (Option String) → Type 0
IsMirror said out fe_name labels =
    (latest : FrontendExtension) × (seen : FrontendExtensionStatus) × said
      (Call.get_extension fe_name) (Answer.ok latest)
    × (latest.status ≡ some seen)
    × (fe_status_observes_frontend_extension out latest seen ≡ some true)
    × (labels ≡ frontend_extension_status_labels_patch seen)

module _ (said : Answers) (out : Outside) (fe_name : String)
    (status : FrontendExtensionStatus) where
  -- The calls that the writing of a status makes: all are about the one extension, the status that is
  -- written is the given one, and the labels mirror a status that is up to date.
  abbrev pub PatchCall : Call → Type 0
  PatchCall (Call.get_extension name) = name ≡ fe_name
  PatchCall (Call.patch_status name written) =
      (name ≡ fe_name) × (written ≡ frontend_extension_status_patch status)
  PatchCall (Call.patch_labels name labels) = (name ≡ fe_name) × IsMirror said out fe_name labels
  PatchCall _ = ⊥

  observes-Meets :
      (latest : FrontendExtension) (seen : FrontendExtensionStatus)
      → Meets said PatchCall
          (λ current. fe_status_observes_frontend_extension out latest seen ≡ some current)
          (observes out latest seen)
  observes-Meets latest seen =
      Meets->>= said _ _ _ _ _ (Meets-need said _ _ _) (λ _ _. Meets-need said _ _ _)

  labels-Meets :
      (latest : FrontendExtension) (seen : FrontendExtensionStatus)
      → IsMirror said out fe_name (frontend_extension_status_labels_patch seen)
      → Meets said PatchCall Any (patch_fe_status_labels out latest seen fe_name)
  unfolding patch_fe_status_labels
  labels-Meets latest seen h = elim (Bool-cases (fe_status_labels_need_patch latest seen)) [
    | inl e ↦ rw e (Meets-request said _ (Call.patch_labels fe_name _) _ (refl, h))
    | inr e ↦ rw e (Meets-done said _ _ _ tt)
  ]

  -- The extension as the API server answered it.
  abbrev IsRead : FrontendExtension → Type 0
  IsRead latest = said (Call.get_extension fe_name) (Answer.ok latest)

  get_fe-Meets : Meets said PatchCall IsRead (get_fe out fe_name)
  get_fe-Meets = Meets-reply said _ (Call.get_extension fe_name) _ refl

  write_status-Meets :
      (latest : FrontendExtension)
      → IsRead latest
      → Meets said PatchCall IsRead (write_status out fe_name status latest)
  write_status-Meets latest s = elim (Bool-cases (fe_status_needs_patch latest status)) [
    | inl e ↦ rw e (
        Meets->> said _ _ _ _
          (Meets-request said _ (Call.patch_status fe_name (frontend_extension_status_patch status))
            _ (refl, refl))
          get_fe-Meets)
    | inr e ↦ rw e (Meets-done said _ _ _ s)
  ]

  labels_for-Meets :
      (latest : FrontendExtension) (o : Option FrontendExtensionStatus)
      → latest.status ≡ o
      → IsRead latest
      → Meets said PatchCall Any (labels_for out fe_name latest o)
  labels_for-Meets latest none e s = Meets-done said _ _ _ tt
  labels_for-Meets latest (some seen) e s =
      Meets->>= said _ _ _ _ _ (observes-Meets latest seen) (λ current h.
        elim (Bool-cases current) [
          | inl c ↦ rw c (labels-Meets latest seen (latest, seen, s, e, ground (arith, h, c), refl))
          | inr c ↦ rw c (Meets-done said _ _ _ tt)
        ])

  patch_latest-Meets :
      (latest : FrontendExtension)
      → IsRead latest
      → Meets said PatchCall Any (patch_latest out fe_name status latest)
  patch_latest-Meets latest s =
      Meets->>= said _ _ _ _ _ (observes-Meets latest status) (λ current h.
        elim (Bool-cases current) [
          | inl c ↦ rw c (
              Meets->>= said _ _ _ _ _ (write_status-Meets latest s)
                (λ newer t. labels_for-Meets newer newer.status refl t))
          | inr c ↦ rw c (Meets-done said _ _ _ tt)
        ])

-- Whatever the API server answers, the writing of a status reads the extension by its name, writes no
-- status but the given one, and writes no labels but those that mirror the status of the extension as
-- the API server answered that reading, where the status is about it; it makes no other calls.
pub patch_fe_status-Meets :
    (said : Answers) (out : Outside) (fe : FrontendExtension) (status : FrontendExtensionStatus)
    → Meets said
        (PatchCall said out (out.name_any fe.metadata) status)
        Any
        (patch_fe_status out fe status)
unfolding patch_fe_status
patch_fe_status-Meets said out fe status =
    Meets->>= said _ _ _ _ _ (get_fe-Meets said out (out.name_any fe.metadata) status)
      (λ latest s. patch_latest-Meets said out (out.name_any fe.metadata) status latest s)
