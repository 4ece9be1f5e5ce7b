-- ===== src/Controller/Artifact.antt =====
-- Artifact ConfigMaps: which one holds the current package, and which ones are collected
-- (crates/frontend-extension-controller/src/artifact.rs).
pub mod Verified
pub mod Newest
pub mod Collected
use Prim.Native.Nat.{Ordering}
use Prim.Native.String.{compare}
use kube_frontend_forge_cont.Common.{
  ℕ, Bool, true, false, not, ◌&&◌, String, Option, none, some, List, [], ◌∷◌, BTreeMap, ◌==◌, ◌&◌,
  map, get, any, retain, drop, is_some_of, if◌then◌else◌,
}
use kube_frontend_forge_cont.Api.Fields.{DateTime, ArtifactStorageKind}
use kube_frontend_forge_cont.Api.Kube.{OwnerReference, ConfigMap}
use kube_frontend_forge_cont.Api.Status.{ExtensionArtifactStatus, FrontendExtensionStatus}
use kube_frontend_forge_cont.Api.Extension.{FrontendExtension, annotation}
use kube_frontend_forge_cont.Keys.{
  label_fe_name, label_package_kind, package_kind_value, anno_source_hash, anno_artifact_key,
  anno_artifact_digest, package_key, artifact_metadata_key,
}
use kube_frontend_forge_cont.Outside.{Outside}
use kube_frontend_forge_cont.Identity.Source.{PackageArtifactMetadata}
use kube_frontend_forge_cont.Controller.Package.{compare_times}

-- `map.as_ref().and_then(|map| map.get(key))`
abbrev pub get_opt {ℓ} : {V : Type ℓ} → Option (BTreeMap V) → String → Option V
get_opt none key = none
get_opt (some m) key = get m key

abbrev pub contains : List String → String → Bool
contains names name = any (λ n. n == name) names

abbrev owned_by_uid : Option (List OwnerReference) → String → Bool
owned_by_uid none uid = false
owned_by_uid (some owners) uid = any (λ (owner : OwnerReference). owner.uid == uid) owners

unfoldable pub artifact_configmap_is_owned_by : ConfigMap → FrontendExtension → Bool
artifact_configmap_is_owned_by cm fe = elim (fe.metadata.uid) [
  | none ↦ false
  | some fe_uid ↦ owned_by_uid cm.metadata.owner_references fe_uid
]

abbrev storage_name : ExtensionArtifactStatus → Option String
storage_name artifact = elim (artifact.storage.kind) [
  | ArtifactStorageKind.config_map ↦ some artifact.storage.ref.name
]

abbrev pub artifact_of : Option FrontendExtensionStatus → Option ExtensionArtifactStatus
artifact_of none = none
artifact_of (some status) = status.artifact

unfoldable pub status_artifact_configmap_name : FrontendExtension → Option String
status_artifact_configmap_name fe = elim (artifact_of fe.status) [
  | none ↦ none
  | some artifact ↦ storage_name artifact
]

abbrev pub place : Ordering → List ConfigMap → List ConfigMap → List ConfigMap
place Ordering.gt behind front = behind
place _ behind front = front

module _ (out : Outside) where
  -- A set of at most two names.
  unfoldable pub artifact_gc_keep_names : FrontendExtension → ConfigMap → List String
  unfolding status_artifact_configmap_name
  artifact_gc_keep_names fe current_cm = elim (status_artifact_configmap_name fe) [
    | none ↦ out.name_any current_cm.metadata ∷ []
    | some name ↦ name ∷ out.name_any current_cm.metadata ∷ []
  ]

  -- The comparison of `sort_by`, newest first: `a` may stand in front of `b`.
  pub compare_newest : ConfigMap → ConfigMap → Ordering
  compare_newest a b =
      elim (compare_times b.metadata.creation_timestamp a.metadata.creation_timestamp) [
        | Ordering.eq ↦ compare (out.name_any b.metadata) (out.name_any a.metadata)
        | o ↦ o
      ]

  -- `sort_by` is a stable sort: insertion behind what has to stand in front.
  pub insert_newest : ConfigMap → List ConfigMap → List ConfigMap
  insert_newest cm [] = cm ∷ []
  insert_newest cm (c ∷ cs) = place (compare_newest cm c) (c ∷ insert_newest cm cs) (cm ∷ c ∷ cs)

  pub sort_newest : List ConfigMap → List ConfigMap
  sort_newest [] = []
  sort_newest (c ∷ cs) = insert_newest c (sort_newest cs)

  pub gc_pool : List ConfigMap → FrontendExtension → List String → List ConfigMap
  gc_pool configmaps fe keep_names =
      retain (λ (cm : ConfigMap). not (contains keep_names (out.name_any cm.metadata)))
        (retain (λ cm. artifact_configmap_is_owned_by cm fe) configmaps)

  unfoldable pub artifact_configmap_gc_candidates :
      List ConfigMap → FrontendExtension → List String → ℕ → List String
  artifact_configmap_gc_candidates configmaps fe keep_names retain_old_count =
      map (λ (cm : ConfigMap). out.name_any cm.metadata)
        (drop retain_old_count (sort_newest (gc_pool configmaps fe keep_names)))

  pub gc_selector : FrontendExtension → String
  gc_selector fe =
      label_fe_name
      & "="
      & out.name_any fe.metadata
      & ","
      & label_package_kind
      & "="
      & package_kind_value

  -- The last checks of `artifact_metadata_from_configmap`, on the metadata that was read.
  checked : ConfigMap → String → PackageArtifactMetadata → Option PackageArtifactMetadata
  checked cm source_hash metadata =
      if metadata.source_hash == source_hash
      then elim (get_opt cm.binary_data package_key) [
        | none ↦ none
        | some bytes ↦
            if ("sha256:" & out.sha256_hex bytes) == metadata.digest
            then if is_some_of (annotation cm.metadata anno_artifact_digest) metadata.digest
              then some metadata
              else none
            else none
      ]
      else none

  abbrev and_then_read : Option String → Option PackageArtifactMetadata
  and_then_read none = none
  and_then_read (some content) = out.metadata_from_str content

  unfoldable pub artifact_metadata_from_configmap :
      ConfigMap → String → String → Option PackageArtifactMetadata
  unfolding checked
  artifact_metadata_from_configmap cm source_hash artifact_key =
      if is_some_of (annotation cm.metadata anno_source_hash) source_hash
      then if is_some_of (annotation cm.metadata anno_artifact_key) artifact_key
        then elim (and_then_read (get_opt cm.data_map artifact_metadata_key)) [
          | none ↦ none
          | some metadata ↦ checked cm source_hash metadata
        ]
        else none
      else none
