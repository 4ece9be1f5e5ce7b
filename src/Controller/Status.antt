-- ===== src/Controller/Status.antt =====
-- The statuses that the controller writes (crates/frontend-extension-controller/src/status.rs; and
-- `apply_publish_sync` of publish.rs); the calls of `patch_fe_status` are in Program.
pub mod Labels
pub mod Observe
pub mod Patch
pub mod Freshness
use kube_frontend_forge_cont.Common.{
  ℕ, Bool, true, false, not, ◌&&◌, String, Option, none, some, List, [], ◌∷◌, ◌++◌, ◌==◌,
  is_some_of, ltb, retain, if◌then◌else◌,
}
use kube_frontend_forge_cont.Api.Fields.{ℤ, pos, ArtifactStorageKind}
use kube_frontend_forge_cont.Api.Kube.{Job, ConfigMap}
use kube_frontend_forge_cont.Api.Status.{
  FrontendExtensionPhase, PackageJobStatus, PublishPhase, PublishStatus, ExtensionArtifactStatus,
  ExtensionDownloadStatus, ExtensionCondition, FrontendExtensionStatus,
}
use kube_frontend_forge_cont.Api.Extension.{FrontendExtension}
use kube_frontend_forge_cont.Keys.{package_key}
use kube_frontend_forge_cont.Outside.{Outside}
use kube_frontend_forge_cont.Identity.Source.{PackageArtifactMetadata}
use kube_frontend_forge_cont.Decimal.{max_i64}
use kube_frontend_forge_cont.Controller.Times.{namespaced_ref, or_empty}
use kube_frontend_forge_cont.Controller.Integers.{or_zero}
use kube_frontend_forge_cont.Controller.Package.{package_job_status, existing_package_job}
use kube_frontend_forge_cont.Controller.Artifact.{artifact_of}
use kube_frontend_forge_cont.Controller.Publish.{
  PublishSync, publish_of, is_succeeded, current_status_artifact_key,
  pending_publish_for_current_source,
}
use kube_frontend_forge_cont.Controller.Unpublish.{unpublish_of}

unfoldable pub fe_condition : String → String → String → String → Option ℤ → ExtensionCondition
fe_condition type status reason message observed_generation = record {
  type = type;
  status = status;
  reason = some reason;
  message = if message == "" then none else some message;
  observed_generation = observed_generation;
  last_transition_time = none;
}

abbrev condition_for : PublishPhase → Option String → Option ℤ → ExtensionCondition
condition_for PublishPhase.succeeded last_error generation =
    fe_condition "PublishSucceeded" "True" "Succeeded" "" generation
condition_for PublishPhase.failed last_error generation =
    fe_condition "PublishSucceeded" "False" "PublishFailed" (or_empty last_error) generation
condition_for _ last_error generation =
    fe_condition "PublishSucceeded" "False" "NotRequested" "" generation

unfoldable pub fe_publish_condition_from_status :
    Option PublishStatus → Option ℤ → ExtensionCondition
fe_publish_condition_from_status none generation =
    fe_condition "PublishSucceeded" "False" "NotRequested" "" generation
fe_publish_condition_from_status (some publish) generation =
    condition_for publish.phase publish.last_error generation

unfoldable pub fe_publish_condition : FrontendExtension → Option ℤ → ExtensionCondition
fe_publish_condition fe generation =
    fe_publish_condition_from_status (publish_of fe.status) generation

unfoldable pub retained_publish : FrontendExtension → Option PublishStatus
retained_publish fe = publish_of fe.status

unfoldable pub retained_publish_for_artifact_key : FrontendExtension → String → Option PublishStatus
retained_publish_for_artifact_key fe artifact_key = elim (retained_publish fe) [
  | none ↦ none
  | some publish ↦
      if is_some_of (current_status_artifact_key fe) artifact_key
      then some publish
      else if is_succeeded publish.phase && publish.active
      then some publish
      else none
]

-- `a.or_else(|| b)`
abbrev pub or_else_publish : Option PublishStatus → Option PublishStatus → Option PublishStatus
or_else_publish none o = o
or_else_publish (some p) o = some p

-- The publish status while there is no artifact.
unfoldable pub publish_without_artifact : FrontendExtension → String → String → Option PublishStatus
publish_without_artifact fe source_hash artifact_key =
    or_else_publish
      (pending_publish_for_current_source fe (some (or_zero fe.metadata.generation)) source_hash)
      (retained_publish_for_artifact_key fe artifact_key)

abbrev no_download : ExtensionDownloadStatus
no_download = record { ready = false; filename = ""; media_type = "" }

-- `i64::try_from(size).unwrap_or(i64::MAX)`
abbrev pub saturated : ℕ → ℤ
saturated size = if ltb max_i64 size then pos max_i64 else pos size

module _ (out : Outside) where
  unfoldable pub current_or_existing_package_job :
      Option Job → FrontendExtension → Option PackageJobStatus
  current_or_existing_package_job none fe = existing_package_job fe
  current_or_existing_package_job (some job) fe = some (package_job_status out job)

  unfoldable pub packaging_fe_status :
      FrontendExtension → String → String → String → Job → String → FrontendExtensionStatus
  packaging_fe_status fe source_hash rebuild_token artifact_key job message =
      let generation = some (or_zero fe.metadata.generation) in
      let publish = publish_without_artifact fe source_hash artifact_key in
      record {
        phase = FrontendExtensionPhase.packaging;
        observed_generation = generation;
        observed_source_hash = some source_hash;
        observed_rebuild_token = some rebuild_token;
        artifact = none;
        download = some no_download;
        package_job = some (package_job_status out job);
        publish = publish;
        unpublish = unpublish_of fe.status;
        conditions =
            fe_condition "SourceValid" "True" "Validated" "" generation
            ∷ fe_condition "ArtifactReady" "False" "Packaging" message generation
            ∷ fe_condition "DownloadReady" "False" "ArtifactNotReady" message generation
            ∷ fe_publish_condition_from_status publish generation
            ∷ [];
      }

  abbrev artifact_status : String → ConfigMap → PackageArtifactMetadata → ExtensionArtifactStatus
  artifact_status artifact_key cm metadata = record {
    storage = record {
      kind = ArtifactStorageKind.config_map;
      ref = namespaced_ref out cm.metadata;
      key = package_key;
    };
    digest = metadata.digest;
    size_bytes = saturated metadata.size_bytes;
    media_type = metadata.media_type;
    filename = metadata.filename;
    generated_at = metadata.generated_at;
    source_hash = metadata.source_hash;
    artifact_key = some artifact_key;
  }

  unfoldable pub ready_fe_status :
      FrontendExtension
      → String
      → String
      → String
      → ConfigMap
      → PackageArtifactMetadata
      → Option PackageJobStatus
      → FrontendExtensionStatus
  ready_fe_status fe source_hash rebuild_token artifact_key cm metadata package_job =
      let generation = some (or_zero fe.metadata.generation) in
      record {
        phase = FrontendExtensionPhase.ready;
        observed_generation = generation;
        observed_source_hash = some source_hash;
        observed_rebuild_token = some rebuild_token;
        artifact = some (artifact_status artifact_key cm metadata);
        download = some (record {
          ready = true;
          filename = metadata.filename;
          media_type = metadata.media_type;
        });
        package_job = package_job;
        publish = publish_of fe.status;
        unpublish = unpublish_of fe.status;
        conditions =
            fe_condition "SourceValid" "True" "Validated" "" generation
            ∷ fe_condition "ArtifactReady" "True" "Generated" "" generation
            ∷ fe_condition "DownloadReady" "True" "Available" "" generation
            ∷ fe_publish_condition fe generation
            ∷ [];
      }

  abbrev map_status : Option Job → Option PackageJobStatus
  map_status none = none
  map_status (some job) = some (package_job_status out job)

  unfoldable pub failed_fe_status :
      FrontendExtension
      → String
      → String
      → String
      → Option Job
      → String
      → String
      → FrontendExtensionStatus
  failed_fe_status fe source_hash rebuild_token artifact_key job reason message =
      let generation = some (or_zero fe.metadata.generation) in
      let publish = publish_without_artifact fe source_hash artifact_key in
      record {
        phase = FrontendExtensionPhase.failed;
        observed_generation = generation;
        observed_source_hash = some source_hash;
        observed_rebuild_token = some rebuild_token;
        artifact = none;
        download = some no_download;
        package_job = map_status job;
        publish = publish;
        unpublish = unpublish_of fe.status;
        conditions =
            fe_condition "SourceValid" (if reason == "InvalidSource" then "False" else "True")
              reason message generation
            ∷ fe_condition "ArtifactReady" "False" reason message generation
            ∷ fe_condition "DownloadReady" "False" "ArtifactNotReady" message generation
            ∷ fe_publish_condition_from_status publish generation
            ∷ [];
      }

unfoldable pub apply_publish_sync : FrontendExtensionStatus → PublishSync → FrontendExtensionStatus
apply_publish_sync status publish = record status {
  publish = publish.status;
  conditions =
      retain (λ (c : ExtensionCondition). not (c.type == "PublishSucceeded")) status.conditions
      ++ (fe_publish_condition_from_status publish.status status.observed_generation ∷ []);
}
