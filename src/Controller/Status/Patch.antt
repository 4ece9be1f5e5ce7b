-- ===== src/Controller/Status/Patch.antt =====
-- The merge patch of a status (crates/frontend-extension-controller/src/status.rs:
-- `frontend_extension_status_patch`), with the fields that serialization skips
-- (crates/api/src/fe.rs: `skip_serializing_if`).
pub mod Merge
use kube_frontend_forge_cont.Common.{ℕ, Bool, String, Option, none, some, List, [], ◌∷◌}
use kube_frontend_forge_cont.Api.Fields.{
  ℤ, DateTime, NamespacedResourceRef, ArtifactStorageKind, ArtifactStorageStatus,
}
use kube_frontend_forge_cont.Api.Status.{
  FrontendExtensionPhase, PackageJobPhase, PackageJobStatus, PublishPhase, PublishStatus,
  UnpublishPhase, UnpublishStatus, ExtensionArtifactStatus, ExtensionDownloadStatus,
  ExtensionCondition, FrontendExtensionStatus,
}

-- A field of a JSON object: it may be left out, null, or have a value.
pub data Field (A : Type 0) : Type 0 where
  left_out : Field A
  null : Field A
  value : A → Field A

-- `skip_serializing_if = "Option::is_none"`
abbrev pub skipped : {A : Type 0} → Option A → Field A
skipped none = left_out
skipped (some a) = value a

-- Null is inserted where the value is none.
abbrev pub cleared : {A : Type 0} → Option A → Field A
cleared none = null
cleared (some a) = value a

-- `skip_serializing_if = "Vec::is_empty"`
abbrev pub unless_empty : {A : Type 0} → List A → Field (List A)
unless_empty [] = left_out
unless_empty (a ∷ rest) = value (a ∷ rest)

abbrev pub map_option : {A B : Type 0} → (A → B) → Option A → Option B
map_option f none = none
map_option f (some a) = some (f a)

pub record RefPatch : Type 0 where
  pub namespace : String
  pub name : String
  pub uid : Field String

abbrev pub ref_patch : NamespacedResourceRef → RefPatch
ref_patch r = record { namespace = r.namespace; name = r.name; uid = skipped r.uid }

pub record ArtifactPatch : Type 0 where
  pub storage_kind : ArtifactStorageKind
  pub storage_ref : RefPatch
  pub storage_key : String
  pub digest : String
  pub size_bytes : ℤ
  pub media_type : String
  pub filename : String
  pub generated_at : DateTime
  pub source_hash : String
  pub artifact_key : Field String

abbrev pub artifact_patch : ExtensionArtifactStatus → ArtifactPatch
artifact_patch a = record {
  storage_kind = a.storage.kind;
  storage_ref = ref_patch a.storage.ref;
  storage_key = a.storage.key;
  digest = a.digest;
  size_bytes = a.size_bytes;
  media_type = a.media_type;
  filename = a.filename;
  generated_at = a.generated_at;
  source_hash = a.source_hash;
  artifact_key = skipped a.artifact_key;
}

pub record PackageJobPatch : Type 0 where
  pub namespace : String
  pub name : String
  pub uid : Field String
  pub phase : PackageJobPhase
  pub started_at : Field DateTime
  pub finished_at : Field DateTime
  pub message : Field String

abbrev pub package_job_patch : PackageJobStatus → PackageJobPatch
package_job_patch j = record {
  namespace = j.namespace;
  name = j.name;
  uid = skipped j.uid;
  phase = j.phase;
  started_at = skipped j.started_at;
  finished_at = skipped j.finished_at;
  message = cleared j.message;
}

pub record PublishPatch : Type 0 where
  pub phase : PublishPhase
  pub active : Bool
  pub request_id : Field String
  pub artifact_digest : Field String
  pub job_ref : Field RefPatch
  pub started_at : Field DateTime
  pub finished_at : Field DateTime
  pub last_error : Field String

abbrev pub publish_patch : PublishStatus → PublishPatch
publish_patch p = record {
  phase = p.phase;
  active = p.active;
  request_id = skipped p.request_id;
  artifact_digest = skipped p.artifact_digest;
  job_ref = skipped (map_option ref_patch p.job_ref);
  started_at = skipped p.started_at;
  finished_at = skipped p.finished_at;
  last_error = cleared p.last_error;
}

pub record UnpublishPatch : Type 0 where
  pub phase : UnpublishPhase
  pub request_id : Field String
  pub extension_name : Field String
  pub job_ref : Field RefPatch
  pub started_at : Field DateTime
  pub finished_at : Field DateTime
  pub last_error : Field String

abbrev pub unpublish_patch : UnpublishStatus → UnpublishPatch
unpublish_patch u = record {
  phase = u.phase;
  request_id = skipped u.request_id;
  extension_name = skipped u.extension_name;
  job_ref = skipped (map_option ref_patch u.job_ref);
  started_at = skipped u.started_at;
  finished_at = skipped u.finished_at;
  last_error = cleared u.last_error;
}

pub record StatusPatch : Type 0 where
  pub phase : FrontendExtensionPhase
  pub observed_generation : Field ℤ
  pub observed_source_hash : Field String
  pub observed_rebuild_token : Field String
  pub artifact : Field ArtifactPatch
  pub download : Field ExtensionDownloadStatus
  pub package_job : Field PackageJobPatch
  pub publish : Field PublishPatch
  pub unpublish : Field UnpublishPatch
  pub conditions : Field (List ExtensionCondition)

unfoldable pub frontend_extension_status_patch : FrontendExtensionStatus → StatusPatch
frontend_extension_status_patch s = record {
  phase = s.phase;
  observed_generation = skipped s.observed_generation;
  observed_source_hash = skipped s.observed_source_hash;
  observed_rebuild_token = skipped s.observed_rebuild_token;
  artifact = cleared (map_option artifact_patch s.artifact);
  download = cleared s.download;
  package_job = cleared (map_option package_job_patch s.package_job);
  publish = cleared (map_option publish_patch s.publish);
  unpublish = cleared (map_option unpublish_patch s.unpublish);
  conditions = unless_empty s.conditions;
}
