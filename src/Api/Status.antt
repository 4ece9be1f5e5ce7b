-- ===== src/Api/Status.antt =====
-- FrontendExtensionStatus and its parts (crates/api/src/fe.rs).
use kube_frontend_forge_cont.Common.{Bool, String, Option, none, List, false}
use kube_frontend_forge_cont.Api.Fields.{ℤ, DateTime, NamespacedResourceRef, ArtifactStorageStatus}

pub data FrontendExtensionPhase : Type 0 where
  pending packaging ready failed : FrontendExtensionPhase

pub data PackageJobPhase : Type 0 where
  pending running succeeded failed : PackageJobPhase

pub data PublishPhase : Type 0 where
  not_requested pending running succeeded failed : PublishPhase

pub data UnpublishPhase : Type 0 where
  not_requested pending running succeeded failed : UnpublishPhase

pub record ExtensionArtifactStatus : Type 0 where
  pub storage : ArtifactStorageStatus
  pub digest : String
  pub size_bytes : ℤ
  pub media_type : String
  pub filename : String
  pub generated_at : DateTime
  pub source_hash : String
  pub artifact_key : Option String

pub record ExtensionDownloadStatus : Type 0 where
  pub ready : Bool
  pub filename : String
  pub media_type : String

pub record PackageJobStatus : Type 0 where
  pub namespace : String
  pub name : String
  pub uid : Option String
  pub phase : PackageJobPhase
  pub started_at : Option DateTime
  pub finished_at : Option DateTime
  pub message : Option String

pub record PublishStatus : Type 0 where
  pub phase : PublishPhase
  pub active : Bool
  pub request_id : Option String
  pub artifact_digest : Option String
  pub job_ref : Option NamespacedResourceRef
  pub started_at : Option DateTime
  pub finished_at : Option DateTime
  pub last_error : Option String

-- `PublishStatus::default()`
abbrev pub default_publish : PublishStatus
default_publish = record {
  phase = PublishPhase.not_requested;
  active = false;
  request_id = none;
  artifact_digest = none;
  job_ref = none;
  started_at = none;
  finished_at = none;
  last_error = none;
}

pub record UnpublishStatus : Type 0 where
  pub phase : UnpublishPhase
  pub request_id : Option String
  pub extension_name : Option String
  pub job_ref : Option NamespacedResourceRef
  pub started_at : Option DateTime
  pub finished_at : Option DateTime
  pub last_error : Option String

-- `UnpublishStatus::default()`
abbrev pub default_unpublish : UnpublishStatus
default_unpublish = record {
  phase = UnpublishPhase.not_requested;
  request_id = none;
  extension_name = none;
  job_ref = none;
  started_at = none;
  finished_at = none;
  last_error = none;
}

pub record ExtensionCondition : Type 0 where
  pub type : String
  pub status : String
  pub reason : Option String
  pub message : Option String
  pub observed_generation : Option ℤ
  pub last_transition_time : Option DateTime

pub record FrontendExtensionStatus : Type 0 where
  pub phase : FrontendExtensionPhase
  pub observed_generation : Option ℤ
  pub observed_source_hash : Option String
  pub observed_rebuild_token : Option String
  pub artifact : Option ExtensionArtifactStatus
  pub download : Option ExtensionDownloadStatus
  pub package_job : Option PackageJobStatus
  pub publish : Option PublishStatus
  pub unpublish : Option UnpublishStatus
  pub conditions : List ExtensionCondition
