-- ===== src/Api/Fields.antt =====
-- The field types that specs and statuses share (crates/api/src/fe.rs), and signed integers.
use kube_frontend_forge_cont.Common.{ℕ, String, Option}

-- An `i64`: `negsuc n` is -(n + 1). The range is a condition where it matters.
pub data ℤ : Type 0 where
  pos : ℕ → ℤ
  negsuc : ℕ → ℤ

-- A point in time, as its place in the order of time stamps: the program only compares and copies
-- the values of `DateTime<Utc>` and of the Kubernetes `Time`.
abbrev pub DateTime : Type 0
DateTime = ℕ

pub record NamespacedResourceRef : Type 0 where
  pub namespace : String
  pub name : String
  pub uid : Option String

pub data PublishTargetKind : Type 0 where
  config_map secret : PublishTargetKind

pub data PublishPolicyMode : Type 0 where
  manual : PublishPolicyMode

pub record PublishPolicySpec : Type 0 where
  pub mode : PublishPolicyMode
  pub default_target_kind : Option PublishTargetKind
  pub default_target_ref : Option NamespacedResourceRef

pub data ArtifactStorageKind : Type 0 where
  config_map : ArtifactStorageKind

pub record ArtifactStorageStatus : Type 0 where
  pub kind : ArtifactStorageKind
  pub ref : NamespacedResourceRef
  pub key : String
