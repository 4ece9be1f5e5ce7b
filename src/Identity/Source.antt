-- ===== src/Identity/Source.antt =====
-- The records that are hashed, and the metadata of an artifact
-- (crates/extension-package-core/src/identity.rs, types.rs; crates/common/src/lib.rs).
use kube_frontend_forge_cont.Common.{ℕ, String, Option, List, BTreeMap}
use kube_frontend_forge_cont.Api.Fields.{DateTime}
use kube_frontend_forge_cont.Api.Spec.{
  ExtensionMaintainerSpec, ExtensionProviderSpec, ExtensionDependencySpec, ExtensionChartsSpec,
  FrontendExtensionSourceType, FrontendExtensionFrontendSpec,
}

pub record NormalizedPackageIdentity : Type 0 where
  pub name : String
  pub version : String
  pub display_name : BTreeMap String
  pub description : BTreeMap String
  pub category : Option String
  pub keywords : List String
  pub sources : List String
  pub kube_version : Option String
  pub ks_version : Option String
  pub maintainers : List ExtensionMaintainerSpec
  pub home : Option String
  pub provider : BTreeMap ExtensionProviderSpec
  pub icon : Option String
  pub static_file_directory : Option String
  pub dependencies : List ExtensionDependencySpec
  pub installation_mode : Option String
  pub images : List String
  pub charts : Option ExtensionChartsSpec

pub record NormalizedInlineSourceIdentity : Type 0 where
  pub schema_version : String
  pub frontend : FrontendExtensionFrontendSpec

pub record NormalizedSourceIdentity : Type 0 where
  pub type : FrontendExtensionSourceType
  pub inline : NormalizedInlineSourceIdentity

pub record SourceIdentity : Type 0 where
  pub package_identity : NormalizedPackageIdentity
  pub source : NormalizedSourceIdentity

pub record ArtifactKeyInput : Type 0 where
  pub key_version : String
  pub source_hash : String
  pub rebuild_token : String

pub record PackageArtifactMetadata : Type 0 where
  pub name : String
  pub version : String
  pub filename : String
  pub media_type : String
  pub digest : String
  pub size_bytes : ℕ
  pub source_hash : String
  pub generated_at : DateTime
