-- ===== src/Outside.antt =====
-- What the programs take from other packages: a record of their functions, which every definition
-- that uses them is given.
use kube_frontend_forge_cont.Common.{ℕ, String, Option, some, List, ◌≡◌}
use kube_frontend_forge_cont.Api.Fields.{ℤ, DateTime}
use kube_frontend_forge_cont.Api.Kube.{ObjectMeta, OwnerReference}
use kube_frontend_forge_cont.Api.Extension.{FrontendExtension}
use kube_frontend_forge_cont.Api.Integration.{FrontendIntegrationSpec, FrontendIntegration}
use kube_frontend_forge_cont.Identity.Source.{
  SourceIdentity, ArtifactKeyInput, PackageArtifactMetadata,
}

pub record Outside : Type 0 where
  -- sha2 and hex: the digest of bytes, in hexadecimal
  pub sha256_hex : List ℕ → String
  -- the UTF-8 of a text
  pub as_bytes : String → List ℕ
  -- serde_json: canonical JSON text of a value, or an error
  pub source_json : SourceIdentity → Option String
  pub key_json : ArtifactKeyInput → Option String
  pub spec_json : FrontendIntegrationSpec → Option String
  -- serde_json: an artifact's metadata read from text
  pub metadata_from_str : String → Option PackageArtifactMetadata
  -- kube: `ResourceExt::name_any` and `Resource::controller_owner_ref`
  pub name_any : ObjectMeta → String
  pub controller_owner_ref : FrontendExtension → Option OwnerReference
  pub integration_owner_ref : FrontendIntegration → Option OwnerReference
  -- jiff and chrono: the parts of a Kubernetes time, and the instant with given parts
  pub as_second : DateTime → ℤ
  pub subsec_nanosecond : DateTime → ℤ
  pub from_timestamp : ℤ → ℕ → Option DateTime

-- The documented behaviour of `name_any`: an object that has a name is called by it.
abbrev pub NamesByName : Outside → Type 0
NamesByName out =
    (meta : ObjectMeta) (name : String) → meta.name ≡ some name → out.name_any meta ≡ name
