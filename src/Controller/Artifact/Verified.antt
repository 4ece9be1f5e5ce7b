-- ===== src/Controller/Artifact/Verified.antt =====
-- When a ConfigMap counts as the current artifact
-- (crates/frontend-extension-controller/src/artifact.rs: `artifact_metadata_from_configmap`).
use kube_frontend_forge_cont.Common.{
  ℕ, String, some, List, ◌≡◌, ◌↔◌, inl, inr, ◌&◌, arith, ==_iff, is_some_of_iff, Option-cases,
}
use kube_frontend_forge_cont.Api.Kube.{ConfigMap}
use kube_frontend_forge_cont.Api.Extension.{annotation}
use kube_frontend_forge_cont.Keys.{
  anno_source_hash, anno_artifact_key, anno_artifact_digest, package_key, artifact_metadata_key,
}
use kube_frontend_forge_cont.Outside.{Outside}
use kube_frontend_forge_cont.Identity.Source.{PackageArtifactMetadata}
use kube_frontend_forge_cont.Controller.Artifact.{
  get_opt, checked, and_then_read, artifact_metadata_from_configmap,
}

module _ (out : Outside) (cm : ConfigMap) (source_hash : String) (artifact_key : String) where
  -- The ConfigMap is annotated with the source hash, the artifact key and the metadata's digest, its
  -- metadata can be read and names the source hash, and the package's bytes have the digest.
  abbrev pub IsVerified : PackageArtifactMetadata → Type 0
  IsVerified m =
      (annotation cm.metadata anno_source_hash ≡ some source_hash)
      × (annotation cm.metadata anno_artifact_key ≡ some artifact_key)
      × (and_then_read out (get_opt cm.data_map artifact_metadata_key) ≡ some m)
      × (m.source_hash ≡ source_hash)
      × ((bytes : List ℕ) × (get_opt cm.binary_data package_key ≡ some bytes)
          × (("sha256:" & out.sha256_hex bytes) ≡ m.digest))
      × (annotation cm.metadata anno_artifact_digest ≡ some m.digest)

  checked-eq-some_iff :
      (m n : PackageArtifactMetadata)
      → (checked out cm source_hash m ≡ some n) ↔ (
          (m ≡ n)
          × (m.source_hash ≡ source_hash)
          × ((bytes : List ℕ) × (get_opt cm.binary_data package_key ≡ some bytes)
              × (("sha256:" & out.sha256_hex bytes) ≡ m.digest))
          × (annotation cm.metadata anno_artifact_digest ≡ some m.digest))
  unfolding checked
  checked-eq-some_iff m n = elim (Option-cases (get_opt cm.binary_data package_key)) [
    | inl e ↦ (λ h. ground (arith, e), λ h. ground (arith, e))
    | inr (bytes, e) ↦ (
      λ h. ground (
        arith,
        ==_iff m.source_hash source_hash,
        ==_iff ("sha256:" & out.sha256_hex bytes) m.digest,
        is_some_of_iff (annotation cm.metadata anno_artifact_digest) m.digest,
      ),
      λ h. ground (
        arith,
        ==_iff m.source_hash source_hash,
        ==_iff ("sha256:" & out.sha256_hex bytes) m.digest,
        is_some_of_iff (annotation cm.metadata anno_artifact_digest) m.digest,
      ),
    )
  ]

  -- A ConfigMap is taken for the current artifact with some metadata exactly when it is annotated with
  -- the source hash, the artifact key and the metadata's digest, its metadata can be read and names
  -- the source hash, and the package's bytes have that digest.
  pub artifact_metadata_iff :
      (m : PackageArtifactMetadata)
      → (artifact_metadata_from_configmap out cm source_hash artifact_key ≡ some m) ↔ IsVerified m
  unfolding artifact_metadata_from_configmap
  artifact_metadata_iff m = (
    λ h. ground (
      arith,
      is_some_of_iff (annotation cm.metadata anno_source_hash) source_hash,
      is_some_of_iff (annotation cm.metadata anno_artifact_key) artifact_key,
      checked-eq-some_iff m m,
    ),
    λ h. ground (
      arith,
      is_some_of_iff (annotation cm.metadata anno_source_hash) source_hash,
      is_some_of_iff (annotation cm.metadata anno_artifact_key) artifact_key,
      checked-eq-some_iff m m,
    ),
  )
