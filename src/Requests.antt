-- ===== src/Requests.antt =====
-- Publish and unpublish requests of the extension API, which it leaves as annotations for the
-- controller (crates/frontend-forge-extension-api/src/publish.rs, requests.rs). The target of a request is
-- read by functions that both programs have, word for word: those of Controller.Publish.
pub mod Handover
pub mod Resolved
use kube_frontend_forge_cont.Common.{
  trim, Bool, true, false, not, ◌&&◌, ◌||◌, String, Option, none, some, List, [], ◌∷◌, ◌++◌, ◌==◌,
  ◌&◌, BTreeMap, chars, collect, insert, take, if◌then◌else◌,
}
use kube_frontend_forge_cont.Api.Fields.{ℤ, NamespacedResourceRef}
use kube_frontend_forge_cont.Api.Status.{ExtensionArtifactStatus}
use kube_frontend_forge_cont.Api.Extension.{FrontendExtension, non_empty}
use kube_frontend_forge_cont.Decimal.{decimal_signed}
use kube_frontend_forge_cont.Names.{strip_prefix_chars}
use kube_frontend_forge_cont.Keys.{
  anno_publish_request_id, anno_publish_request_generation, anno_publish_request_source_hash,
  anno_publish_artifact_digest, anno_publish_target_kind, anno_publish_target_namespace,
  anno_publish_target_name, anno_unpublish_request_id, anno_unpublish_extension_name,
  anno_delete_after_unpublish_request_id,
}
use kube_frontend_forge_cont.Outside.{Outside}
use kube_frontend_forge_cont.Identity.{
  text_sha256, frontend_extension_source_hash, frontend_extension_package_name,
}
use kube_frontend_forge_cont.Controller.Publish.{
  publish_target_ref, publish_target_kind, is_target_kind, or_default,
}

pub record ResolvedPublishRequest : Type 0 where
  pub request_id : String
  pub artifact_digest : Option String
  pub generation : Option ℤ
  pub source_hash : String
  pub target_ref : NamespacedResourceRef
  pub target_kind : String

pub record ResolvedUnpublishRequest : Type 0 where
  pub request_id : String
  pub extension_name : String
  pub target_ref : NamespacedResourceRef
  pub target_kind : String

-- `Result<_, ApiError>`: a conflict with its message, or an internal error.
pub data Resolution (A : Type 0) : Type 0 where
  resolved : A → Resolution A
  conflict : String → Resolution A
  internal_error : Resolution A

abbrev pub strip_sha256 : String → String
strip_sha256 s = elim (strip_prefix_chars (chars "sha256:") (chars s)) [
  | none ↦ s
  | some rest ↦ collect rest
]

-- The id that is made where none is given; the time stamp is that of the clock.
unfoldable pub generated_publish_request_id : String → String → String
generated_publish_request_id timestamp artifact_digest =
    "api-" & timestamp & "-" & collect (take 12 (chars (strip_sha256 artifact_digest)))

abbrev map_trim : Option String → Option String
map_trim none = none
map_trim (some s) = some (trim s)

abbrev pub or_generated : Option String → String → String
or_generated request_id generated = or_default (non_empty (map_trim request_id)) generated

abbrev pub digest_of : Option ExtensionArtifactStatus → Option String
digest_of none = none
digest_of (some artifact) = some artifact.digest

module _ (out : Outside) (timestamp : String) (fe : FrontendExtension) where
  unfoldable pub generated_unpublish_request_id : String → String
  generated_unpublish_request_id extension_name =
      "api-unpublish-"
      & timestamp
      & "-"
      & collect (take 12 (chars (text_sha256 out extension_name)))

  -- The target that both kinds of request need, with its checks.
  unfoldable pub with_target :
      {A : Type 0} → (NamespacedResourceRef → String → Resolution A) → Resolution A
  with_target continue = elim (publish_target_ref fe) [
    | none ↦ conflict "publish targetRef is required"
    | some target_ref ↦
        if (target_ref.namespace == "") || (target_ref.name == "")
        then conflict "publish targetRef namespace and name are required"
        else if is_target_kind (publish_target_kind fe)
        then continue target_ref (publish_target_kind fe)
        else conflict "publish targetKind must be ConfigMap or Secret"
  ]

  unfoldable pub publish_with_target :
      Option String
      → Option ExtensionArtifactStatus
      → NamespacedResourceRef
      → String
      → Resolution ResolvedPublishRequest
  publish_with_target request_id artifact target_ref target_kind =
      elim (frontend_extension_source_hash out fe) [
        | none ↦ internal_error
        | some source_hash ↦ resolved (record {
          request_id = or_generated request_id (
              generated_publish_request_id timestamp (or_default (digest_of artifact) source_hash));
          artifact_digest = digest_of artifact;
          generation = fe.metadata.generation;
          source_hash = source_hash;
          target_ref = target_ref;
          target_kind = target_kind;
        })
      ]

  unfoldable pub resolve_publish_request :
      Option String → Option ExtensionArtifactStatus → Resolution ResolvedPublishRequest
  resolve_publish_request request_id artifact =
      with_target (publish_with_target request_id artifact)

  unfoldable pub resolve_unpublish_request : Option String → Resolution ResolvedUnpublishRequest
  resolve_unpublish_request request_id = with_target (λ target_ref target_kind.
      let extension_name = frontend_extension_package_name out fe in
      resolved (record {
        request_id = or_generated request_id (generated_unpublish_request_id extension_name);
        extension_name = extension_name;
        target_ref = target_ref;
        target_kind = target_kind;
      }))

abbrev note_request_generation : Option ℤ → BTreeMap (Option String) → BTreeMap (Option String)
note_request_generation none annotations = annotations
note_request_generation (some generation) annotations =
    insert anno_publish_request_generation (some (collect (decimal_signed generation))) annotations

-- The `metadata.annotations` of the merge patch that `patch_publish_request` sends: a value to write, or
-- null.
unfoldable pub patch_publish_request : ResolvedPublishRequest → BTreeMap (Option String)
patch_publish_request request = insert anno_publish_artifact_digest request.artifact_digest (
    note_request_generation request.generation (
      (anno_publish_request_id, some request.request_id)
      ∷ (anno_publish_request_source_hash, some request.source_hash)
      ∷ (anno_publish_target_kind, some request.target_kind)
      ∷ (anno_publish_target_namespace, some request.target_ref.namespace)
      ∷ (anno_publish_target_name, some request.target_ref.name)
      ∷ []))

abbrev note_delete : Option String → BTreeMap (Option String) → BTreeMap (Option String)
note_delete none annotations = annotations
note_delete (some id) annotations =
    insert anno_delete_after_unpublish_request_id (some id) annotations

unfoldable pub patch_unpublish_request :
    ResolvedUnpublishRequest → Option String → BTreeMap (Option String)
patch_unpublish_request request delete_after_request_id = note_delete delete_after_request_id (
    (anno_unpublish_request_id, some request.request_id)
    ∷ (anno_unpublish_extension_name, some request.extension_name)
    ∷ (anno_publish_target_kind, some request.target_kind)
    ∷ (anno_publish_target_namespace, some request.target_ref.namespace)
    ∷ (anno_publish_target_name, some request.target_ref.name)
    ∷ [])
