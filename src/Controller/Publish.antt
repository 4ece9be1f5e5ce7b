-- ===== src/Controller/Publish.antt =====
-- Publish requests and publish Jobs (crates/frontend-extension-controller/src/publish.rs); the
-- calls of `sync_publish` are in Program.
pub mod Make
pub mod Accepted
use kube_frontend_forge_cont.Common.{
  Bool, true, false, not, ◌&&◌, ◌||◌, String, Option, none, some, ◌==◌, chars, is_some_of,
  if◌then◌else◌,
}
use kube_frontend_forge_cont.Api.Fields.{
  ℤ, NamespacedResourceRef, PublishTargetKind, PublishPolicySpec,
}
use kube_frontend_forge_cont.Api.Kube.{Job}
use kube_frontend_forge_cont.Api.Status.{
  PublishPhase, PublishStatus, default_publish, FrontendExtensionStatus,
}
use kube_frontend_forge_cont.Api.Extension.{FrontendExtension, annotation, non_empty}
use kube_frontend_forge_cont.Decimal.{parse_i64}
use kube_frontend_forge_cont.Keys.{
  anno_publish_request_id, anno_publish_request_generation, anno_publish_request_source_hash,
  anno_publish_artifact_digest, anno_publish_target_kind, anno_publish_target_namespace,
  anno_publish_target_name,
}
use kube_frontend_forge_cont.Jobs.{ObservedJobPhase, observed_job_phase, extract_job_message}
use kube_frontend_forge_cont.Outside.{Outside}
use kube_frontend_forge_cont.Controller.Times.{job_started_at, job_finished_at, namespaced_ref}
use kube_frontend_forge_cont.Controller.Integers.{same_generation}
use kube_frontend_forge_cont.Controller.Artifact.{artifact_of}

pub record PublishRequest : Type 0 where
  pub request_id : String
  pub artifact_digest : String
  pub target_ref : NamespacedResourceRef
  pub target_kind : String

pub record PublishSync : Type 0 where
  pub status : Option PublishStatus
  pub should_requeue : Bool

-- `Result<PublishRequest, PublishRequestError>`
pub data RequestOutcome : Type 0 where
  accepted : PublishRequest → RequestOutcome
  stale : RequestOutcome
  failed : PublishStatus → RequestOutcome

abbrev pub or_default : Option String → String → String
or_default none s = s
or_default (some t) s = t

unfoldable pub publish_request_id : FrontendExtension → Option String
publish_request_id fe = non_empty (annotation fe.metadata anno_publish_request_id)

abbrev parsed : Option String → Option ℤ
parsed none = none
parsed (some s) = parse_i64 (chars s)

unfoldable pub publish_request_generation : FrontendExtension → Option ℤ
publish_request_generation fe = parsed (annotation fe.metadata anno_publish_request_generation)

unfoldable pub publish_request_source_hash : FrontendExtension → Option String
publish_request_source_hash fe = non_empty (annotation fe.metadata anno_publish_request_source_hash)

abbrev policy_ref : Option PublishPolicySpec → Option NamespacedResourceRef
policy_ref none = none
policy_ref (some policy) = policy.default_target_ref

unfoldable pub publish_target_ref : FrontendExtension → Option NamespacedResourceRef
publish_target_ref fe = elim (non_empty (annotation fe.metadata anno_publish_target_name)) [
  | some name ↦ some (record {
    namespace =
        or_default (non_empty (annotation fe.metadata anno_publish_target_namespace))
          "extension-frontend-forge";
    name = name;
    uid = none;
  })
  | none ↦ policy_ref fe.spec.publish_policy
]

abbrev kind_text : Option PublishTargetKind → String
kind_text none = "ConfigMap"
kind_text (some PublishTargetKind.config_map) = "ConfigMap"
kind_text (some PublishTargetKind.secret) = "Secret"

abbrev policy_kind : Option PublishPolicySpec → Option PublishTargetKind
policy_kind none = none
policy_kind (some policy) = policy.default_target_kind

unfoldable pub publish_target_kind : FrontendExtension → String
publish_target_kind fe =
    or_default (non_empty (annotation fe.metadata anno_publish_target_kind))
      (kind_text (policy_kind fe.spec.publish_policy))

-- `matches!(kind, "ConfigMap" | "Secret")`
abbrev pub is_target_kind : String → Bool
is_target_kind kind = (kind == "ConfigMap") || (kind == "Secret")

unfoldable pub failed_publish_status : String → Option String → String → PublishStatus
failed_publish_status request_id artifact_digest message = record default_publish {
  phase = PublishPhase.failed;
  request_id = some request_id;
  artifact_digest = artifact_digest;
  last_error = some message;
}

-- The end of `publish_request`, where the digest is known.
with_digest : FrontendExtension → String → String → RequestOutcome
with_digest fe request_id digest = elim (publish_target_ref fe) [
  | none ↦ failed (failed_publish_status request_id (some digest) "publish targetRef is required")
  | some target_ref ↦
      if is_target_kind (publish_target_kind fe)
      then accepted (record {
        request_id = request_id;
        artifact_digest = digest;
        target_ref = target_ref;
        target_kind = publish_target_kind fe;
      })
      else failed (
          failed_publish_status request_id (some digest)
            "publish targetKind must be ConfigMap or Secret")
]

-- The middle of it, for a requested source hash and a requested digest.
with_hash : FrontendExtension → String → String → Option String → Option String → RequestOutcome
unfolding with_digest
with_hash fe request_id current_digest none none = failed (
    failed_publish_status request_id none
      "publish artifact digest or source hash annotation is required")
with_hash fe request_id current_digest (some source_hash) none =
    with_digest fe request_id current_digest
with_hash fe request_id current_digest source_hash (some digest) =
    if digest == current_digest then with_digest fe request_id digest else stale

-- `requested.is_some() && requested != current`
abbrev pub differs_generation : Option ℤ → Option ℤ → Bool
differs_generation none current = false
differs_generation (some z) current = not (same_generation (some z) current)

abbrev pub differs_hash : Option String → String → Bool
differs_hash none current = false
differs_hash (some s) current = not (s == current)

unfoldable pub publish_request :
    FrontendExtension → String → Option ℤ → String → String → RequestOutcome
unfolding with_hash
publish_request fe request_id current_generation current_source_hash current_digest =
    if differs_generation (publish_request_generation fe) current_generation
    then stale
    else if differs_hash (publish_request_source_hash fe) current_source_hash
    then stale
    else with_hash fe request_id current_digest (publish_request_source_hash fe)
        (non_empty (annotation fe.metadata anno_publish_artifact_digest))

abbrev has_value : Option String → Bool
has_value none = false
has_value (some s) = true

-- The end of `pending_publish_for_current_source`, for the request's id and source hash.
pending_for :
    FrontendExtension → Option ℤ → String → Option String → Option String → Option PublishStatus
pending_for fe generation current_source_hash (some request_id) (some source_hash) =
    if has_value (non_empty (annotation fe.metadata anno_publish_artifact_digest))
    then none
    else if differs_generation (publish_request_generation fe) generation
    then none
    else if source_hash == current_source_hash
    then some
        (record default_publish { phase = PublishPhase.pending; request_id = some request_id })
    else none
pending_for fe generation current_source_hash _ _ = none

unfoldable pub pending_publish_for_current_source :
    FrontendExtension → Option ℤ → String → Option PublishStatus
unfolding pending_for
pending_publish_for_current_source fe generation current_source_hash =
    pending_for fe generation current_source_hash (publish_request_id fe)
      (publish_request_source_hash fe)

abbrev pub publish_of : Option FrontendExtensionStatus → Option PublishStatus
publish_of none = none
publish_of (some status) = status.publish

unfoldable pub current_status_artifact_key : FrontendExtension → Option String
current_status_artifact_key fe = elim (artifact_of fe.status) [
  | none ↦ none
  | some artifact ↦ artifact.artifact_key
]

abbrev pub is_finished : PublishPhase → Bool
is_finished PublishPhase.succeeded = true
is_finished PublishPhase.failed = true
is_finished _ = false

abbrev pub is_waiting : PublishPhase → Bool
is_waiting PublishPhase.pending = true
is_waiting PublishPhase.running = true
is_waiting _ = false

unfoldable pub publish_already_finished : FrontendExtension → PublishRequest → String → Bool
publish_already_finished fe request artifact_key = elim (publish_of fe.status) [
  | none ↦ false
  | some publish ↦
      is_some_of publish.request_id request.request_id
      && is_some_of publish.artifact_digest request.artifact_digest
      && is_some_of (current_status_artifact_key fe) artifact_key
      && is_finished publish.phase
]

abbrev publish_phase : ObservedJobPhase → PublishPhase
publish_phase ObservedJobPhase.pending = PublishPhase.pending
publish_phase ObservedJobPhase.running = PublishPhase.running
publish_phase ObservedJobPhase.succeeded = PublishPhase.succeeded
publish_phase ObservedJobPhase.failed = PublishPhase.failed

abbrev publish_error : PublishPhase → Option String → Option String
publish_error PublishPhase.failed none = some "Publish job failed"
publish_error PublishPhase.failed (some message) = some message
publish_error _ message = none

abbrev pub is_succeeded : PublishPhase → Bool
is_succeeded PublishPhase.succeeded = true
is_succeeded _ = false

unfoldable pub publish_status_from_job : Outside → PublishRequest → Job → PublishStatus
publish_status_from_job out request job =
    let phase = publish_phase (observed_job_phase job.status) in
    record {
      phase = phase;
      active = is_succeeded phase;
      request_id = some request.request_id;
      artifact_digest = some request.artifact_digest;
      job_ref = some (namespaced_ref out job.metadata);
      started_at = job_started_at out job.status;
      finished_at = job_finished_at out job.status;
      last_error = publish_error phase (extract_job_message job);
    }
