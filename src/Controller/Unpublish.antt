-- ===== src/Controller/Unpublish.antt =====
-- Unpublish requests and unpublish Jobs (crates/frontend-extension-controller/src/unpublish.rs); the
-- calls of `sync_unpublish` and of `delete_frontend_extension` are in Program.
pub mod Make
pub mod Deactivate
use kube_frontend_forge_cont.Common.{
  Bool, true, false, ◌&&◌, String, Option, none, some, is_some_of, leb, if◌then◌else◌,
}
use kube_frontend_forge_cont.Api.Fields.{DateTime, NamespacedResourceRef}
use kube_frontend_forge_cont.Api.Kube.{Job}
use kube_frontend_forge_cont.Api.Status.{
  PublishStatus, UnpublishPhase, UnpublishStatus, default_unpublish, FrontendExtensionStatus,
}
use kube_frontend_forge_cont.Api.Extension.{FrontendExtension, annotation, non_empty}
use kube_frontend_forge_cont.Keys.{
  anno_unpublish_request_id, anno_unpublish_extension_name, anno_delete_after_unpublish_request_id,
}
use kube_frontend_forge_cont.Jobs.{ObservedJobPhase, observed_job_phase, extract_job_message}
use kube_frontend_forge_cont.Outside.{Outside}
use kube_frontend_forge_cont.Identity.{frontend_extension_package_name}
use kube_frontend_forge_cont.Controller.Times.{job_started_at, job_finished_at, namespaced_ref}
use kube_frontend_forge_cont.Controller.Publish.{
  publish_target_ref, publish_target_kind, is_target_kind, or_default,
}

pub record UnpublishRequest : Type 0 where
  pub request_id : String
  pub extension_name : String
  pub target_ref : NamespacedResourceRef
  pub target_kind : String

pub record UnpublishSync : Type 0 where
  pub status : Option UnpublishStatus
  pub should_requeue : Bool

-- `Result<UnpublishRequest, Box<UnpublishStatus>>`
pub data UnpublishOutcome : Type 0 where
  accepted : UnpublishRequest → UnpublishOutcome
  failed : UnpublishStatus → UnpublishOutcome

unfoldable pub unpublish_request_id : FrontendExtension → Option String
unpublish_request_id fe = non_empty (annotation fe.metadata anno_unpublish_request_id)

unfoldable pub failed_unpublish_status : String → Option String → String → UnpublishStatus
failed_unpublish_status request_id extension_name message = record default_unpublish {
  phase = UnpublishPhase.failed;
  request_id = some request_id;
  extension_name = extension_name;
  last_error = some message;
}

-- The end of `unpublish_request`, where the extension's name is known.
with_name : FrontendExtension → String → String → UnpublishOutcome
with_name fe request_id extension_name = elim (publish_target_ref fe) [
  | none ↦
      UnpublishOutcome.failed
        (failed_unpublish_status request_id (some extension_name) "publish targetRef is required")
  | some target_ref ↦
      if is_target_kind (publish_target_kind fe)
      then UnpublishOutcome.accepted (record {
        request_id = request_id;
        extension_name = extension_name;
        target_ref = target_ref;
        target_kind = publish_target_kind fe;
      })
      else UnpublishOutcome.failed (
          failed_unpublish_status request_id (some extension_name)
            "publish targetKind must be ConfigMap or Secret")
]

unfoldable pub unpublish_request : Outside → FrontendExtension → String → UnpublishOutcome
unfolding with_name
unpublish_request out fe request_id = with_name fe request_id (
    or_default (non_empty (annotation fe.metadata anno_unpublish_extension_name))
      (frontend_extension_package_name out fe))

abbrev pub unpublish_of : Option FrontendExtensionStatus → Option UnpublishStatus
unpublish_of none = none
unpublish_of (some status) = status.unpublish

abbrev pub is_unpublish_finished : UnpublishPhase → Bool
is_unpublish_finished UnpublishPhase.succeeded = true
is_unpublish_finished UnpublishPhase.failed = true
is_unpublish_finished _ = false

abbrev pub is_unpublish_waiting : UnpublishPhase → Bool
is_unpublish_waiting UnpublishPhase.pending = true
is_unpublish_waiting UnpublishPhase.running = true
is_unpublish_waiting _ = false

abbrev pub is_unpublish_succeeded : UnpublishPhase → Bool
is_unpublish_succeeded UnpublishPhase.succeeded = true
is_unpublish_succeeded _ = false

unfoldable pub unpublish_already_finished : FrontendExtension → UnpublishRequest → Bool
unpublish_already_finished fe request = elim (unpublish_of fe.status) [
  | none ↦ false
  | some unpublish ↦
      is_some_of unpublish.request_id request.request_id
      && is_some_of unpublish.extension_name request.extension_name
      && is_unpublish_finished unpublish.phase
]

abbrev unpublish_phase : ObservedJobPhase → UnpublishPhase
unpublish_phase ObservedJobPhase.pending = UnpublishPhase.pending
unpublish_phase ObservedJobPhase.running = UnpublishPhase.running
unpublish_phase ObservedJobPhase.succeeded = UnpublishPhase.succeeded
unpublish_phase ObservedJobPhase.failed = UnpublishPhase.failed

abbrev unpublish_error : UnpublishPhase → Option String → Option String
unpublish_error UnpublishPhase.failed none = some "Unpublish job failed"
unpublish_error UnpublishPhase.failed (some message) = some message
unpublish_error _ message = none

unfoldable pub unpublish_status_from_job : Outside → UnpublishRequest → Job → UnpublishStatus
unpublish_status_from_job out request job =
    let phase = unpublish_phase (observed_job_phase job.status) in
    record {
      phase = phase;
      request_id = some request.request_id;
      extension_name = some request.extension_name;
      job_ref = some (namespaced_ref out job.metadata);
      started_at = job_started_at out job.status;
      finished_at = job_finished_at out job.status;
      last_error = unpublish_error phase (extract_job_message job);
    }

-- `a.as_ref().or(b.as_ref())`
abbrev pub or_time : Option DateTime → Option DateTime → Option DateTime
or_time none t = t
or_time (some s) t = some s

-- Both times are known, and the second is not before the first.
abbrev not_before : Option DateTime → Option DateTime → Bool
not_before (some publish_time) (some unpublish_time) = leb publish_time unpublish_time
not_before _ _ = false

unfoldable pub unpublish_succeeded_after_publish : PublishStatus → UnpublishStatus → Bool
unpublish_succeeded_after_publish publish unpublish =
    not_before (or_time publish.finished_at publish.started_at)
      (or_time unpublish.finished_at unpublish.started_at)

-- `publish.active = false`, where it is due.
abbrev pub deactivated : Option PublishStatus → Option UnpublishStatus → Option PublishStatus
deactivated none unpublish = none
deactivated (some publish) none = some publish
deactivated (some publish) (some unpublish) =
    if is_unpublish_succeeded unpublish.phase && unpublish_succeeded_after_publish publish unpublish
    then some (record publish { active = false })
    else some publish

unfoldable pub apply_unpublish_sync :
    FrontendExtensionStatus → UnpublishSync → FrontendExtensionStatus
apply_unpublish_sync status unpublish = record status {
  unpublish = unpublish.status;
  publish = deactivated status.publish unpublish.status;
}

unfoldable pub should_delete_after_unpublish : FrontendExtension → UnpublishSync → Bool
should_delete_after_unpublish fe unpublish =
    elim (non_empty (annotation fe.metadata anno_delete_after_unpublish_request_id)) [
      | none ↦ false
      | some delete_after_request_id ↦ elim (unpublish.status) [
        | none ↦ false
        | some status ↦
            is_unpublish_succeeded status.phase
            && is_some_of status.request_id delete_after_request_id
      ]
    ]
