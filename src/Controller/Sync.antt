-- ===== src/Controller/Sync.antt =====
-- Publish and unpublish Jobs, asked for and created (crates/common/src/lib.rs: `create_or_get_job`;
-- crates/frontend-extension-controller/src/publish.rs: `sync_publish`; unpublish.rs:
-- `sync_unpublish`, `delete_frontend_extension`).
pub mod Conduct
use kube_frontend_forge_cont.Common.{
  ℕ, Bool, true, false, String, Option, none, some, eqb, if◌then◌else◌,
}
use kube_frontend_forge_cont.Api.Kube.{Job, ConfigMap}
use kube_frontend_forge_cont.Api.Status.{PublishStatus}
use kube_frontend_forge_cont.Api.Extension.{FrontendExtension}
use kube_frontend_forge_cont.Names.{publish_job_name, unpublish_job_name}
use kube_frontend_forge_cont.Outside.{Outside}
use kube_frontend_forge_cont.Identity.{text_sha256}
use kube_frontend_forge_cont.Identity.Source.{PackageArtifactMetadata}
use kube_frontend_forge_cont.Controller.Config.{ControllerConfig}
use kube_frontend_forge_cont.Controller.Publish.{
  PublishRequest, PublishSync, RequestOutcome, publish_request_id, publish_request, publish_of,
  publish_already_finished, publish_status_from_job, is_waiting,
}
use kube_frontend_forge_cont.Controller.Publish.Make.{make_publish_job}
use kube_frontend_forge_cont.Controller.Unpublish.{
  UnpublishRequest, UnpublishSync, UnpublishOutcome, unpublish_request_id, unpublish_request,
  unpublish_of, unpublish_already_finished, unpublish_status_from_job, is_unpublish_waiting,
}
use kube_frontend_forge_cont.Controller.Unpublish.Make.{make_unpublish_job}
use kube_frontend_forge_cont.Controller.Status.{retained_publish_for_artifact_key}
use kube_frontend_forge_cont.Controller.Calls.{
  KubeError, JobError, Error, Call, Answer, Prog, done, fail, call, ◌>>=◌, request,
}

abbrev is_code : ℕ → KubeError → Bool
is_code code (KubeError.api n) = eqb n code
is_code code KubeError.other = false

-- What follows the creation's reply.
abbrev pub after_create : String → String → Answer Job → Prog Job
after_create namespace name (Answer.ok created) = done created
after_create namespace name (Answer.err e) =
    if is_code 409 e
    then request (Call.get_job name) (λ e. Error.job (JobError.get_after_conflict namespace name e))
    else fail (Error.job (JobError.create namespace name e))

unfoldable pub create_or_get_job : String → Job → String → Prog Job
create_or_get_job namespace job name = call (Call.create_job job) (after_create namespace name)

module _ (out : Outside) (fe : FrontendExtension) (config : ControllerConfig) where
  unfoldable pub publish_done_from_job : PublishRequest → Job → PublishSync
  publish_done_from_job request job =
      let status = publish_status_from_job out request job in
      record { status = some status; should_requeue = is_waiting status.phase }

  module _ (namespace : String) (artifact_key : String) (artifact : PackageArtifactMetadata)
      (artifact_cm : ConfigMap) where
    -- Where the publish Job is not there.
    abbrev pub publish_without_job : PublishRequest → String → Prog PublishSync
    publish_without_job request job_name =
        if publish_already_finished fe request artifact_key
        then done (record { status = publish_of fe.status; should_requeue = false })
        else create_or_get_job namespace
            (make_publish_job out fe config job_name request artifact artifact_cm) job_name
          >>= λ job. done (publish_done_from_job request job)

    abbrev pub publish_with : PublishRequest → String → Option Job → Prog PublishSync
    publish_with request job_name none = publish_without_job request job_name
    publish_with request job_name (some job) = done (publish_done_from_job request job)

    abbrev pub publish_outcome : RequestOutcome → Prog PublishSync
    publish_outcome RequestOutcome.stale = done (record {
      status = retained_publish_for_artifact_key fe artifact_key;
      should_requeue = false;
    })
    publish_outcome (RequestOutcome.failed status) =
        done (record { status = some status; should_requeue = false })
    publish_outcome (RequestOutcome.accepted r) =
        let job_name = publish_job_name (text_sha256 out) (out.name_any fe.metadata) r.request_id in
        request (Call.get_job_opt job_name) (Error.get_publish_job namespace job_name)
        >>= publish_with r job_name

    unfoldable pub sync_publish : Prog PublishSync
    sync_publish = elim (publish_request_id fe) [
      | none ↦ done (record {
        status = retained_publish_for_artifact_key fe artifact_key;
        should_requeue = false;
      })
      | some request_id ↦ publish_outcome (
          publish_request fe request_id fe.metadata.generation artifact.source_hash artifact.digest)
    ]

  module _ (namespace : String) where
    unfoldable pub unpublish_done_from_job : UnpublishRequest → Job → UnpublishSync
    unpublish_done_from_job request job =
        let status = unpublish_status_from_job out request job in
        record { status = some status; should_requeue = is_unpublish_waiting status.phase }

    abbrev pub unpublish_without_job : UnpublishRequest → String → Prog UnpublishSync
    unpublish_without_job request job_name =
        if unpublish_already_finished fe request
        then done (record { status = unpublish_of fe.status; should_requeue = false })
        else create_or_get_job namespace (make_unpublish_job out fe config job_name request)
            job_name
          >>= λ job. done (unpublish_done_from_job request job)

    abbrev pub unpublish_with : UnpublishRequest → String → Option Job → Prog UnpublishSync
    unpublish_with request job_name none = unpublish_without_job request job_name
    unpublish_with request job_name (some job) = done (unpublish_done_from_job request job)

    abbrev pub unpublish_outcome : UnpublishOutcome → Prog UnpublishSync
    unpublish_outcome (UnpublishOutcome.failed status) =
        done (record { status = some status; should_requeue = false })
    unpublish_outcome (UnpublishOutcome.accepted r) =
        let job_name =
          unpublish_job_name (text_sha256 out) (out.name_any fe.metadata) r.request_id in
        request (Call.get_job_opt job_name) (Error.get_unpublish_job namespace job_name)
        >>= unpublish_with r job_name

    unfoldable pub sync_unpublish : Prog UnpublishSync
    sync_unpublish = elim (unpublish_request_id fe) [
      | none ↦ done (record { status = unpublish_of fe.status; should_requeue = false })
      | some request_id ↦ unpublish_outcome (unpublish_request out fe request_id)
    ]

unfoldable pub delete_frontend_extension : String → Prog Unit
delete_frontend_extension name =
    request (Call.delete_extension name) (Error.delete_frontend_extension name)
