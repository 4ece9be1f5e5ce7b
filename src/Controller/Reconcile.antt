-- ===== src/Controller/Reconcile.antt =====
-- `reconcile` and `error_policy` (crates/frontend-extension-controller/src/controller.rs), and
-- `requeue_if_publish_or_unpublish_running` of status.rs. The validation of an extension
-- (crates/manifest) is a parameter: an error's text, or none.
pub mod Ready
pub mod Sound
pub mod Progress
pub mod Invalid
use kube_frontend_forge_cont.Common.{
  ℕ, zero, suc, ◌+◌, ◌-◌, Bool, true, false, ◌||◌, String, Option, none, some, List, ltb, leb,
  if◌then◌else◌,
}
use kube_frontend_forge_cont.Api.Fields.{DateTime}
use kube_frontend_forge_cont.Api.Kube.{Job, ConfigMap}
use kube_frontend_forge_cont.Api.Status.{PackageJobStatus, FrontendExtensionStatus}
use kube_frontend_forge_cont.Api.Extension.{FrontendExtension}
use kube_frontend_forge_cont.Decimal.{max_u32}
use kube_frontend_forge_cont.Names.{package_job_name, artifact_configmap_name}
use kube_frontend_forge_cont.Jobs.{ObservedJobPhase, observed_job_phase, extract_job_message}
use kube_frontend_forge_cont.Outside.{Outside}
use kube_frontend_forge_cont.Identity.{
  frontend_extension_source_hash, artifact_key, frontend_extension_package_name,
}
use kube_frontend_forge_cont.Identity.Source.{PackageArtifactMetadata}
use kube_frontend_forge_cont.Controller.Config.{ControllerConfig}
use kube_frontend_forge_cont.Controller.Package.{
  PackageAttempt, latest_package_attempt, package_job_status, package_attempts_exceeded_message,
  frontend_extension_rebuild_token,
}
use kube_frontend_forge_cont.Controller.Package.Make.{make_package_job}
use kube_frontend_forge_cont.Controller.Artifact.{
  artifact_metadata_from_configmap, artifact_gc_keep_names,
}
use kube_frontend_forge_cont.Controller.Publish.{PublishSync, or_default}
use kube_frontend_forge_cont.Controller.Unpublish.{
  UnpublishSync, apply_unpublish_sync, should_delete_after_unpublish,
}
use kube_frontend_forge_cont.Controller.Status.{
  current_or_existing_package_job, packaging_fe_status, ready_fe_status, failed_fe_status,
  apply_publish_sync,
}
use kube_frontend_forge_cont.Controller.Calls.{Error, Prog, done, ◌>>=◌, ◌>>◌, need}
use kube_frontend_forge_cont.Controller.Sync.{
  create_or_get_job, sync_publish, sync_unpublish, delete_frontend_extension,
}
use kube_frontend_forge_cont.Controller.Writes.{
  get_artifact_configmap_opt, list_package_jobs_for_artifact_key, gc_artifact_configmaps,
  patch_fe_status,
}

-- `Action`: wait for a change, or look again after so many seconds.
pub data Action : Type 0 where
  await_change : Action
  requeue : ℕ → Action

pub error_policy : Error → Action
error_policy err = Action.requeue 10

unfoldable pub requeue_if_publish_or_unpublish_running : PublishSync → UnpublishSync → ℕ → Action
requeue_if_publish_or_unpublish_running publish unpublish requeue_seconds =
    if publish.should_requeue || unpublish.should_requeue
    then Action.requeue requeue_seconds
    else Action.await_change

-- `latest.map_or(1, |attempt| attempt.attempt.saturating_add(1))`
unfoldable pub next_attempt : Option PackageAttempt → ℕ
next_attempt none = 1
next_attempt (some latest) = if ltb latest.attempt max_u32 then latest.attempt + 1 else max_u32

abbrev pub message_or : Option String → String → String
message_or message fallback = or_default message fallback

abbrev latest_message : Option PackageAttempt → String
latest_message none = "No package attempts can be created"
latest_message (some latest) =
    message_or (extract_job_message latest.job) "No package attempts can be created"

abbrev pub job_of : Option PackageAttempt → Option Job
job_of none = none
job_of (some latest) = some latest.job

module _ (out : Outside) (fe : FrontendExtension) (config : ControllerConfig) where
  abbrev namespace : String
  namespace = config.work_namespace

  abbrev artifact_ns : String
  artifact_ns = config.artifact_configmap_namespace

  -- What is known of the source: its hash, the rebuild token and the artifact key.
  module _ (source_hash : String) (rebuild_token : String) (key : String) where
    abbrev artifact_name : String
    artifact_name = artifact_configmap_name (frontend_extension_package_name out fe) key

    -- The status that is written while the artifact is there.
    unfoldable pub synced_status :
        ConfigMap
        → PackageArtifactMetadata
        → Option PackageJobStatus
        → PublishSync
        → UnpublishSync
        → FrontendExtensionStatus
    synced_status cm metadata package_job publish unpublish =
        apply_unpublish_sync
          (apply_publish_sync
            (ready_fe_status out fe source_hash rebuild_token key cm metadata package_job) publish)
          unpublish

    -- What follows the status: the deletion that was asked for, or the collection.
    abbrev pub after_ready : ConfigMap → PublishSync → UnpublishSync → Prog Action
    after_ready cm publish unpublish =
        if should_delete_after_unpublish fe unpublish
        then delete_frontend_extension (out.name_any fe.metadata) >> done Action.await_change
        else gc_artifact_configmaps out artifact_ns fe (artifact_gc_keep_names out fe cm)
            config.artifact_retain_old_count
          >> done (
              requeue_if_publish_or_unpublish_running publish unpublish
                config.reconcile_requeue_seconds)

    -- The artifact is there.
    unfoldable pub reconcile_ready :
        ConfigMap → PackageArtifactMetadata → Option PackageJobStatus → Prog Action
    reconcile_ready cm metadata package_job = do
      publish ← sync_publish out fe config namespace key metadata cm
      unpublish ← sync_unpublish out fe config namespace
      patch_fe_status out fe (synced_status cm metadata package_job publish unpublish)
      after_ready cm publish unpublish

    unfoldable pub give_up : Option Job → ℕ → String → Prog Action
    give_up job attempt latest_message =
        patch_fe_status out fe (
          failed_fe_status out fe source_hash rebuild_token key job "PackageAttemptsExceeded" (
            package_attempts_exceeded_message key attempt config.package_max_attempts
              latest_message))
        >> done Action.await_change

    unfoldable pub reconcile_packaging : Job → String → Prog Action
    reconcile_packaging job message =
        patch_fe_status out fe
          (packaging_fe_status out fe source_hash rebuild_token key job message)
        >> done (Action.requeue config.reconcile_requeue_seconds)

    abbrev pub desired_job : ℕ → Job
    desired_job attempt =
        make_package_job out fe config (package_job_name (out.name_any fe.metadata) key attempt)
          source_hash key rebuild_token artifact_name

    -- A new package Job, unless there were too many.
    unfoldable pub start_attempt : Option PackageAttempt → Prog Action
    start_attempt latest =
        if ltb config.package_max_attempts (next_attempt latest)
        then give_up (job_of latest) (next_attempt latest - 1) (latest_message latest)
        else create_or_get_job namespace (desired_job (next_attempt latest))
            (package_job_name (out.name_any fe.metadata) key (next_attempt latest))
          >>= λ job. reconcile_packaging job "Package job created"

    -- The artifact in a ConfigMap that was asked for, if it is the current one.
    abbrev pub current_artifact : Option ConfigMap → Option (ConfigMap × PackageArtifactMetadata)
    current_artifact none = none
    current_artifact (some cm) = elim (artifact_metadata_from_configmap out cm source_hash key) [
      | none ↦ none
      | some metadata ↦ some (cm, metadata)
    ]

    -- The latest Job has succeeded: its artifact may have come since the first look.
    abbrev after_success :
        PackageAttempt → Option (ConfigMap × PackageArtifactMetadata) → Prog Action
    after_success latest (some (cm, metadata)) =
        reconcile_ready cm metadata (some (package_job_status out latest.job))
    after_success latest none =
        if leb config.package_max_attempts latest.attempt
        then give_up (some latest.job) latest.attempt
            "Package job succeeded but artifact ConfigMap is missing or mismatched"
        else start_attempt (some latest)

    abbrev pub by_phase : PackageAttempt → ObservedJobPhase → Prog Action
    by_phase latest ObservedJobPhase.failed =
        if leb config.package_max_attempts latest.attempt
        then give_up (some latest.job) latest.attempt
            (message_or (extract_job_message latest.job) "Package job failed")
        else start_attempt (some latest)
    by_phase latest ObservedJobPhase.succeeded =
        get_artifact_configmap_opt artifact_ns artifact_name >>= λ cm.
        after_success latest (current_artifact cm)
    by_phase latest _ = reconcile_packaging latest.job "Package job in progress"

    -- There is no current artifact.
    unfoldable pub reconcile_package : Option PackageAttempt → Prog Action
    reconcile_package none = start_attempt none
    reconcile_package (some latest) = by_phase latest (observed_job_phase latest.job.status)

    abbrev pub after_lookup :
        Option PackageAttempt → Option (ConfigMap × PackageArtifactMetadata) → Prog Action
    after_lookup latest (some (cm, metadata)) =
        reconcile_ready cm metadata (current_or_existing_package_job out (job_of latest) fe)
    after_lookup latest none = reconcile_package latest

    abbrev pub after_validation : Option String → Option PackageAttempt → Prog Action
    after_validation (some error) latest =
        patch_fe_status out fe
          (failed_fe_status out fe source_hash rebuild_token key none "InvalidSource" error)
        >> done Action.await_change
    after_validation none latest = get_artifact_configmap_opt artifact_ns artifact_name >>= λ cm.
        after_lookup latest (current_artifact cm)

    unfoldable pub reconcile_source : Option String → Prog Action
    reconcile_source invalid =
        list_package_jobs_for_artifact_key out namespace fe key >>= λ attempts.
        after_validation invalid (latest_package_attempt out attempts)

  abbrev pub unless_deleted : (FrontendExtension → Option String) → Option DateTime → Prog Action
  unless_deleted validate_frontend_extension (some _) = done Action.await_change
  unless_deleted validate_frontend_extension none =
      let rebuild_token = frontend_extension_rebuild_token fe in
      need (frontend_extension_source_hash out fe) Error.frontend_extension_source_hash
      >>= λ source_hash.
          need (artifact_key out source_hash rebuild_token) Error.frontend_extension_artifact_key
          >>= λ key. reconcile_source source_hash rebuild_token key (validate_frontend_extension fe)

  unfoldable pub reconcile : (FrontendExtension → Option String) → Prog Action
  reconcile validate_frontend_extension =
      unless_deleted validate_frontend_extension fe.metadata.deletion_timestamp
