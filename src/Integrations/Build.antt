-- ===== src/Integrations/Build.antt =====
-- Whether to build, with which Job, and that Job (crates/frontend-forge-controller/src/fi/build.rs).
use kube_frontend_forge_cont.Common.{
  Bool, true, false, not, ◌&&◌, ◌||◌, String, Option, none, some, List, [], ◌∷◌, BTreeMap, insert,
  collect, ◌&◌, leb, find, is_some_of, if◌then◌else◌,
}
use kube_frontend_forge_cont.Api.Fields.{ℤ, DateTime}
use kube_frontend_forge_cont.Api.Kube.{EnvVar, JobCondition, Job}
use kube_frontend_forge_cont.Api.Integration.{
  FrontendIntegrationPhase, FrontendIntegrationStatus, FrontendIntegration, LastBuildError,
  JsBundle, without_enabled,
}
use kube_frontend_forge_cont.Decimal.{decimal, decimal_signed}
use kube_frontend_forge_cont.Names.{hash_label_value}
use kube_frontend_forge_cont.Jobs.{
  ObservedJobPhase, observed_job_phase, extract_job_message, conditions_of, holds,
}
use kube_frontend_forge_cont.Keys.{
  managed_by_value, label_managed_by, label_fi_name, label_spec_hash, label_build_kind,
  build_kind_value, anno_observed_generation,
}
use kube_frontend_forge_cont.Outside.{Outside}
use kube_frontend_forge_cont.Identity.{hash_of}
use kube_frontend_forge_cont.Controller.JobShape.{env_var, one_container_job}
use kube_frontend_forge_cont.Integrations.Config.{IntegrationControllerConfig}
use kube_frontend_forge_cont.Integrations.Bundle.{bundle_matches_spec_hash}

-- The hash that the status has observed, of the spec or in an older field.
unfoldable pub or_older : Option String → Option String → Option String
or_older (some s) older = some s
or_older none older = older

unfoldable pub observed_hash : Option FrontendIntegrationStatus → Option String
unfolding or_older
observed_hash none = none
observed_hash (some status) = or_older status.observed_spec_hash status.observed_manifest_hash

-- `Some(Building | Failed)`
unfoldable pub is_building_or_failed : Option FrontendIntegrationStatus → Bool
is_building_or_failed none = false
is_building_or_failed (some status) = elim (status.phase) [
  | FrontendIntegrationPhase.building ↦ true
  | FrontendIntegrationPhase.failed ↦ true
  | _ ↦ false
]

unfoldable pub is_failed : Option FrontendIntegrationStatus → Bool
is_failed none = false
is_failed (some status) = elim (status.phase) [ FrontendIntegrationPhase.failed ↦ true | _ ↦ false ]

unfoldable pub matching : Option JsBundle → String → Bool
matching none spec_hash = false
matching (some bundle) spec_hash = bundle_matches_spec_hash bundle spec_hash

unfoldable pub is_unset : Option FrontendIntegrationStatus → Bool
is_unset none = true
is_unset (some status) = false

unfoldable pub needs_new_build : FrontendIntegration → String → Option JsBundle → Bool
needs_new_build fi spec_hash bundle =
    not (is_some_of (observed_hash fi.status) spec_hash)
    || is_unset fi.status
    || (is_some_of (observed_hash fi.status) spec_hash
        && not (is_building_or_failed fi.status)
        && not (matching bundle spec_hash))

abbrev reusable : FrontendIntegration → Option JsBundle → String → ObservedJobPhase → Bool
reusable fi bundle spec_hash ObservedJobPhase.pending = true
reusable fi bundle spec_hash ObservedJobPhase.running = true
reusable fi bundle spec_hash ObservedJobPhase.succeeded =
    matching bundle spec_hash && not (is_failed fi.status)
reusable fi bundle spec_hash ObservedJobPhase.failed = false

unfoldable pub should_reuse_build_job : FrontendIntegration → Job → Option JsBundle → String → Bool
should_reuse_build_job fi job bundle spec_hash =
    reusable fi bundle spec_hash (observed_job_phase job.status)

-- The order of `Option<Time>`.
unfoldable pub not_later : Option DateTime → Option DateTime → Bool
not_later none t = true
not_later (some s) none = false
not_later (some s) (some t) = leb s t

-- `sort_by_key` on the creation time, which keeps the order of equals.
unfoldable pub insert_by_creation : Job → List Job → List Job
insert_by_creation job [] = job ∷ []
insert_by_creation job (j ∷ js) =
    if not_later job.metadata.creation_timestamp j.metadata.creation_timestamp
    then job ∷ j ∷ js
    else j ∷ insert_by_creation job js

unfoldable pub sort_by_creation : List Job → List Job
sort_by_creation [] = []
sort_by_creation (job ∷ jobs) = insert_by_creation job (sort_by_creation jobs)

-- `items.pop()`
unfoldable pub pop : List Job → Option Job
pop [] = none
pop (job ∷ []) = some job
pop (job ∷ j ∷ js) = pop (j ∷ js)

unfoldable pub latest_job : List Job → Option Job
latest_job jobs = pop (sort_by_creation jobs)

-- The last error, if it is one of this spec.
unfoldable pub current_last_error : FrontendIntegration → String → Option LastBuildError
current_last_error fi spec_hash = elim (fi.status) [
  | none ↦ none
  | some status ↦ if is_some_of status.observed_spec_hash spec_hash then status.last_error else none
]

-- `now` is `Utc::now()`.
module _ (now : DateTime) where
  unfoldable pub job_error : Option String → Option String → Option LastBuildError
  job_error none reason = none
  job_error (some message) reason =
      some (record { source = "job"; message = message; reason = reason; occurred_at = some now })

  unfoldable pub condition_error : Option JobCondition → Option LastBuildError
  unfolding or_older
  condition_error none = none
  condition_error (some cond) = job_error (or_older cond.message cond.reason) cond.reason

  unfoldable pub extract_job_error : Job → Option LastBuildError
  extract_job_error job = elim (job.status) [
    | none ↦ none
    | some status ↦ condition_error (find (holds "Failed") (conditions_of status.conditions))
  ]

  unfoldable pub message_or_default : Option String → String
  message_or_default none = "Build job failed"
  message_or_default (some message) = message

  unfoldable pub error_or : Option LastBuildError → LastBuildError → LastBuildError
  error_or none e = e
  error_or (some e) other = e

  unfoldable pub failure_error_for_status : FrontendIntegration → String → Job → LastBuildError
  failure_error_for_status fi spec_hash job = error_or (current_last_error fi spec_hash) (
      error_or (extract_job_error job) (record {
        source = "job";
        message = message_or_default (extract_job_message job);
        reason = some "JobFailed";
        occurred_at = some now;
      }))

unfoldable pub build_labels_for : String → String → BTreeMap String
build_labels_for fi_name spec_hash =
    (label_managed_by, managed_by_value)
    ∷ (label_fi_name, fi_name)
    ∷ (label_spec_hash, hash_label_value spec_hash)
    ∷ []

unfoldable pub build_annotations : Option ℤ → BTreeMap String
build_annotations none = []
build_annotations (some generation) =
    (anno_observed_generation, collect (decimal_signed generation)) ∷ []

module _ (out : Outside) (fi : FrontendIntegration) where
  unfoldable pub build_spec_hash : Option String
  build_spec_hash = hash_of out (out.spec_json (without_enabled fi.spec))

  unfoldable pub build_job_selector : String → String
  build_job_selector spec_hash =
      label_fi_name
      & "="
      & out.name_any fi.metadata
      & ","
      & label_spec_hash
      & "="
      & hash_label_value spec_hash

  unfoldable pub build_env : IntegrationControllerConfig → String → String → List EnvVar
  build_env config jsbundle_name spec_hash =
      env_var "FI_NAME" (out.name_any fi.metadata)
      ∷ env_var "SPEC_HASH" spec_hash
      ∷ env_var "JSBUNDLE_NAME" jsbundle_name
      ∷ env_var "BUILD_SERVICE_BASE_URL" config.build_service_base_url
      ∷ env_var "JSBUNDLE_CONFIGMAP_NAMESPACE" config.jsbundle_configmap_namespace
      ∷ env_var "JSBUNDLE_CONFIG_KEY" config.jsbundle_config_key
      ∷ env_var "BUILD_SERVICE_TIMEOUT_SECONDS"
          (collect (decimal config.build_service_timeout_seconds))
      ∷ env_var "STALE_CHECK_GRACE_SECONDS" (collect (decimal config.stale_check_grace_seconds))
      ∷ []

  unfoldable pub make_build_job : IntegrationControllerConfig → String → String → String → Job
  make_build_job config job_name jsbundle_name spec_hash =
      one_container_job config.work_namespace config.job_active_deadline_seconds
        config.job_ttl_seconds_after_finished job_name
        (insert label_build_kind build_kind_value
          (build_labels_for (out.name_any fi.metadata) spec_hash))
        (build_annotations fi.metadata.generation) (out.integration_owner_ref fi)
        "frontend-forge-runner" "runner" config.runner_image config.runner_service_account
        (build_env config jsbundle_name spec_hash)
