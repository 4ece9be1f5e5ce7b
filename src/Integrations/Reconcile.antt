-- ===== src/Integrations/Reconcile.antt =====
-- `reconcile` of the FrontendIntegration controller with the calls that it makes
-- (crates/frontend-forge-controller/src/fi: controller.rs, build.rs, jsbundle.rs, status.rs).
use kube_frontend_forge_cont.Common.{
  Bool, true, false, not, String, Option, none, some, [], ◌∷◌, ◌++◌, is_some_of, eqb, if◌then◌else◌,
}
use kube_frontend_forge_cont.Api.Fields.{DateTime}
use kube_frontend_forge_cont.Api.Kube.{OwnerReference, Job}
use kube_frontend_forge_cont.Api.Integration.{
  FrontendIntegrationStatus, FrontendIntegration, JsBundle, enabled,
}
use kube_frontend_forge_cont.Names.{default_bundle_name, job_name}
use kube_frontend_forge_cont.Jobs.{ObservedJobPhase, observed_job_phase}
use kube_frontend_forge_cont.Keys.{label_enabled}
use kube_frontend_forge_cont.Outside.{Outside}
use kube_frontend_forge_cont.Controller.Calls.{
  KubeError, Error, Call, Answer, Prog, done, fail, call, ◌>>=◌, ◌>>◌, request, need,
}
use kube_frontend_forge_cont.Controller.Sync.{create_or_get_job}
use kube_frontend_forge_cont.Controller.Reconcile.{Action}
use kube_frontend_forge_cont.Integrations.Config.{IntegrationControllerConfig}
use kube_frontend_forge_cont.Integrations.Bundle.{
  label, enabled_label_value, desired_state, bundle_matches_spec_hash, owned_by, owners_of,
  state_of,
}
use kube_frontend_forge_cont.Integrations.Build.{
  build_spec_hash, build_job_selector, latest_job, needs_new_build, should_reuse_build_job,
  make_build_job, failure_error_for_status,
}
use kube_frontend_forge_cont.Integrations.Status.{
  disabled_status, building_status, succeeded_status, bundle_ready_status, failed_status,
  fi_status_needs_patch, frontend_integration_status_patch,
}

unfoldable pub is_api_not_found : KubeError → Bool
is_api_not_found (KubeError.api n) = eqb n 404
is_api_not_found KubeError.other = false

-- A patch of a bundle that is gone counts as done.
unfoldable pub unless_gone : String → Prog (Unit {0}) → Answer (Unit {0}) → Prog (Unit {0})
unfolding is_api_not_found
unless_gone name gone (Answer.ok _) = done tt
unless_gone name gone (Answer.err e) =
    if is_api_not_found e then gone else fail (Error.patch_js_bundle name e)

unfoldable pub get_bundle_opt : String → Prog (Option JsBundle)
get_bundle_opt name = request (Call.get_bundle_opt name) (Error.get_js_bundle name)

module _ (out : Outside) where
  unfoldable pub patch_jsbundle_enabled_label_if_needed : JsBundle → Bool → Prog (Unit {0})
  patch_jsbundle_enabled_label_if_needed bundle on =
      if is_some_of (label bundle.metadata label_enabled) (enabled_label_value on)
      then done tt
      else call
          (Call.patch_bundle_labels (out.name_any bundle.metadata)
            ((label_enabled, enabled_label_value on) ∷ []))
          (unless_gone (out.name_any bundle.metadata) (done tt))

  unfoldable pub patch_jsbundle_state_if_needed : JsBundle → String → Prog (Unit {0})
  patch_jsbundle_state_if_needed bundle state =
      let name = out.name_any bundle.metadata in
      if is_some_of (state_of bundle.status) state
      then done tt
      else call (Call.patch_bundle_status name state)
          (unless_gone name (call (Call.patch_bundle name state) (unless_gone name (done tt))))

module _ (out : Outside) (fi : FrontendIntegration) where
  abbrev pub fi_name : String
  fi_name = out.name_any fi.metadata

  unfoldable pub patch_fi_enabled_label_if_needed : Prog (Unit {0})
  patch_fi_enabled_label_if_needed =
      if is_some_of (label fi.metadata label_enabled) (enabled_label_value (enabled fi.spec))
      then done tt
      else request
          (Call.patch_integration_labels fi_name
            ((label_enabled, enabled_label_value (enabled fi.spec)) ∷ []))
          (Error.patch_frontend_integration_metadata fi_name)

  abbrev pub with_owner : JsBundle → Option OwnerReference → Prog (Unit {0})
  with_owner bundle none = done tt
  with_owner bundle (some owner) =
      if owned_by owner.uid (owners_of bundle.metadata.owner_references)
      then done tt
      else call
          (Call.patch_bundle_owners (out.name_any bundle.metadata)
            (owners_of bundle.metadata.owner_references ++ (owner ∷ [])))
          (unless_gone (out.name_any bundle.metadata) (done tt))

  unfoldable pub patch_jsbundle_owner_ref_if_needed : JsBundle → Prog (Unit {0})
  patch_jsbundle_owner_ref_if_needed bundle = with_owner bundle (out.integration_owner_ref fi)

  unfoldable pub sync_jsbundle_enabled_state : JsBundle → Bool → Prog (Unit {0})
  sync_jsbundle_enabled_state bundle on =
      patch_jsbundle_owner_ref_if_needed bundle
      >> (patch_jsbundle_enabled_label_if_needed out bundle on
          >> patch_jsbundle_state_if_needed out bundle (desired_state on))

  unfoldable pub patch_fi_status : FrontendIntegrationStatus → Prog (Unit {0})
  patch_fi_status status =
      if not (fi_status_needs_patch fi status)
      then done tt
      else request
          (Call.patch_integration_status fi_name (frontend_integration_status_patch status))
          (Error.patch_frontend_integration_status fi_name)

-- `now` is `Utc::now()`, which is read at most once in a reconciliation.
module _ (out : Outside) (now : DateTime) (fi : FrontendIntegration)
    (config : IntegrationControllerConfig) where
  abbrev pub bundle_name : String
  bundle_name = default_bundle_name (fi_name out fi)

  unfoldable pub find_job_for_hash : String → Prog (Option Job)
  find_job_for_hash spec_hash =
      request (Call.list_jobs (build_job_selector out fi spec_hash))
        (Error.list_jobs_for_hash config.work_namespace (fi_name out fi) spec_hash)
      >>= λ jobs. done (latest_job jobs)

  unfoldable pub get_live_fi : Prog FrontendIntegration
  get_live_fi =
      request (Call.get_integration (fi_name out fi))
        (Error.get_frontend_integration (fi_name out fi))

  abbrev pub again : Action
  again = Action.requeue config.reconcile_requeue_seconds

  -- What comes of a build Job that has succeeded.
  unfoldable pub after_bundle : String → Job → Option JsBundle → Prog Action
  after_bundle spec_hash job none =
      patch_fi_status out fi (
        building_status out fi now spec_hash bundle_name job
          "Job succeeded; waiting for JSBundle materialization")
      >> done again
  after_bundle spec_hash job (some bundle) =
      if bundle_matches_spec_hash bundle spec_hash
      then sync_jsbundle_enabled_state out fi bundle true
        >> (patch_fi_status out fi (succeeded_status out fi spec_hash bundle job)
            >> done Action.await_change)
      else patch_fi_status out fi (
          building_status out fi now spec_hash bundle_name job
            "Job succeeded; waiting for JSBundle with matching spec-hash")
        >> done again

  abbrev pub by_job_phase : String → Job → ObservedJobPhase → Prog Action
  by_job_phase spec_hash job ObservedJobPhase.failed = do
    live ← get_live_fi
    patch_fi_status out live
        (failed_status out live spec_hash (failure_error_for_status now live spec_hash job))
    done Action.await_change
  by_job_phase spec_hash job ObservedJobPhase.succeeded =
      get_bundle_opt bundle_name >>= after_bundle spec_hash job
  by_job_phase spec_hash job _ = do
    live ← get_live_fi
    patch_fi_status out live
        (building_status out live now spec_hash bundle_name job "Build in progress")
    done again

  -- The bundle is there and its Job is not.
  abbrev pub without_job : String → Option JsBundle → Prog Action
  without_job spec_hash none = done Action.await_change
  without_job spec_hash (some bundle) =
      if bundle_matches_spec_hash bundle spec_hash
      then sync_jsbundle_enabled_state out fi bundle true
        >> (patch_fi_status out fi (bundle_ready_status out fi spec_hash bundle)
            >> done Action.await_change)
      else done Action.await_change

  abbrev pub by_job : String → Option Job → Prog Action
  by_job spec_hash (some job) = by_job_phase spec_hash job (observed_job_phase job.status)
  by_job spec_hash none = get_bundle_opt bundle_name >>= without_job spec_hash

  unfoldable pub sync_status_from_children : String → Prog Action
  sync_status_from_children spec_hash = find_job_for_hash spec_hash >>= by_job spec_hash

  unfoldable pub start_build : String → Prog Job
  start_build spec_hash =
      let name = job_name (fi_name out fi) spec_hash in
      create_or_get_job config.work_namespace
        (make_build_job out fi config name bundle_name spec_hash) name

  unfoldable pub chosen_job : String → Option JsBundle → Option Job → Prog Job
  chosen_job spec_hash bundle none = start_build spec_hash
  chosen_job spec_hash bundle (some job) =
      if should_reuse_build_job fi job bundle spec_hash then done job else start_build spec_hash

  unfoldable pub build : String → Option JsBundle → Prog Action
  build spec_hash bundle = do
    existing ← find_job_for_hash spec_hash
    job ← chosen_job spec_hash bundle existing
    patch_fi_status out fi
        (building_status out fi now spec_hash bundle_name job "Build in progress")
    done again

  unfoldable pub disable : Option JsBundle → Prog Action
  disable bundle =
      (elim bundle [ none ↦ done tt | some b ↦ sync_jsbundle_enabled_state out fi b false ])
      >> (patch_fi_status out fi (disabled_status out fi bundle) >> done Action.await_change)

  unfoldable pub with_bundle : String → Option JsBundle → Prog Action
  with_bundle spec_hash bundle =
      if not (enabled fi.spec)
      then disable bundle
      else if needs_new_build fi spec_hash bundle
      then build spec_hash bundle
      else sync_status_from_children spec_hash

  abbrev pub unless_deleting : Option DateTime → Prog Action
  unless_deleting (some _) = done Action.await_change
  unless_deleting none = do
    patch_fi_enabled_label_if_needed out fi
    spec_hash ← need (build_spec_hash out fi) Error.common
    bundle ← get_bundle_opt bundle_name
    with_bundle spec_hash bundle

  unfoldable pub reconcile_integration : Prog Action
  reconcile_integration = unless_deleting fi.metadata.deletion_timestamp
