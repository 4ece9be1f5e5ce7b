-- ===== src/Integrations/Allowed.antt =====
-- What a reconciliation of a FrontendIntegration may call and how it may end.
use kube_frontend_forge_cont.Common.{
  true, false, String, Option, none, some, ◌≡◌, ◌⊎◌, List, [], ◌∷◌, ◌++◌,
}
use kube_frontend_forge_cont.Api.Fields.{DateTime}
use kube_frontend_forge_cont.Api.Kube.{OwnerReference, Job}
use kube_frontend_forge_cont.Api.Integration.{
  FrontendIntegrationPhase, FrontendIntegrationStatus, FrontendIntegration, JsBundle, enabled,
}
use kube_frontend_forge_cont.Names.{job_name}
use kube_frontend_forge_cont.Jobs.{ObservedJobPhase, observed_job_phase}
use kube_frontend_forge_cont.Keys.{label_enabled}
use kube_frontend_forge_cont.Outside.{Outside}
use kube_frontend_forge_cont.Controller.Calls.{Call, Answer}
use kube_frontend_forge_cont.Controller.Reconcile.{Action}
use kube_frontend_forge_cont.Integrations.Config.{IntegrationControllerConfig}
use kube_frontend_forge_cont.Integrations.Bundle.{
  enabled_label_value, desired_state, bundle_matches_spec_hash, owners_of, resource_ref,
}
use kube_frontend_forge_cont.Integrations.Build.{
  build_spec_hash, build_job_selector, needs_new_build, make_build_job, latest_job,
  should_reuse_build_job,
}
use kube_frontend_forge_cont.Integrations.Status.{frontend_integration_status_patch}
use kube_frontend_forge_cont.Integrations.Reconcile.{fi_name, bundle_name}
use kube_frontend_forge_cont.Controller.Calls.Meets.{Answers}

module _ (said : Answers) (out : Outside) (now : DateTime) (fi : FrontendIntegration)
    (config : IntegrationControllerConfig) where
  abbrev pub IsLastAction : Action → Type 0
  IsLastAction action =
      (action ≡ Action.await_change) ⊎ (action ≡ Action.requeue config.reconcile_requeue_seconds)

  -- The labels that say whether the integration is enabled.
  abbrev pub enabled_labels : List (String × String)
  enabled_labels = (label_enabled, enabled_label_value (enabled fi.spec)) ∷ []

  -- The bundle as the API server answered it.
  abbrev pub IsBundle : Option JsBundle → Type 0
  IsBundle o = said (Call.get_bundle_opt (bundle_name out now fi config)) (Answer.ok o)

  -- The integration that was given, or as the API server answered it.
  abbrev pub IsIntegration : FrontendIntegration → Type 0
  IsIntegration live = (live ≡ fi) ⊎ said (Call.get_integration (fi_name out fi)) (Answer.ok live)

  module _ (spec_hash : String) where
    -- The latest build Job among those that the API server listed, if there is one.
    abbrev pub IsFound : Option Job → Type 0
    IsFound o =
        (jobs : List Job) × said (Call.list_jobs (build_job_selector out fi spec_hash))
          (Answer.ok jobs)
        × (latest_job jobs ≡ o)

    -- A Job that is not to be used again.
    abbrev pub IsUnusable : Option JsBundle → Option Job → Type 0
    IsUnusable bundle none = Unit
    IsUnusable bundle (some job) = should_reuse_build_job fi job bundle spec_hash ≡ false

    -- A build is needed for the bundle as it was read, and no Job that was listed is to be used.
    abbrev pub NeedsJob : Type 0
    NeedsJob =
        (bundle : Option JsBundle) × IsBundle bundle
        × (needs_new_build fi spec_hash bundle ≡ true)
        × ((existing : Option Job) × IsFound existing × IsUnusable bundle existing)

    -- A bundle that was read and may be shown as it is asked for: to be available it is one of this
    -- spec.
    abbrev pub MayBeShown : JsBundle → Type 0
    MayBeShown bundle =
        IsBundle (some bundle)
        × ((enabled fi.spec ≡ false)
            ⊎ ((enabled fi.spec ≡ true) × (bundle_matches_spec_hash bundle spec_hash ≡ true)))

    -- A status that says what is so.
    abbrev pub SaysSo : FrontendIntegrationStatus → Type 0
    SaysSo status =
        ((status.phase ≡ FrontendIntegrationPhase.pending)
          × (enabled fi.spec ≡ false)
          × (status.last_build ≡ none))
        ⊎ ((enabled fi.spec ≡ true)
            × (status.observed_spec_hash ≡ some spec_hash)
            × ((status.phase ≡ FrontendIntegrationPhase.building)
                ⊎ ((status.phase ≡ FrontendIntegrationPhase.failed)
                    × ((job : Job) × IsFound (some job)
                        × (observed_job_phase job.status ≡ ObservedJobPhase.failed)))
                ⊎ ((status.phase ≡ FrontendIntegrationPhase.succeeded)
                    × ((bundle : JsBundle) × IsBundle (some bundle)
                        × (bundle_matches_spec_hash bundle spec_hash ≡ true)
                        × (status.bundle_ref ≡ some (resource_ref out bundle.metadata))
                        × (status.last_error ≡ none)))))

    -- The calls of a reconciliation once the hash of the spec is known.
    abbrev pub MayCall : Call → Type 0
    MayCall (Call.get_integration name) = name ≡ fi_name out fi
    MayCall (Call.patch_integration_status name patch) =
        (live : FrontendIntegration) × (status : FrontendIntegrationStatus) × IsIntegration live
        × (name ≡ out.name_any live.metadata)
        × (patch ≡ frontend_integration_status_patch status)
        × SaysSo status
    MayCall (Call.get_bundle_opt name) = name ≡ bundle_name out now fi config
    MayCall (Call.list_jobs selector) =
        (enabled fi.spec ≡ true) × (selector ≡ build_job_selector out fi spec_hash)
    MayCall (Call.get_job name) =
        (enabled fi.spec ≡ true) × (name ≡ job_name (fi_name out fi) spec_hash)
    MayCall (Call.create_job job) =
        (enabled fi.spec ≡ true)
        × NeedsJob
        × (job
            ≡ make_build_job out fi config (job_name (fi_name out fi) spec_hash)
                (bundle_name out now fi config) spec_hash)
    MayCall (Call.patch_bundle_owners name owners) =
        (bundle : JsBundle) × (owner : OwnerReference) × MayBeShown bundle
        × (name ≡ out.name_any bundle.metadata)
        × (out.integration_owner_ref fi ≡ some owner)
        × (owners ≡ owners_of bundle.metadata.owner_references ++ (owner ∷ []))
    MayCall (Call.patch_bundle_labels name labels) =
        (bundle : JsBundle) × MayBeShown bundle
        × (name ≡ out.name_any bundle.metadata)
        × (labels ≡ enabled_labels)
    MayCall (Call.patch_bundle_status name state) =
        (bundle : JsBundle) × MayBeShown bundle
        × (name ≡ out.name_any bundle.metadata)
        × (state ≡ desired_state (enabled fi.spec))
    MayCall (Call.patch_bundle name state) =
        (bundle : JsBundle) × MayBeShown bundle
        × (name ≡ out.name_any bundle.metadata)
        × (state ≡ desired_state (enabled fi.spec))
    MayCall _ = ⊥

  -- A call that a reconciliation of the integration may make.
  abbrev pub IsIntegrationCall : Call → Type 0
  IsIntegrationCall c =
      (fi.metadata.deletion_timestamp ≡ none)
      × ((c ≡ Call.patch_integration_labels (fi_name out fi) enabled_labels)
          ⊎ (c ≡ Call.get_bundle_opt (bundle_name out now fi config))
          ⊎ ((spec_hash : String) × (build_spec_hash out fi ≡ some spec_hash)
              × MayCall spec_hash c))
