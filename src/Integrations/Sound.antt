-- ===== src/Integrations/Sound.antt =====
-- The calls of a reconciliation of a FrontendIntegration.
use kube_frontend_forge_cont.Common.{
  true, false, String, Option, none, some, ◌≡◌, refl, sym, inl, inr, Bool-cases, is_some_of,
}
use kube_frontend_forge_cont.Api.Fields.{DateTime}
use kube_frontend_forge_cont.Api.Kube.{Job}
use kube_frontend_forge_cont.Api.Integration.{
  FrontendIntegrationStatus, FrontendIntegration, JsBundle, enabled,
}
use kube_frontend_forge_cont.Jobs.{ObservedJobPhase, observed_job_phase}
use kube_frontend_forge_cont.Keys.{label_enabled}
use kube_frontend_forge_cont.Outside.{Outside}
use kube_frontend_forge_cont.Controller.Calls.{Call, done, ◌>>◌}
use kube_frontend_forge_cont.Controller.Calls.Meets.{
  Answers, Meets-reply, Any, Meets, Meets->>=, Meets->>, Meets-done, Meets-request, Meets-need,
  Meets-imp,
}
use kube_frontend_forge_cont.Controller.Sync.Conduct.{create_or_get_job-Meets}
use kube_frontend_forge_cont.Controller.Reconcile.{Action}
use kube_frontend_forge_cont.Integrations.Config.{IntegrationControllerConfig}
use kube_frontend_forge_cont.Integrations.Bundle.{
  label, enabled_label_value, bundle_matches_spec_hash,
}
use kube_frontend_forge_cont.Integrations.Build.{
  build_job_selector, needs_new_build, should_reuse_build_job,
}
use kube_frontend_forge_cont.Integrations.Status.{
  disabled_status, building_status, succeeded_status, bundle_ready_status, failed_status,
}
use kube_frontend_forge_cont.Integrations.Reconcile.{
  fi_name, patch_fi_enabled_label_if_needed, sync_jsbundle_enabled_state, patch_fi_status,
  find_job_for_hash, get_live_fi, after_bundle, by_job_phase, without_job, by_job,
  sync_status_from_children, start_build, chosen_job, build, disable, with_bundle, unless_deleting,
  reconcile_integration,
}
use kube_frontend_forge_cont.Integrations.Allowed.{
  IsBundle, IsFound, IsUnusable, IsLastAction, enabled_labels, SaysSo, MayCall, IsIntegrationCall,
}
use kube_frontend_forge_cont.Integrations.Bundles.{
  patch_fi_status-Meets, get-IsBundle-Meets, sync-Meets,
}

module _ (said : Answers) (out : Outside) (now : DateTime) (fi : FrontendIntegration)
    (config : IntegrationControllerConfig) where
  abbrev Last : Action → Type 0
  Last = IsLastAction said out now fi config

  abbrev Mine : Call → Type 0
  Mine = IsIntegrationCall said out now fi config

  module _ (spec_hash : String) where
    abbrev May : Call → Type 0
    May = MayCall said out now fi config spec_hash

    -- The parts of a reconciliation of an integration that is enabled.
    module _ (on : enabled fi.spec ≡ true) where
      building-SaysSo :
          (live : FrontendIntegration) (name message : String) (job : Job)
          → SaysSo said out now fi config spec_hash
              (building_status out live now spec_hash name job message)
      unfolding building_status
      building-SaysSo live name message job = inr (on, refl, inl refl)

      failed-Meets :
          (job : Job)
          → IsFound said out now fi config spec_hash (some job)
          → observed_job_phase job.status ≡ ObservedJobPhase.failed
          → Meets said May Last
              (by_job_phase out now fi config spec_hash job ObservedJobPhase.failed)
      unfolding get_live_fi failed_status
      failed-Meets job f e =
          Meets->>= said _ _ _ _ _
            (Meets-reply said _ (Call.get_integration (fi_name out fi)) _ refl)
            (λ live s.
              Meets->> said _ _ _ _
                (patch_fi_status-Meets said out now fi config spec_hash live _ (inr s)
                  (inr (on, refl, inr (inl (refl, (job, f, e))))))
                (Meets-done said _ _ _ (inl refl)))

      progress-Meets :
          (job : Job)
          → Meets said May Last
              (by_job_phase out now fi config spec_hash job ObservedJobPhase.running)
      unfolding get_live_fi
      progress-Meets job =
          Meets->>= said _ _ _ _ _
            (Meets-reply said _ (Call.get_integration (fi_name out fi)) _ refl)
            (λ live s.
              Meets->> said _ _ _ _
                (patch_fi_status-Meets said out now fi config spec_hash live _ (inr s)
                  (building-SaysSo live _ _ job))
                (Meets-done said _ _ _ (inr refl)))

      -- What is done with a bundle of this spec.
      shown-Meets :
          (bundle : JsBundle) (status : FrontendIntegrationStatus)
          → IsBundle said out now fi config (some bundle)
          → bundle_matches_spec_hash bundle spec_hash ≡ true
          → SaysSo said out now fi config spec_hash status
          → Meets said May Last (
              sync_jsbundle_enabled_state out fi bundle true
              >> (patch_fi_status out fi status >> done Action.await_change))
      shown-Meets bundle status b m h =
          Meets->> said _ _ _ _
            (sync-Meets said out now fi config spec_hash bundle (b, inr (on, m)) true (sym on))
            (Meets->> said _ _ _ _
              (patch_fi_status-Meets said out now fi config spec_hash fi status (inl refl) h)
              (Meets-done said _ _ _ (inl refl)))

      after_bundle-Meets :
          (job : Job) (o : Option JsBundle)
          → IsBundle said out now fi config o
          → Meets said May Last (after_bundle out now fi config spec_hash job o)
      unfolding after_bundle succeeded_status
      after_bundle-Meets job none b =
          Meets->> said _ _ _ _
            (patch_fi_status-Meets said out now fi config spec_hash fi _ (inl refl)
              (building-SaysSo fi _ _ job))
            (Meets-done said _ _ _ (inr refl))
      after_bundle-Meets job (some bundle) b =
          elim (Bool-cases (bundle_matches_spec_hash bundle spec_hash)) [
            | inl m ↦ rw m (
                shown-Meets bundle (succeeded_status out fi spec_hash bundle job) b m
                  (inr (on, refl, inr (inr (refl, (bundle, b, m, refl, refl))))))
            | inr m ↦ rw m (
                Meets->> said _ _ _ _
                  (patch_fi_status-Meets said out now fi config spec_hash fi _ (inl refl)
                    (building-SaysSo fi _ _ job))
                  (Meets-done said _ _ _ (inr refl)))
          ]

      by_job_phase-Meets :
          (job : Job) (phase : ObservedJobPhase)
          → IsFound said out now fi config spec_hash (some job)
          → observed_job_phase job.status ≡ phase
          → Meets said May Last (by_job_phase out now fi config spec_hash job phase)
      by_job_phase-Meets job ObservedJobPhase.failed f e = failed-Meets job f e
      by_job_phase-Meets job ObservedJobPhase.succeeded f e =
          Meets->>= said _ _ _ _ _ (get-IsBundle-Meets said out now fi config spec_hash)
            (λ o b. after_bundle-Meets job o b)
      by_job_phase-Meets job ObservedJobPhase.pending f e = progress-Meets job
      by_job_phase-Meets job ObservedJobPhase.running f e = progress-Meets job

      without_job-Meets :
          (o : Option JsBundle)
          → IsBundle said out now fi config o
          → Meets said May Last (without_job out now fi config spec_hash o)
      unfolding bundle_ready_status
      without_job-Meets none b = Meets-done said _ _ _ (inl refl)
      without_job-Meets (some bundle) b =
          elim (Bool-cases (bundle_matches_spec_hash bundle spec_hash)) [
            | inl m ↦ rw m (
                shown-Meets bundle (bundle_ready_status out fi spec_hash bundle) b m
                  (inr (on, refl, inr (inr (refl, (bundle, b, m, refl, refl))))))
            | inr m ↦ rw m (Meets-done said _ _ _ (inl refl))
          ]

      by_job-Meets :
          (o : Option Job)
          → IsFound said out now fi config spec_hash o
          → Meets said May Last (by_job out now fi config spec_hash o)
      by_job-Meets (some job) f = by_job_phase-Meets job _ f refl
      by_job-Meets none f =
          Meets->>= said _ _ _ _ _ (get-IsBundle-Meets said out now fi config spec_hash)
            (λ o b. without_job-Meets o b)

      find-Meets :
          Meets said May
            (IsFound said out now fi config spec_hash)
            (find_job_for_hash out now fi config spec_hash)
      unfolding find_job_for_hash
      find-Meets =
          Meets->>= said _ _ _ _ _
            (Meets-reply said _ (Call.list_jobs (build_job_selector out fi spec_hash)) _ (on, refl))
            (λ jobs s. Meets-done said _ _ _ (jobs, s, refl))

      children-Meets : Meets said May Last (sync_status_from_children out now fi config spec_hash)
      unfolding sync_status_from_children
      children-Meets = Meets->>= said _ _ _ _ _ find-Meets (λ o f. by_job-Meets o f)

      module _ (bundle : Option JsBundle) (read : IsBundle said out now fi config bundle)
          (needed : needs_new_build fi spec_hash bundle ≡ true) where
        start-Meets :
            (o : Option Job)
            → IsFound said out now fi config spec_hash o
            → IsUnusable said out now fi config spec_hash bundle o
            → Meets said May Any (start_build out now fi config spec_hash)
        unfolding start_build
        start-Meets o f u =
            Meets-imp said _ _ _ _ _ (λ _ p. p) (λ _ _. tt)
              (create_or_get_job-Meets said _ _ _ _ (on, (bundle, read, needed, (o, f, u)), refl)
                (on, refl))

        chosen-Meets :
            (o : Option Job)
            → IsFound said out now fi config spec_hash o
            → Meets said May Any (chosen_job out now fi config spec_hash bundle o)
        unfolding chosen_job
        chosen-Meets none f = start-Meets none f tt
        chosen-Meets (some job) f =
            elim (Bool-cases (should_reuse_build_job fi job bundle spec_hash)) [
              | inl e ↦ rw e (Meets-done said _ _ _ tt)
              | inr e ↦ rw e (start-Meets (some job) f e)
            ]

        build-Meets : Meets said May Last (build out now fi config spec_hash bundle)
        unfolding build
        build-Meets = Meets->>= said _ _ _ _ _ find-Meets (λ existing f.
            Meets->>= said _ _ _ _ _ (chosen-Meets existing f) (λ job _.
              Meets->> said _ _ _ _
                (patch_fi_status-Meets said out now fi config spec_hash fi _ (inl refl)
                  (building-SaysSo fi _ _ job))
                (Meets-done said _ _ _ (inr refl))))

    disable-Meets :
        (bundle : Option JsBundle)
        → IsBundle said out now fi config bundle
        → enabled fi.spec ≡ false
        → Meets said May Last (disable out now fi config bundle)
    unfolding disable disabled_status
    disable-Meets none read off = Meets->> said _ _ _ _ (Meets-done said _ _ _ tt) (
        Meets->> said _ _ _ _
          (patch_fi_status-Meets said out now fi config spec_hash fi _ (inl refl)
            (inl (refl, off, refl)))
          (Meets-done said _ _ _ (inl refl)))
    disable-Meets (some b) read off =
        Meets->> said _ _ _ _
          (sync-Meets said out now fi config spec_hash b (read, inl off) false (sym off))
          (Meets->> said _ _ _ _
            (patch_fi_status-Meets said out now fi config spec_hash fi _ (inl refl)
              (inl (refl, off, refl)))
            (Meets-done said _ _ _ (inl refl)))

    with_bundle-Meets :
        (bundle : Option JsBundle)
        → IsBundle said out now fi config bundle
        → Meets said May Last (with_bundle out now fi config spec_hash bundle)
    unfolding with_bundle
    with_bundle-Meets bundle read = elim (Bool-cases (enabled fi.spec)) [
      | inr off ↦ rw off (disable-Meets bundle read off)
      | inl on ↦ rw on (elim (Bool-cases (needs_new_build fi spec_hash bundle)) [
        | inl n ↦ rw n (build-Meets on bundle read n)
        | inr n ↦ rw n (children-Meets on)
      ])
    ]

  labels-Meets :
      fi.metadata.deletion_timestamp ≡ none
      → Meets said Mine Any (patch_fi_enabled_label_if_needed out fi)
  unfolding patch_fi_enabled_label_if_needed
  labels-Meets d =
      elim (Bool-cases
        (is_some_of (label fi.metadata label_enabled) (enabled_label_value (enabled fi.spec)))) [
          | inl e ↦ rw e (Meets-done said _ _ _ tt)
          | inr e ↦ rw e (
              Meets-request said _
                (Call.patch_integration_labels (fi_name out fi)
                  (enabled_labels said out now fi config))
                _ (d, inl refl))
        ]

  unless_deleting-Meets :
      (deletion : Option DateTime)
      → fi.metadata.deletion_timestamp ≡ deletion
      → Meets said Mine Last (unless_deleting out now fi config deletion)
  unless_deleting-Meets (some t) d = Meets-done said _ _ _ (inl refl)
  unless_deleting-Meets none d = Meets->> said _ _ _ _ (labels-Meets d) (
      Meets->>= said _ _ _ _ _ (Meets-need said _ _ _) (λ spec_hash h.
        Meets-imp said _ _ _ _ _ (λ c m. (d, inr (inr (spec_hash, h, m)))) (λ _ r. r)
          (Meets->>= said _ _ _ _ _ (get-IsBundle-Meets said out now fi config spec_hash)
            (λ bundle read. with_bundle-Meets spec_hash bundle read))))

  -- Whatever the API server answers, every call of a reconciliation of a FrontendIntegration is one of
  -- these, made while it is not being deleted, and the reconciliation ends by waiting for a change or
  -- by looking again after the configured time. It labels the integration with whether it is enabled;
  -- it reads the integration, its bundle and, where it is enabled, its build Jobs; it creates the build
  -- Job of the spec's hash only where it is enabled, a build is needed for the bundle that was read,
  -- and the latest build Job that was listed, if there is one, is not to be used again; it writes
  -- Pending with no last build only where it is disabled, Failed only where the latest build Job that
  -- was listed has failed, Succeeded only with the reference of a bundle that was read and has the
  -- spec's hash, and no error, and Building, Failed and Succeeded only where it is enabled, with the
  -- spec's hash; and it gives the bundle that was read the integration as an owner, the label and the
  -- state that say whether the integration is enabled, and where it is enabled only if the bundle has
  -- the spec's hash.
  pub reconcile_integration-Meets :
      Meets said
        (IsIntegrationCall said out now fi config)
        (IsLastAction said out now fi config)
        (reconcile_integration out now fi config)
  unfolding reconcile_integration
  reconcile_integration-Meets = unless_deleting-Meets fi.metadata.deletion_timestamp refl
