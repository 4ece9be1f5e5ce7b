-- ===== src/Integrations/Settled.antt =====
-- What a status that was written means for the next reconciliation
-- (crates/frontend-forge-controller/src/fi: `needs_new_build` of build.rs, the statuses of status.rs).
use kube_frontend_forge_cont.Common.{
  Bool, true, false, not, String, Option, some, ◌≡◌, ◌↔◌, ◌==◌, ◌||◌, ◌&&◌, ◌⊎◌, arith, is_some_of,
  ==_iff,
}
use kube_frontend_forge_cont.Api.Fields.{DateTime}
use kube_frontend_forge_cont.Api.Kube.{Job}
use kube_frontend_forge_cont.Api.Integration.{
  FrontendIntegrationStatus, FrontendIntegration, LastBuildError, JsBundle,
}
use kube_frontend_forge_cont.Outside.{Outside}
use kube_frontend_forge_cont.Integrations.Build.{
  or_older, observed_hash, is_building_or_failed, matching, is_unset, needs_new_build,
}
use kube_frontend_forge_cont.Integrations.Status.{
  building_status, succeeded_status, failed_status, bundle_ready_status,
}

-- A build is needed for another hash, or where nothing shows that this one is being built, has
-- failed or is there.
needed_iff :
    (same ongoing there : Bool)
    → ((not same || false || (same && not ongoing && not there)) ≡ true)
      ↔ ((same ≡ false) ⊎ ((ongoing ≡ false) × (there ≡ false)))
needed_iff false _ _ = ground arith
needed_iff true false false = ground arith
needed_iff true false true = ground arith
needed_iff true true _ = ground arith

differs_iff : (s t : String) → ((s == t) ≡ false) ↔ (¬ (s ≡ t))
differs_iff s t = ground (arith, ==_iff s t)

started_iff :
    (s t : String) (there : Bool)
    → ((not (s == t) || false || ((s == t) && not true && not there)) ≡ true) ↔ (¬ (s ≡ t))
started_iff s t there = ground (arith, needed_iff (s == t) true there, differs_iff s t)

ended_iff :
    (s t : String) (there : Bool)
    → ((not (s == t) || false || ((s == t) && not false && not there)) ≡ true)
      ↔ ((¬ (s ≡ t)) ⊎ (there ≡ false))
ended_iff s t there = ground (arith, needed_iff (s == t) false there, differs_iff s t)

module _ (out : Outside) (now : DateTime) (live fi : FrontendIntegration) (h spec_hash : String)
    (bundle : Option JsBundle) where
  -- Whether the integration, with a status that was written, is to be built.
  abbrev pub BuildsAfter : FrontendIntegrationStatus → Type 0
  BuildsAfter status = needs_new_build (record fi { status = some status }) spec_hash bundle ≡ true

  -- After a status that says Building or Failed for a hash was written, an integration is to be built
  -- exactly when its spec has another hash by then, whatever the bundle is: a build that is under way
  -- is not started again, and one that has failed is not repeated. After one that says Succeeded, it
  -- is to be built exactly when its spec has another hash or its bundle is missing or not of that spec.
  pub needs_new_build-written :
      (name message : String) (job : Job) (error : LastBuildError) (ready : JsBundle)
      → (BuildsAfter (building_status out live now h name job message) ↔ (¬ (h ≡ spec_hash)))
        × (BuildsAfter (failed_status out live h error) ↔ (¬ (h ≡ spec_hash)))
        × (BuildsAfter (succeeded_status out live h ready job)
            ↔ ((¬ (h ≡ spec_hash)) ⊎ (matching bundle spec_hash ≡ false)))
        × (BuildsAfter (bundle_ready_status out live h ready)
            ↔ ((¬ (h ≡ spec_hash)) ⊎ (matching bundle spec_hash ≡ false)))
  unfolding needs_new_build observed_hash or_older is_building_or_failed is_unset is_some_of
      building_status failed_status succeeded_status bundle_ready_status
  needs_new_build-written name message job error ready = (
    started_iff h spec_hash (matching bundle spec_hash),
    started_iff h spec_hash (matching bundle spec_hash),
    ended_iff h spec_hash (matching bundle spec_hash),
    ended_iff h spec_hash (matching bundle spec_hash),
  )
