-- ===== src/Integrations/Status.antt =====
-- The statuses of a FrontendIntegration and their merge patch
-- (crates/frontend-forge-controller/src/fi/status.rs; the serialization of crates/api/src/fi.rs).
use native.Mathlib.Decide.{ℕ_discrete}
use kube_frontend_forge_cont.Common.{
  Bool, true, false, String, String-discrete, Option, none, some, List, [], ◌==◌, is_some_of,
  if◌then◌else◌,
}
use kube_frontend_forge_cont.Api.Fields.{ℤ, DateTime}
use kube_frontend_forge_cont.Api.Kube.{Job}
use kube_frontend_forge_cont.Api.Integration.{
  FrontendIntegrationPhase, ResourceRef, LastBuildStatus, LastBuildError, SimpleCondition,
  FrontendIntegrationStatus, FrontendIntegration, JsBundle,
}
use kube_frontend_forge_cont.Outside.{Outside}
use kube_frontend_forge_cont.Controller.Integers.{or_zero}
use kube_frontend_forge_cont.Controller.Status.Patch.{
  Field, skipped, cleared, unless_empty, map_option,
}
use kube_frontend_forge_cont.Integrations.Bundle.{resource_ref, bundle_manifest_hash}
use kube_frontend_forge_cont.Integrations.Build.{observed_hash, current_last_error}

-- The parts of an old status that are kept.
unfoldable pub kept_spec_hash : Option FrontendIntegrationStatus → Option String
kept_spec_hash none = none
kept_spec_hash (some status) = status.observed_spec_hash

unfoldable pub kept_manifest_hash : Option FrontendIntegrationStatus → Option String
kept_manifest_hash none = none
kept_manifest_hash (some status) = status.observed_manifest_hash

unfoldable pub kept_last_build : Option FrontendIntegrationStatus → Option LastBuildStatus
kept_last_build none = none
kept_last_build (some status) = status.last_build

unfoldable pub kept_bundle_ref : Option FrontendIntegrationStatus → Option ResourceRef
kept_bundle_ref none = none
kept_bundle_ref (some status) = status.bundle_ref

unfoldable pub started_of : Option LastBuildStatus → Option DateTime
started_of none = none
started_of (some build) = build.started_at

module _ (out : Outside) (fi : FrontendIntegration) where
  unfoldable pub bundle_ref_of : Option JsBundle → Option ResourceRef
  bundle_ref_of none = none
  bundle_ref_of (some bundle) = some (resource_ref out bundle.metadata)

  unfoldable pub disabled_status : Option JsBundle → FrontendIntegrationStatus
  disabled_status bundle = record {
    phase = FrontendIntegrationPhase.pending;
    observed_spec_hash = kept_spec_hash fi.status;
    observed_manifest_hash = kept_manifest_hash fi.status;
    observed_generation = some (or_zero fi.metadata.generation);
    last_build = none;
    bundle_ref = bundle_ref_of bundle;
    last_error = none;
    message = some "Disabled";
    conditions = [];
  }

  -- The start of the build, if it is that of the Job.
  unfoldable pub started_by : Job → Option LastBuildStatus → Option DateTime
  started_by job none = none
  started_by job (some build) = elim (build.job_ref) [
    | none ↦ none
    | some ref ↦ if ref.name == out.name_any job.metadata then build.started_at else none
  ]

  unfoldable pub existing_build_started_at : String → Job → Option DateTime
  existing_build_started_at spec_hash job =
      if is_some_of (observed_hash fi.status) spec_hash
      then started_by job (kept_last_build fi.status)
      else none

  unfoldable pub or_now : DateTime → Option DateTime → DateTime
  or_now now none = now
  or_now now (some t) = t

  unfoldable pub building_status :
      DateTime → String → String → Job → String → FrontendIntegrationStatus
  building_status now spec_hash bundle_name job message = record {
    phase = FrontendIntegrationPhase.building;
    observed_spec_hash = some spec_hash;
    observed_manifest_hash = kept_manifest_hash fi.status;
    observed_generation = some (or_zero fi.metadata.generation);
    last_build = some (record {
      job_ref = some (resource_ref out job.metadata);
      started_at = some (or_now now (existing_build_started_at spec_hash job));
    });
    bundle_ref = some (record { name = bundle_name; namespace = none; uid = none });
    last_error = current_last_error fi spec_hash;
    message = some message;
    conditions = [];
  }

  unfoldable pub succeeded_status : String → JsBundle → Job → FrontendIntegrationStatus
  succeeded_status spec_hash bundle job = record {
    phase = FrontendIntegrationPhase.succeeded;
    observed_spec_hash = some spec_hash;
    observed_manifest_hash = bundle_manifest_hash bundle;
    observed_generation = some (or_zero fi.metadata.generation);
    last_build = some (record {
      job_ref = some (resource_ref out job.metadata);
      started_at = started_of (kept_last_build fi.status);
    });
    bundle_ref = some (resource_ref out bundle.metadata);
    last_error = none;
    message = some "Build succeeded";
    conditions = [];
  }

  -- The status where the bundle is there and its Job is gone.
  unfoldable pub bundle_ready_status : String → JsBundle → FrontendIntegrationStatus
  bundle_ready_status spec_hash bundle = record {
    phase = FrontendIntegrationPhase.succeeded;
    observed_spec_hash = some spec_hash;
    observed_manifest_hash = bundle_manifest_hash bundle;
    observed_generation = some (or_zero fi.metadata.generation);
    last_build = kept_last_build fi.status;
    bundle_ref = some (resource_ref out bundle.metadata);
    last_error = none;
    message = some "JSBundle ready";
    conditions = [];
  }

  unfoldable pub failed_status : String → LastBuildError → FrontendIntegrationStatus
  failed_status spec_hash last_error = record {
    phase = FrontendIntegrationPhase.failed;
    observed_spec_hash = some spec_hash;
    observed_manifest_hash = kept_manifest_hash fi.status;
    observed_generation = some (or_zero fi.metadata.generation);
    last_build = kept_last_build fi.status;
    bundle_ref = kept_bundle_ref fi.status;
    last_error = some last_error;
    message = some last_error.message;
    conditions = [];
  }

-- `fi.status.as_ref() != Some(desired_status)`
same_integration_status : Discrete (Option FrontendIntegrationStatus)
same_integration_status = hlevel (ℕ_discrete, String-discrete)

unfoldable pub fi_status_needs_patch : FrontendIntegration → FrontendIntegrationStatus → Bool
unfolding same_integration_status
fi_status_needs_patch fi desired_status =
    elim (same_integration_status fi.status (some desired_status)) [ yes _ ↦ false | no _ ↦ true ]

pub record ResourceRefPatch : Type 0 where
  pub name : String
  pub namespace : Field String
  pub uid : Field String

pub record LastBuildPatch : Type 0 where
  pub job_ref : Field ResourceRefPatch
  pub started_at : Field DateTime

pub record LastErrorPatch : Type 0 where
  pub source : String
  pub message : String
  pub reason : Field String
  pub occurred_at : Field DateTime

pub record IntegrationStatusPatch : Type 0 where
  pub phase : FrontendIntegrationPhase
  pub observed_spec_hash : Field String
  pub observed_manifest_hash : Field String
  pub observed_generation : Field ℤ
  pub last_build : Field LastBuildPatch
  pub bundle_ref : Field ResourceRefPatch
  pub last_error : Field LastErrorPatch
  pub message : Field String
  pub conditions : Field (List SimpleCondition)

unfoldable pub resource_ref_patch : ResourceRef → ResourceRefPatch
resource_ref_patch r = record {
  name = r.name;
  namespace = skipped r.namespace;
  uid = skipped r.uid;
}

unfoldable pub last_build_patch : LastBuildStatus → LastBuildPatch
last_build_patch b = record {
  job_ref = skipped (map_option resource_ref_patch b.job_ref);
  started_at = skipped b.started_at;
}

unfoldable pub last_error_patch : LastBuildError → LastErrorPatch
last_error_patch e = record {
  source = e.source;
  message = e.message;
  reason = skipped e.reason;
  occurred_at = skipped e.occurred_at;
}

-- A last build, a bundle and a last error that the status does not have are removed.
unfoldable pub frontend_integration_status_patch :
    FrontendIntegrationStatus → IntegrationStatusPatch
frontend_integration_status_patch s = record {
  phase = s.phase;
  observed_spec_hash = skipped s.observed_spec_hash;
  observed_manifest_hash = skipped s.observed_manifest_hash;
  observed_generation = skipped s.observed_generation;
  last_build = cleared (map_option last_build_patch s.last_build);
  bundle_ref = cleared (map_option resource_ref_patch s.bundle_ref);
  last_error = cleared (map_option last_error_patch s.last_error);
  message = skipped s.message;
  conditions = unless_empty s.conditions;
}
