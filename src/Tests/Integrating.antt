-- ===== src/Tests/Integrating.antt =====
-- A FrontendIntegration that is enabled and was never built, and its migration.
use kube_frontend_forge_cont.Common.{
  String, none, some, [], ◌≡◌, refl, ◌↔◌, ◌⊎◌, ◌≤◌, ◌<◌, ◌&◌, collect, take, ◌==◌, BTreeMap, Option,
  false, if◌then◌else◌, len, chars, arith, All, trim,
}
use kube_frontend_forge_cont.Api.Fields.{pos, PublishTargetKind}
use kube_frontend_forge_cont.Api.Integration.{FrontendIntegration, LastBuildError, JsBundle}
use kube_frontend_forge_cont.Controller.Calls.Meets.{Meets}
use kube_frontend_forge_cont.Integrations.Config.{IntegrationControllerConfig}
use kube_frontend_forge_cont.Integrations.Reconcile.{reconcile_integration}
use kube_frontend_forge_cont.Integrations.Allowed.{IsIntegrationCall, IsLastAction}
use kube_frontend_forge_cont.Integrations.Sound.{reconcile_integration-Meets}
use kube_frontend_forge_cont.Api.Kube.{Job}
use kube_frontend_forge_cont.Api.Status.{PublishPhase, default_publish}
use kube_frontend_forge_cont.Api.Extension.{non_empty}
use kube_frontend_forge_cont.Identity.{text_sha256, frontend_extension_source_hash}
use kube_frontend_forge_cont.Names.Shape.{IsNameChar}
use kube_frontend_forge_cont.Controller.Publish.{
  RequestOutcome, publish_request, pending_publish_for_current_source,
}
use kube_frontend_forge_cont.Integrations.Build.{matching}
use kube_frontend_forge_cont.Integrations.Status.{
  building_status, failed_status, succeeded_status, bundle_ready_status,
}
use kube_frontend_forge_cont.Integrations.Settled.{BuildsAfter, needs_new_build-written}
use kube_frontend_forge_cont.Migration.Naming.{migrated_fe_name, migrated_fe_name_bounds}
use kube_frontend_forge_cont.Migration.Config.{
  MigratorConfig, ok, ◌>>=◌, from_env, env_or, required_env, optional_env, parse_env_u64,
  parse_publish_target_kind,
}
use kube_frontend_forge_cont.Migration.Publish.{
  publish_target_kind_value, migration_request_id, publish_intent,
}
use kube_frontend_forge_cont.Migration.Handover.{asked, target_of, publish_request-publish_intent}
use kube_frontend_forge_cont.Controller.Calls.Run.{answers}
use kube_frontend_forge_cont.Tests.Data.{server_of, packages, named, extension, requests, job_named}

abbrev integration : FrontendIntegration
integration = record {
  metadata = named "demo" [];
  spec = record {
    display_name = some "Demo";
    locales = [];
    enabled = none;
    menus = [];
    pages = [];
    builder = none;
  };
  status = none;
}

abbrev settings : IntegrationControllerConfig
settings = record {
  work_namespace = "extension-frontend-forge";
  runner_image = "runner";
  runner_service_account = none;
  build_service_base_url = "http://build";
  jsbundle_configmap_namespace = "extension-frontend-forge";
  jsbundle_config_key = "index.js";
  build_service_timeout_seconds = 600;
  stale_check_grace_seconds = 30;
  reconcile_requeue_seconds = 10;
  job_active_deadline_seconds = pos 3600;
  job_ttl_seconds_after_finished = some (pos 3600);
}

reconcile_integration-Meets_example :
    Meets
      (answers (server_of extension))
      (IsIntegrationCall (answers (server_of extension)) packages 9 integration settings)
      (IsLastAction (answers (server_of extension)) packages 9 integration settings)
      (reconcile_integration packages 9 integration settings)
reconcile_integration-Meets_example =
    reconcile_integration-Meets (answers (server_of extension)) packages 9 integration settings

abbrev first_job : Job
first_job = job_named "fi-demo-build-1" none

abbrev job_failed : LastBuildError
job_failed = record { source = "job"; message = "failed"; reason = none; occurred_at = some 8 }

abbrev bundle : JsBundle
bundle = record {
  metadata = named "fi-demo" [];
  spec = record { raw = none; raw_from = none };
  status = none;
}

abbrev old_hash : String
old_hash = "sha256:ab"

abbrev new_hash : String
new_hash = "sha256:cd"

needs_new_build-written_example :
    (BuildsAfter packages 9 integration integration old_hash new_hash
        (some bundle)
        (building_status packages integration 9 old_hash "fi-demo" first_job "Build in progress")
      ↔ (¬ (old_hash ≡ new_hash)))
    × (BuildsAfter packages 9 integration integration old_hash new_hash
          (some bundle)
          (failed_status packages integration old_hash job_failed)
        ↔ (¬ (old_hash ≡ new_hash)))
    × (BuildsAfter packages 9 integration integration old_hash new_hash
          (some bundle)
          (succeeded_status packages integration old_hash bundle first_job)
        ↔ ((¬ (old_hash ≡ new_hash)) ⊎ (matching (some bundle) new_hash ≡ false)))
    × (BuildsAfter packages 9 integration integration old_hash new_hash
          (some bundle)
          (bundle_ready_status packages integration old_hash bundle)
        ↔ ((¬ (old_hash ≡ new_hash)) ⊎ (matching (some bundle) new_hash ≡ false)))
needs_new_build-written_example =
    needs_new_build-written packages 9 integration integration old_hash new_hash (some bundle)
      "fi-demo" "Build in progress" first_job job_failed bundle

abbrev long_name : String
long_name = "Overview.of-the-things-that-are-shown-to-those-who-look-at-them-all"

migrated_fe_name_bounds_example :
    (len (migrated_fe_name packages long_name) ≤ 63)
    × (((len ("fi-" & long_name) ≤ 63) × (migrated_fe_name packages long_name ≡ "fi-" & long_name))
        ⊎ ((63 < len ("fi-" & long_name))
            × All IsNameChar (chars (migrated_fe_name packages long_name))
            × ((slice : String) × (migrated_fe_name packages long_name
                  ≡ "fi-"
                    & slice
                    & "-"
                    & collect (take 12 (chars (text_sha256 packages long_name)))))))
migrated_fe_name_bounds_example = migrated_fe_name_bounds packages long_name (ground arith)

abbrev env : String → Option String
env key = if key == "PUBLISH_TARGET_NAMESPACE" then some " apps " else none

abbrev migrator : MigratorConfig
migrator = record {
  package_version = "0.1.0";
  schema_version = "v1";
  ready_timeout = 600;
  poll_interval = 5;
  publish_target_kind = PublishTargetKind.config_map;
  publish_target_namespace = "apps";
  publish_target_name = "ksbuilder-publish-config";
}

migrator_read : from_env env (λ text. "invalid digit found in string") ≡ ok migrator
unfolding from_env env_or required_env optional_env parse_env_u64 parse_publish_target_kind ◌>>=◌
    non_empty trim
migrator_read = refl

hash_read : frontend_extension_source_hash packages extension ≡ some "sha256:ab"
unfolding frontend_extension_source_hash
hash_read = refl

publish_request-publish_intent_example :
    (patch : BTreeMap (Option String)) × (publish_intent packages migrator extension "no JSON"
      ≡ ok patch)
    × (pending_publish_for_current_source
          (asked extension requests patch)
          (some (pos 2))
          "sha256:ab"
        ≡ some (record default_publish {
          phase = PublishPhase.pending;
          request_id = some (migration_request_id "demo" "sha256:ab");
        }))
    × (publish_request
          (asked extension requests patch)
          (migration_request_id "demo" "sha256:ab")
          (some (pos 2))
          "sha256:ab"
          "sha256:cd"
        ≡ RequestOutcome.accepted (record {
          request_id = migration_request_id "demo" "sha256:ab";
          artifact_digest = "sha256:cd";
          target_ref = target_of migrator;
          target_kind = publish_target_kind_value PublishTargetKind.config_map;
        }))
publish_request-publish_intent_example =
    publish_request-publish_intent packages env (λ text. "invalid digit found in string") migrator
      migrator_read extension (pos 2) "sha256:ab" (omega arith) refl hash_read requests "sha256:cd"
      "no JSON"
