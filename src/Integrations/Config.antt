-- ===== src/Integrations/Config.antt =====
-- The settings of the FrontendIntegration controller: `ControllerConfig` of
-- crates/frontend-forge-controller/src/lib.rs.
use kube_frontend_forge_cont.Common.{ℕ, String, Option}
use kube_frontend_forge_cont.Api.Fields.{ℤ}

pub record IntegrationControllerConfig : Type 0 where
  pub work_namespace : String
  pub runner_image : String
  pub runner_service_account : Option String
  pub build_service_base_url : String
  pub jsbundle_configmap_namespace : String
  pub jsbundle_config_key : String
  pub build_service_timeout_seconds : ℕ
  pub stale_check_grace_seconds : ℕ
  pub reconcile_requeue_seconds : ℕ
  pub job_active_deadline_seconds : ℤ
  pub job_ttl_seconds_after_finished : Option ℤ
