-- ===== src/Controller/Config.antt =====
-- `ControllerConfig` (crates/frontend-extension-controller/src/config.rs).
use kube_frontend_forge_cont.Common.{ℕ, String, Option}
use kube_frontend_forge_cont.Api.Fields.{ℤ}

pub record ControllerConfig : Type 0 where
  pub work_namespace : String
  pub packager_image : String
  pub packager_service_account : Option String
  pub publisher_image : String
  pub publisher_service_account : Option String
  pub artifact_configmap_namespace : String
  pub build_service_base_url : String
  pub build_service_timeout_seconds : ℕ
  pub jsbundle_config_key : String
  pub reconcile_requeue_seconds : ℕ
  pub job_active_deadline_seconds : ℤ
  pub job_ttl_seconds_after_finished : Option ℤ
  pub artifact_retain_old_count : ℕ
  pub package_max_attempts : ℕ
