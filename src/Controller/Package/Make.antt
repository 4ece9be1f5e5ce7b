-- ===== src/Controller/Package/Make.antt =====
-- `make_package_job` (crates/frontend-extension-controller/src/package.rs).
use kube_frontend_forge_cont.Common.{String, List, [], ◌∷◌, BTreeMap, collect, insert}
use kube_frontend_forge_cont.Api.Kube.{EnvVar, Job}
use kube_frontend_forge_cont.Api.Extension.{FrontendExtension}
use kube_frontend_forge_cont.Decimal.{decimal}
use kube_frontend_forge_cont.Names.{hash_label_value}
use kube_frontend_forge_cont.Keys.{
  managed_by_value, label_fe_managed_by, label_fe_name, label_fe_uid, label_source_hash_short,
  label_artifact_key_short, label_package_kind, label_fe_build_kind, package_kind_value,
  anno_source_hash, anno_artifact_key,
}
use kube_frontend_forge_cont.Outside.{Outside}
use kube_frontend_forge_cont.Controller.Config.{ControllerConfig}
use kube_frontend_forge_cont.Controller.JobShape.{env_var, note_generation, one_container_job}
use kube_frontend_forge_cont.Controller.Package.{frontend_extension_uid_label}

module _ (out : Outside) (fe : FrontendExtension) where
  package_labels : String → String → BTreeMap String
  unfolding frontend_extension_uid_label
  package_labels source_hash artifact_key = insert label_fe_build_kind package_kind_value (
      (label_fe_managed_by, managed_by_value)
      ∷ (label_fe_name, out.name_any fe.metadata)
      ∷ (label_fe_uid, frontend_extension_uid_label out fe)
      ∷ (label_source_hash_short, hash_label_value source_hash)
      ∷ (label_artifact_key_short, hash_label_value artifact_key)
      ∷ (label_package_kind, package_kind_value)
      ∷ [])

  package_env : ControllerConfig → String → String → String → String → List EnvVar
  package_env config source_hash artifact_key rebuild_token configmap_name =
      env_var "FE_NAME" (out.name_any fe.metadata)
      ∷ env_var "FE_UID" (frontend_extension_uid_label out fe)
      ∷ env_var "SOURCE_HASH" source_hash
      ∷ env_var "ARTIFACT_KEY" artifact_key
      ∷ env_var "REBUILD_TOKEN" rebuild_token
      ∷ env_var "ARTIFACT_CONFIGMAP_NAMESPACE" config.artifact_configmap_namespace
      ∷ env_var "ARTIFACT_CONFIGMAP_NAME" configmap_name
      ∷ env_var "BUILD_SERVICE_BASE_URL" config.build_service_base_url
      ∷ env_var "BUILD_SERVICE_TIMEOUT_SECONDS"
          (collect (decimal config.build_service_timeout_seconds))
      ∷ env_var "JSBUNDLE_CONFIG_KEY" config.jsbundle_config_key
      ∷ []

  unfoldable pub make_package_job :
      ControllerConfig → String → String → String → String → String → Job
  unfolding package_labels package_env
  make_package_job config job_name source_hash artifact_key rebuild_token configmap_name =
      one_container_job config.work_namespace config.job_active_deadline_seconds
        config.job_ttl_seconds_after_finished job_name (package_labels source_hash artifact_key)
        (note_generation fe.metadata.generation
          ((anno_source_hash, source_hash) ∷ (anno_artifact_key, artifact_key) ∷ []))
        (out.controller_owner_ref fe) "frontend-forge-extension-packager" "packager"
        config.packager_image config.packager_service_account
        (package_env config source_hash artifact_key rebuild_token configmap_name)
