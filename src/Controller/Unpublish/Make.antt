-- ===== src/Controller/Unpublish/Make.antt =====
-- `make_unpublish_job` (crates/frontend-extension-controller/src/unpublish.rs).
use kube_frontend_forge_cont.Common.{String, List, [], ◌∷◌, BTreeMap, ◌&◌}
use kube_frontend_forge_cont.Api.Kube.{EnvVar, Job}
use kube_frontend_forge_cont.Api.Extension.{FrontendExtension}
use kube_frontend_forge_cont.Names.{hash_label_value}
use kube_frontend_forge_cont.Keys.{
  managed_by_value, label_fe_managed_by, label_fe_name, label_unpublish_kind,
  label_unpublish_request_hash, unpublish_kind_value, anno_unpublish_request_id,
  anno_unpublish_extension_name,
}
use kube_frontend_forge_cont.Outside.{Outside}
use kube_frontend_forge_cont.Identity.{text_sha256}
use kube_frontend_forge_cont.Controller.Config.{ControllerConfig}
use kube_frontend_forge_cont.Controller.JobShape.{env_var, note_generation, one_container_job}
use kube_frontend_forge_cont.Controller.Unpublish.{UnpublishRequest}

module _ (out : Outside) (fe : FrontendExtension) where
  unpublish_labels : UnpublishRequest → BTreeMap String
  unpublish_labels request =
      (label_fe_managed_by, managed_by_value)
      ∷ (label_fe_name, out.name_any fe.metadata)
      ∷ (label_unpublish_kind, unpublish_kind_value)
      ∷ (
        label_unpublish_request_hash,
        hash_label_value ("sha256:" & text_sha256 out request.request_id),
      )
      ∷ []

  unpublish_env : UnpublishRequest → List EnvVar
  unpublish_env request =
      env_var "FE_NAME" (out.name_any fe.metadata)
      ∷ env_var "PUBLISH_ACTION" "unpublish"
      ∷ env_var "UNPUBLISH_REQUEST_ID" request.request_id
      ∷ env_var "UNPUBLISH_EXTENSION_NAME" request.extension_name
      ∷ env_var "PUBLISH_TARGET_KIND" request.target_kind
      ∷ env_var "PUBLISH_TARGET_NAMESPACE" request.target_ref.namespace
      ∷ env_var "PUBLISH_TARGET_NAME" request.target_ref.name
      ∷ []

  unfoldable pub make_unpublish_job : ControllerConfig → String → UnpublishRequest → Job
  unfolding unpublish_labels unpublish_env
  make_unpublish_job config job_name request =
      one_container_job config.work_namespace config.job_active_deadline_seconds
        config.job_ttl_seconds_after_finished job_name (unpublish_labels request)
        (note_generation fe.metadata.generation (
          (anno_unpublish_request_id, request.request_id)
          ∷ (anno_unpublish_extension_name, request.extension_name)
          ∷ []))
        (out.controller_owner_ref fe) "frontend-forge-extension-publisher" "publisher"
        config.publisher_image config.publisher_service_account (unpublish_env request)
