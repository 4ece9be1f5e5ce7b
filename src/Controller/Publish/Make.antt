-- ===== src/Controller/Publish/Make.antt =====
-- `make_publish_job` (crates/frontend-extension-controller/src/publish.rs).
use kube_frontend_forge_cont.Common.{String, List, [], ◌∷◌, BTreeMap, ◌&◌}
use kube_frontend_forge_cont.Api.Kube.{EnvVar, Job, ConfigMap}
use kube_frontend_forge_cont.Api.Extension.{FrontendExtension}
use kube_frontend_forge_cont.Names.{hash_label_value}
use kube_frontend_forge_cont.Keys.{
  managed_by_value, label_fe_managed_by, label_fe_name, label_publish_kind,
  label_publish_request_hash, publish_kind_value, anno_publish_request_id,
  anno_publish_artifact_digest, anno_artifact_digest, package_key,
}
use kube_frontend_forge_cont.Outside.{Outside}
use kube_frontend_forge_cont.Identity.{text_sha256}
use kube_frontend_forge_cont.Identity.Source.{PackageArtifactMetadata}
use kube_frontend_forge_cont.Controller.Config.{ControllerConfig}
use kube_frontend_forge_cont.Controller.Times.{or_empty}
use kube_frontend_forge_cont.Controller.JobShape.{env_var, note_generation, one_container_job}
use kube_frontend_forge_cont.Controller.Publish.{PublishRequest}

module _ (out : Outside) (fe : FrontendExtension) where
  publish_labels : PublishRequest → BTreeMap String
  publish_labels request =
      (label_fe_managed_by, managed_by_value)
      ∷ (label_fe_name, out.name_any fe.metadata)
      ∷ (label_publish_kind, publish_kind_value)
      ∷ (
        label_publish_request_hash,
        hash_label_value ("sha256:" & text_sha256 out request.request_id),
      )
      ∷ []

  publish_env : PublishRequest → PackageArtifactMetadata → ConfigMap → List EnvVar
  publish_env request artifact artifact_cm =
      env_var "FE_NAME" (out.name_any fe.metadata)
      ∷ env_var "PUBLISH_REQUEST_ID" request.request_id
      ∷ env_var "ARTIFACT_DIGEST" request.artifact_digest
      ∷ env_var "ARTIFACT_CONFIGMAP_NAMESPACE" (or_empty artifact_cm.metadata.namespace)
      ∷ env_var "ARTIFACT_CONFIGMAP_NAME" (out.name_any artifact_cm.metadata)
      ∷ env_var "ARTIFACT_CONFIGMAP_KEY" package_key
      ∷ env_var "ARTIFACT_FILENAME" artifact.filename
      ∷ env_var "PUBLISH_TARGET_KIND" request.target_kind
      ∷ env_var "PUBLISH_TARGET_NAMESPACE" request.target_ref.namespace
      ∷ env_var "PUBLISH_TARGET_NAME" request.target_ref.name
      ∷ []

  unfoldable pub make_publish_job :
      ControllerConfig → String → PublishRequest → PackageArtifactMetadata → ConfigMap → Job
  unfolding publish_labels publish_env
  make_publish_job config job_name request artifact artifact_cm =
      one_container_job config.work_namespace config.job_active_deadline_seconds
        config.job_ttl_seconds_after_finished job_name (publish_labels request)
        (note_generation fe.metadata.generation (
          (anno_publish_request_id, request.request_id)
          ∷ (anno_publish_artifact_digest, request.artifact_digest)
          ∷ (anno_artifact_digest, request.artifact_digest)
          ∷ []))
        (out.controller_owner_ref fe) "frontend-forge-extension-publisher" "publisher"
        config.publisher_image config.publisher_service_account
        (publish_env request artifact artifact_cm)
