-- ===== src/Controller/Writes.antt =====
-- Collection of artifact ConfigMaps and the writing of statuses, as programs
-- (crates/frontend-extension-controller/src/artifact.rs: `get_artifact_configmap_opt`,
-- `gc_artifact_configmaps`; status.rs: `patch_fe_status`, `patch_fe_status_labels`;
-- package.rs: `list_package_jobs_for_artifact_key`).
pub mod Conduct
pub mod About
pub mod Settled
use kube_frontend_forge_cont.Common.{
  ℕ, Bool, true, false, String, Option, none, some, List, [], ◌∷◌, eqb, if◌then◌else◌,
}
use kube_frontend_forge_cont.Api.Kube.{ConfigMap}
use kube_frontend_forge_cont.Api.Status.{FrontendExtensionStatus}
use kube_frontend_forge_cont.Api.Extension.{FrontendExtension}
use kube_frontend_forge_cont.Outside.{Outside}
use kube_frontend_forge_cont.Identity.{frontend_extension_source_hash}
use kube_frontend_forge_cont.Controller.Package.{
  PackageAttempt, package_attempts, package_job_selector,
}
use kube_frontend_forge_cont.Controller.Artifact.{artifact_configmap_gc_candidates, gc_selector}
use kube_frontend_forge_cont.Controller.Status.Labels.{
  fe_status_labels_need_patch, frontend_extension_status_labels_patch,
}
use kube_frontend_forge_cont.Controller.Status.Observe.{
  fe_status_observes_frontend_extension, fe_status_needs_patch,
}
use kube_frontend_forge_cont.Controller.Status.Patch.{frontend_extension_status_patch}
use kube_frontend_forge_cont.Controller.Calls.{
  KubeError, Error, Call, Answer, Prog, done, fail, call, ◌>>=◌, ◌>>◌, request, need,
}

unfoldable pub get_artifact_configmap_opt : String → String → Prog (Option ConfigMap)
get_artifact_configmap_opt namespace name =
    request (Call.get_configmap_opt name) (Error.get_artifact_config_map namespace name)

abbrev is_not_found : KubeError → Bool
is_not_found (KubeError.api n) = eqb n 404
is_not_found KubeError.other = false

-- The reply to a deletion: a ConfigMap that is gone already is as good as deleted.
abbrev pub after_delete : String → String → Answer Unit → Prog Unit
after_delete namespace name (Answer.ok _) = done tt
after_delete namespace name (Answer.err e) =
    if is_not_found e then done tt else fail (Error.delete_artifact_config_map namespace name e)

unfoldable pub delete_all : String → List String → Prog Unit
delete_all namespace [] = done tt
delete_all namespace (name ∷ names) =
    call (Call.delete_configmap name) (after_delete namespace name) >> delete_all namespace names

module _ (out : Outside) where
  unfoldable pub list_package_jobs_for_artifact_key :
      String → FrontendExtension → String → Prog (List PackageAttempt)
  list_package_jobs_for_artifact_key namespace fe artifact_key =
      request (Call.list_jobs (package_job_selector out fe artifact_key))
        (Error.list_package_jobs_for_artifact_key namespace (out.name_any fe.metadata) artifact_key)
      >>= λ jobs. done (package_attempts out jobs)

  unfoldable pub gc_artifact_configmaps : String → FrontendExtension → List String → ℕ → Prog Unit
  gc_artifact_configmaps namespace fe keep_names retain_old_count =
      request (Call.list_configmaps (gc_selector out fe))
        (Error.list_artifact_config_maps_for_gc namespace)
      >>= λ configmaps.
          delete_all namespace
            (artifact_configmap_gc_candidates out configmaps fe keep_names retain_old_count)

  unfoldable pub patch_fe_status_labels :
      FrontendExtension → FrontendExtensionStatus → String → Prog Unit
  patch_fe_status_labels fe status fe_name =
      if fe_status_labels_need_patch fe status
      then request (Call.patch_labels fe_name (frontend_extension_status_labels_patch status))
          (Error.patch_frontend_extension_status_labels fe_name)
      else done tt

  -- `fe_status_observes_frontend_extension(..)?`: with the source hash there, it is the artifact key
  -- that can fail.
  abbrev pub observes : FrontendExtension → FrontendExtensionStatus → Prog Bool
  observes fe status =
      need (frontend_extension_source_hash out fe) Error.frontend_extension_source_hash >>= λ _.
      need (fe_status_observes_frontend_extension out fe status)
        Error.frontend_extension_artifact_key

  -- The labels follow the status that the API server has, as long as it is about the extension.
  abbrev labels_for : String → FrontendExtension → Option FrontendExtensionStatus → Prog Unit
  labels_for fe_name latest_fe none = done tt
  labels_for fe_name latest_fe (some latest_status) =
      observes latest_fe latest_status >>= λ current.
      if current then patch_fe_status_labels latest_fe latest_status fe_name else done tt

  abbrev labels_after : String → FrontendExtension → Prog Unit
  labels_after fe_name latest_fe = labels_for fe_name latest_fe latest_fe.status

  abbrev get_fe : String → Prog FrontendExtension
  get_fe fe_name = request (Call.get_extension fe_name) (Error.get_frontend_extension fe_name)

  abbrev write_status :
      String → FrontendExtensionStatus → FrontendExtension → Prog FrontendExtension
  write_status fe_name status latest_fe =
      if fe_status_needs_patch latest_fe status
      then request (Call.patch_status fe_name (frontend_extension_status_patch status))
          (Error.patch_frontend_extension_status fe_name)
        >> get_fe fe_name
      else done latest_fe

  abbrev pub patch_latest : String → FrontendExtensionStatus → FrontendExtension → Prog Unit
  patch_latest fe_name status latest_fe = observes latest_fe status >>= λ current.
      if current then write_status fe_name status latest_fe >>= labels_after fe_name else done tt

  unfoldable pub patch_fe_status : FrontendExtension → FrontendExtensionStatus → Prog Unit
  patch_fe_status fe status =
      let fe_name = out.name_any fe.metadata in get_fe fe_name >>= patch_latest fe_name status
