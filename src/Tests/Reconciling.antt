-- ===== src/Tests/Reconciling.antt =====
-- Reconciliations of one extension.
use kube_frontend_forge_cont.Common.{trim, false, none, some, [], ◌∷◌, ◌≡◌, ◌<◌, refl, arith, get}
use kube_frontend_forge_cont.Api.Fields.{pos}
use kube_frontend_forge_cont.Api.Status.{
  PublishPhase, PublishStatus, default_publish, FrontendExtensionStatus,
}
use kube_frontend_forge_cont.Api.Extension.{FrontendExtension, annotation, non_empty}
use kube_frontend_forge_cont.Identity.{frontend_extension_source_hash, artifact_key}
use kube_frontend_forge_cont.Controller.Package.{
  PackageAttempt, package_attempt_from_job, frontend_extension_rebuild_token,
}
use kube_frontend_forge_cont.Controller.Status.{ready_fe_status}
use kube_frontend_forge_cont.Controller.Status.Labels.{
  frontend_extension_status_labels, frontend_extension_status_labels_patch,
}
use kube_frontend_forge_cont.Controller.Status.Patch.Merge.{
  after_patch, merge_status-frontend_extension_status_patch, merge_status-publish,
}
use kube_frontend_forge_cont.Controller.Calls.{Call}
use kube_frontend_forge_cont.Controller.Calls.Meets.{Answers, Any, Meets}
use kube_frontend_forge_cont.Controller.Calls.Run.{answers, trace}
use kube_frontend_forge_cont.Controller.Sync.{sync_publish, sync_unpublish}
use kube_frontend_forge_cont.Controller.Sync.Conduct.{
  PublishCall, UnpublishCall, IsUnpublishSync, sync_publish-Meets, sync_unpublish-Meets,
}
use kube_frontend_forge_cont.Controller.Writes.{gc_artifact_configmaps, patch_fe_status}
use kube_frontend_forge_cont.Controller.Writes.Conduct.{
  GcCall, PatchCall, gc_artifact_configmaps-Meets, patch_fe_status-Meets,
}
use kube_frontend_forge_cont.Controller.Writes.About.{HasHashes, IsAbout, IsLabelled}
use kube_frontend_forge_cont.Controller.Writes.Settled.{
  ReadsOnly, patch_fe_status-stale, patch_fe_status-settled,
}
use kube_frontend_forge_cont.Controller.Reconcile.{next_attempt, desired_job}
use kube_frontend_forge_cont.Controller.Reconcile.Progress.{desired_job-attempt}
use kube_frontend_forge_cont.Tests.Data.{
  server_of, metadata, packages, packages-NamesByName, extension, configmap, configuration,
  job_named, published, named,
}

abbrev said : Answers
said = answers (server_of extension)

gc_artifact_configmaps-Meets_example :
    Meets said
      (GcCall said packages extension ("fe-demo" ∷ []))
      Any
      (gc_artifact_configmaps packages "extension-frontend-forge" extension ("fe-demo" ∷ []) 1)
gc_artifact_configmaps-Meets_example =
    gc_artifact_configmaps-Meets said packages extension "extension-frontend-forge" ("fe-demo" ∷ [])
      1

sync_publish-Meets_example :
    Meets said
      (PublishCall said packages extension configuration "sha256:ab" metadata configmap)
      Any
      (sync_publish packages extension configuration "extension-frontend-forge" "sha256:ab" metadata
        configmap)
sync_publish-Meets_example =
    sync_publish-Meets said packages extension configuration "extension-frontend-forge" "sha256:ab"
      metadata configmap

sync_unpublish-Meets_example :
    Meets said
      (UnpublishCall said packages extension configuration)
      (IsUnpublishSync said packages extension configuration "extension-frontend-forge")
      (sync_unpublish packages extension configuration "extension-frontend-forge")
sync_unpublish-Meets_example =
    sync_unpublish-Meets said packages extension configuration "extension-frontend-forge"

-- The status of the extension while the artifact is there, and the extension that has it.
abbrev current : FrontendExtensionStatus
current = ready_fe_status packages extension "sha256:ab" "" "sha256:ab" configmap metadata none

patch_fe_status-Meets_example :
    Meets said
      (PatchCall said packages "demo" current)
      Any
      (patch_fe_status packages extension current)
patch_fe_status-Meets_example = patch_fe_status-Meets said packages extension current

abbrev settled : FrontendExtension
settled = record {
  metadata = record (named "demo" []) { labels = some (frontend_extension_status_labels current) };
  spec = extension.spec;
  status = some current;
}

settled-HasHashes : HasHashes packages settled "sha256:ab" "sha256:ab"
unfolding frontend_extension_source_hash artifact_key frontend_extension_rebuild_token annotation
    non_empty get trim
settled-HasHashes = (refl, refl)

settled-IsAbout : IsAbout settled "sha256:ab" "sha256:ab" current
unfolding frontend_extension_rebuild_token ready_fe_status annotation non_empty get trim
settled-IsAbout = (refl, refl, refl, refl)

patch_fe_status-settled_example :
    (IsLabelled settled current → ReadsOnly packages (server_of settled) extension current settled)
    × (¬ IsLabelled settled current
        → trace (server_of settled) (patch_fe_status packages extension current)
          ≡ Call.get_extension "demo"
            ∷ Call.patch_labels "demo" (frontend_extension_status_labels_patch current)
            ∷ [])
patch_fe_status-settled_example =
    patch_fe_status-settled packages (server_of settled) extension current settled "sha256:ab"
      "sha256:ab" refl settled-HasHashes settled-IsAbout refl

abbrev newer : FrontendExtension
newer = record settled { metadata = record (named "demo" []) { generation = some (pos 3) } }

newer-HasHashes : HasHashes packages newer "sha256:ab" "sha256:ab"
unfolding frontend_extension_source_hash artifact_key frontend_extension_rebuild_token annotation
    non_empty get trim
newer-HasHashes = (refl, refl)

-- The status is about generation 2.
newer_unobserved : ¬ IsAbout newer "sha256:ab" "sha256:ab" current
unfolding ready_fe_status
newer_unobserved (e, _, _, _) = ground (arith, e)

patch_fe_status-stale_example : ReadsOnly packages (server_of newer) extension current newer
patch_fe_status-stale_example =
    patch_fe_status-stale packages (server_of newer) extension current newer "sha256:ab" "sha256:ab"
      refl newer-HasHashes newer_unobserved

abbrev first : PackageAttempt
first = record { attempt = 1; job = job_named "fe-demo-package-ab-a1" none }

desired_job-attempt_example :
    (package_attempt_from_job packages (
        desired_job packages extension configuration "sha256:ab" "" "sha256:ab"
          (next_attempt (some first)))
      ≡ some (next_attempt (some first)))
    × (1 < next_attempt (some first))
desired_job-attempt_example =
    desired_job-attempt packages extension configuration "sha256:ab" "" "sha256:ab" first
      packages-NamesByName (omega arith)

-- A status with a publish that has finished, and one with a publish that has just been asked for.
abbrev settled_status : FrontendExtensionStatus
settled_status = record current { publish = some published }

abbrev pending : PublishStatus
pending = record default_publish { phase = PublishPhase.pending; request_id = some "r3" }

abbrev waiting : FrontendExtensionStatus
waiting = record current { publish = some pending }

merge_status-frontend_extension_status_patch_example : after_patch current none ≡ current
merge_status-frontend_extension_status_patch_example =
    merge_status-frontend_extension_status_patch current

merge_status-publish_example :
    (publish : PublishStatus) × ((after_patch waiting (some settled_status)).publish ≡ some publish)
    × (publish.phase ≡ PublishPhase.pending)
    × (publish.active ≡ false)
    × (publish.last_error ≡ none)
    × (publish.request_id ≡ some "r3")
    × (publish.artifact_digest ≡ some "sha256:ab")
    × (publish.started_at ≡ some 3)
    × (publish.finished_at ≡ some 4)
merge_status-publish_example =
    merge_status-publish waiting settled_status pending published refl refl
