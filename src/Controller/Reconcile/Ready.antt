-- ===== src/Controller/Reconcile/Ready.antt =====
-- The calls that a reconciliation can make, and the part of it where the artifact is there.
use kube_frontend_forge_cont.Common.{
  ◌≤◌, String, true, Option, none, some, ◌≡◌, refl, ◌⊎◌, inl, inr, arith, Bool-cases, List,
}
use kube_frontend_forge_cont.Api.Kube.{Job, ConfigMap}
use kube_frontend_forge_cont.Api.Status.{
  FrontendExtensionPhase, PackageJobStatus, FrontendExtensionStatus,
}
use kube_frontend_forge_cont.Api.Extension.{FrontendExtension}
use kube_frontend_forge_cont.Jobs.{ObservedJobPhase, observed_job_phase}
use kube_frontend_forge_cont.Outside.{Outside}
use kube_frontend_forge_cont.Identity.Source.{PackageArtifactMetadata}
use kube_frontend_forge_cont.Controller.Config.{ControllerConfig}
use kube_frontend_forge_cont.Controller.Integers.{or_zero}
use kube_frontend_forge_cont.Controller.Package.{
  PackageAttempt, package_attempts, latest_package_attempt, package_job_selector,
}
use kube_frontend_forge_cont.Controller.Artifact.{
  artifact_metadata_from_configmap, artifact_gc_keep_names, gc_selector,
}
use kube_frontend_forge_cont.Controller.Publish.{PublishSync}
use kube_frontend_forge_cont.Controller.Unpublish.{
  UnpublishSync, apply_unpublish_sync, should_delete_after_unpublish,
}
use kube_frontend_forge_cont.Controller.Status.{ready_fe_status, apply_publish_sync}
use kube_frontend_forge_cont.Controller.Status.Patch.{frontend_extension_status_patch}
use kube_frontend_forge_cont.Controller.Calls.{Call, Answer}
use kube_frontend_forge_cont.Controller.Calls.Meets.{
  Answers, Any, Meets, Meets->>=, Meets->>, Meets-done, Meets-request, Meets-imp,
}
use kube_frontend_forge_cont.Controller.Sync.{delete_frontend_extension}
use kube_frontend_forge_cont.Controller.Sync.Conduct.{
  PublishCall, UnpublishCall, IsUnpublishSync, sync_publish-Meets, sync_unpublish-Meets,
}
use kube_frontend_forge_cont.Controller.Writes.{patch_fe_status}
use kube_frontend_forge_cont.Controller.Writes.Conduct.{
  IsStale, GcCall, gc_artifact_configmaps-Meets, IsMirror, PatchCall, patch_fe_status-Meets,
}
use kube_frontend_forge_cont.Controller.Reconcile.{
  Action, requeue_if_publish_or_unpublish_running, next_attempt, synced_status, after_ready,
  reconcile_ready, desired_job, artifact_name, namespace,
}

-- The latest attempt is over: there is none, or its Job has succeeded or failed.
abbrev pub IsOver : Option PackageAttempt → Type 0
IsOver none = Unit
IsOver (some a) =
    (observed_job_phase a.job.status ≡ ObservedJobPhase.failed)
    ⊎ (observed_job_phase a.job.status ≡ ObservedJobPhase.succeeded)

-- The end of a reconciliation.
abbrev pub IsEnd : ControllerConfig → Action → Type 0
IsEnd config action =
    (action ≡ Action.await_change) ⊎ (action ≡ Action.requeue config.reconcile_requeue_seconds)

module _ (said : Answers) (out : Outside) (fe : FrontendExtension) (config : ControllerConfig)
    (source_hash : String) (rebuild_token : String) (key : String) where
  abbrev fe_name : String
  fe_name = out.name_any fe.metadata

  -- The latest attempt among the package Jobs that the API server listed.
  abbrev pub IsLatest : Option PackageAttempt → Type 0
  IsLatest latest =
      (jobs : List Job) × said (Call.list_jobs (package_job_selector out fe key)) (Answer.ok jobs)
      × (latest_package_attempt out (package_attempts out jobs) ≡ latest)

  -- The Job of the next attempt, where the latest one is over and there are not too many.
  abbrev pub IsNextPackageJob : Job → Type 0
  IsNextPackageJob job =
      (latest : Option PackageAttempt) × IsLatest latest
      × IsOver latest
      × (next_attempt latest ≤ config.package_max_attempts)
      × (job ≡ desired_job out fe config source_hash rebuild_token key (next_attempt latest))

  -- A ConfigMap that the API server answered to the artifact's name, and that is verified to hold the
  -- current artifact.
  abbrev pub IsCurrentArtifact : ConfigMap → PackageArtifactMetadata → Type 0
  IsCurrentArtifact cm metadata =
      said (Call.get_configmap_opt (artifact_name out fe config source_hash rebuild_token key))
        (Answer.ok (some cm))
      × (artifact_metadata_from_configmap out cm source_hash key ≡ some metadata)

  -- A status about the current source, which says Ready only for a verified artifact.
  abbrev pub IsTruthful : FrontendExtensionStatus → Type 0
  IsTruthful s =
      (s.observed_generation ≡ some (or_zero fe.metadata.generation))
      × (s.observed_source_hash ≡ some source_hash)
      × (s.observed_rebuild_token ≡ some rebuild_token)
      × ((s.phase ≡ FrontendExtensionPhase.packaging)
          ⊎ (s.phase ≡ FrontendExtensionPhase.failed)
          ⊎ ((cm : ConfigMap) × (m : PackageArtifactMetadata) × IsCurrentArtifact cm m
              × (job : Option PackageJobStatus) × (s.artifact
                  ≡ (ready_fe_status out fe source_hash rebuild_token key cm m job).artifact)))

  abbrev pub IsCreated : Job → Type 0
  IsCreated job =
      IsNextPackageJob job
      ⊎ ((m : PackageArtifactMetadata) × (cm : ConfigMap) × IsCurrentArtifact cm m
          × PublishCall said out fe config key m cm (Call.create_job job))
      ⊎ UnpublishCall said out fe config (Call.create_job job)

  -- The calls of a reconciliation.
  abbrev pub Allowed : Call → Type 0
  Allowed (Call.get_extension name) = name ≡ fe_name
  Allowed (Call.patch_status name patch) =
      (name ≡ fe_name)
      × ((status : FrontendExtensionStatus) × IsTruthful status
          × (patch ≡ frontend_extension_status_patch status))
  Allowed (Call.patch_labels name labels) = (name ≡ fe_name) × IsMirror said out fe_name labels
  Allowed (Call.delete_extension name) =
      (name ≡ fe_name)
      × ((sync : UnpublishSync) × (should_delete_after_unpublish fe sync ≡ true)
          × IsUnpublishSync said out fe config (namespace out fe config) sync)
  Allowed (Call.list_jobs selector) = selector ≡ package_job_selector out fe key
  Allowed (Call.get_job name) = Unit
  Allowed (Call.get_job_opt name) = Unit
  Allowed (Call.create_job job) = IsCreated job
  Allowed (Call.get_configmap_opt name) =
      name ≡ artifact_name out fe config source_hash rebuild_token key
  Allowed (Call.list_configmaps selector) = selector ≡ gc_selector out fe
  Allowed (Call.delete_configmap name) =
      (cm : ConfigMap) × (m : PackageArtifactMetadata) × IsCurrentArtifact cm m
      × IsStale said out fe (artifact_gc_keep_names out fe cm) name
  Allowed _ = ⊥

  PatchCall-Allowed :
      (status : FrontendExtensionStatus)
      → IsTruthful status
      → (c : Call) → PatchCall said out fe_name status c
      → Allowed c
  PatchCall-Allowed status h (Call.get_extension name) g = g
  PatchCall-Allowed status h (Call.patch_status name patch) (g, e) = (g, (status, h, e))
  PatchCall-Allowed status h (Call.patch_labels name labels) g = g
  PatchCall-Allowed status h _ g = absurd g

  pub patch-Allowed :
      (status : FrontendExtensionStatus)
      → IsTruthful status
      → Meets said Allowed Any (patch_fe_status out fe status)
  patch-Allowed status h =
      Meets-imp said _ _ _ _ _ (PatchCall-Allowed status h) (λ _ _. tt)
        (patch_fe_status-Meets said out fe status)

  GcCall-Allowed :
      (cm : ConfigMap) (m : PackageArtifactMetadata)
      → IsCurrentArtifact cm m
      → (c : Call) → GcCall said out fe (artifact_gc_keep_names out fe cm) c
      → Allowed c
  GcCall-Allowed cm m h (Call.list_configmaps selector) g = g
  GcCall-Allowed cm m h (Call.delete_configmap name) g = (cm, m, h, g)
  GcCall-Allowed cm m h _ g = absurd g

  PublishCall-Allowed :
      (cm : ConfigMap) (m : PackageArtifactMetadata)
      → IsCurrentArtifact cm m
      → (c : Call) → PublishCall said out fe config key m cm c
      → Allowed c
  PublishCall-Allowed cm m h (Call.create_job job) g = inr (inl (m, cm, h, g))
  PublishCall-Allowed cm m h (Call.get_job name) g = tt
  PublishCall-Allowed cm m h (Call.get_job_opt name) g = tt
  PublishCall-Allowed cm m h _ g = absurd g

  UnpublishCall-Allowed : (c : Call) → UnpublishCall said out fe config c → Allowed c
  UnpublishCall-Allowed (Call.create_job job) g = inr (inr g)
  UnpublishCall-Allowed (Call.get_job name) g = tt
  UnpublishCall-Allowed (Call.get_job_opt name) g = tt
  UnpublishCall-Allowed _ g = absurd g

  synced-IsTruthful :
      (cm : ConfigMap) (m : PackageArtifactMetadata) (job : Option PackageJobStatus)
      (publish : PublishSync) (unpublish : UnpublishSync)
      → IsCurrentArtifact cm m
      → IsTruthful
          (synced_status out fe config source_hash rebuild_token key cm m job publish unpublish)
  unfolding synced_status apply_unpublish_sync apply_publish_sync ready_fe_status
  synced-IsTruthful cm m job publish unpublish h =
      (refl, refl, refl, inr (inr (cm, m, h, job, refl)))

  requeue-IsEnd :
      (publish : PublishSync) (unpublish : UnpublishSync)
      → IsEnd config (
          requeue_if_publish_or_unpublish_running publish unpublish
            config.reconcile_requeue_seconds)
  unfolding requeue_if_publish_or_unpublish_running
  requeue-IsEnd publish unpublish = ground arith

  module _ (cm : ConfigMap) (m : PackageArtifactMetadata) (h : IsCurrentArtifact cm m) where
    after_ready-Allowed :
        (publish : PublishSync) (unpublish : UnpublishSync)
        → IsUnpublishSync said out fe config (namespace out fe config) unpublish
        → Meets said Allowed
            (IsEnd config)
            (after_ready out fe config source_hash rebuild_token key cm publish unpublish)
    unfolding delete_frontend_extension
    after_ready-Allowed publish unpublish from =
        elim (Bool-cases (should_delete_after_unpublish fe unpublish)) [
          | inl e ↦ rw e (
              Meets->> said _ _ _ _
                (Meets-request said _ (Call.delete_extension fe_name) _
                  (refl, (unpublish, e, from)))
                (Meets-done said _ _ _ (inl refl)))
          | inr e ↦ rw e (
              Meets->> said _ _ _ _
                (Meets-imp said _ _ _ _ _ (GcCall-Allowed cm m h) (λ _ _. tt)
                  (gc_artifact_configmaps-Meets said out fe config.artifact_configmap_namespace
                    (artifact_gc_keep_names out fe cm) config.artifact_retain_old_count))
                (Meets-done said _ _ _ (requeue-IsEnd publish unpublish)))
        ]

    pub reconcile_ready-Allowed :
        (job : Option PackageJobStatus)
        → Meets said Allowed
            (IsEnd config)
            (reconcile_ready out fe config source_hash rebuild_token key cm m job)
    unfolding reconcile_ready
    reconcile_ready-Allowed job =
        Meets->>= said _ _ _ _ _
          (Meets-imp said _ _ _ _ _ (PublishCall-Allowed cm m h) (λ _ s. s)
            (sync_publish-Meets said out fe config config.work_namespace key m cm))
          (λ publish _.
            Meets->>= said _ _ _ _ _
              (Meets-imp said _ _ _ _ _ UnpublishCall-Allowed (λ _ s. s)
                (sync_unpublish-Meets said out fe config config.work_namespace))
              (λ unpublish from.
                Meets->> said _ _ _ _
                  (patch-Allowed _ (synced-IsTruthful cm m job publish unpublish h))
                  (after_ready-Allowed publish unpublish from)))
