-- ===== src/Controller/Sync/Conduct.antt =====
-- The calls that the publish and unpublish parts of a reconciliation can make, and what they say of
-- the requests.
use kube_frontend_forge_cont.Common.{
  String, false, Option, none, some, ◌≡◌, refl, ◌⊎◌, inl, inr, Bool-cases, Option-cases,
}
use kube_frontend_forge_cont.Api.Kube.{Job, ConfigMap}
use kube_frontend_forge_cont.Api.Status.{UnpublishStatus}
use kube_frontend_forge_cont.Api.Extension.{FrontendExtension}
use kube_frontend_forge_cont.Names.{publish_job_name, unpublish_job_name}
use kube_frontend_forge_cont.Outside.{Outside}
use kube_frontend_forge_cont.Identity.{text_sha256}
use kube_frontend_forge_cont.Identity.Source.{PackageArtifactMetadata}
use kube_frontend_forge_cont.Controller.Config.{ControllerConfig}
use kube_frontend_forge_cont.Controller.Publish.{
  PublishRequest, RequestOutcome, publish_request_id, publish_request, publish_already_finished,
}
use kube_frontend_forge_cont.Controller.Publish.Make.{make_publish_job}
use kube_frontend_forge_cont.Controller.Unpublish.{
  UnpublishRequest, UnpublishSync, UnpublishOutcome, unpublish_request_id, unpublish_request,
  unpublish_of, unpublish_already_finished,
}
use kube_frontend_forge_cont.Controller.Unpublish.Make.{make_unpublish_job}
use kube_frontend_forge_cont.Controller.Calls.{Call, Answer}
use kube_frontend_forge_cont.Controller.Calls.Meets.{
  Answers, Any, Meets, Meets->>=, Meets-done, Meets-fail, Meets-call, Meets-request, Meets-reply,
  Meets-imp,
}
use kube_frontend_forge_cont.Controller.Sync.{
  is_code, after_create, create_or_get_job, publish_with, publish_outcome, sync_publish,
  unpublish_done_from_job, unpublish_with, unpublish_outcome, sync_unpublish,
}

-- The Job that a creation ends with: the one that was created, or the one that was there already.
abbrev pub IsCreation : Answers → Job → String → Job → Type 0
IsCreation said desired name job =
    said (Call.create_job desired) (Answer.ok job) ⊎ said (Call.get_job name) (Answer.ok job)

-- A creation reads the Job afterwards where it is there already, and nothing else.
pub create_or_get_job-Meets :
    (said : Answers) (P : Call → Type 0) (namespace : String) (job : Job) (name : String)
    → P (Call.create_job job)
    → P (Call.get_job name)
    → Meets said P (IsCreation said job name) (create_or_get_job namespace job name)
unfolding create_or_get_job
create_or_get_job-Meets said P namespace job name h g =
    Meets-call said _ _ (Call.create_job job) _ h (λ r s. after_create-Meets r s)
  where
    after_create-Meets :
        (r : Answer Job)
        → said (Call.create_job job) r
        → Meets said P (IsCreation said job name) (after_create namespace name r)
    after_create-Meets (Answer.ok created) s = Meets-done said _ _ _ (inl s)
    after_create-Meets (Answer.err e) s = elim (Bool-cases (is_code 409 e)) [
      | inl c ↦ rw c (
          Meets-imp said _ _ _ _ _ (λ _ p. p) (λ _ a. inr a)
            (Meets-reply said _ (Call.get_job name) _ g))
      | inr c ↦ rw c (Meets-fail said _ _ _)
    ]

module _ (said : Answers) (out : Outside) (fe : FrontendExtension) (config : ControllerConfig) where
  -- The accepted request of the extension's annotations, for an artifact.
  abbrev pub IsPublish : PackageArtifactMetadata → PublishRequest → Type 0
  IsPublish artifact r =
      (id : String) × (publish_request_id fe ≡ some id)
      × (publish_request fe id fe.metadata.generation artifact.source_hash artifact.digest
          ≡ RequestOutcome.accepted r)

  abbrev publish_name : PublishRequest → String
  publish_name r = publish_job_name (text_sha256 out) (out.name_any fe.metadata) r.request_id

  -- A Job is created for an accepted request that has not finished, and only the Job of an accepted
  -- request is read.
  abbrev pub PublishCall : String → PackageArtifactMetadata → ConfigMap → Call → Type 0
  PublishCall artifact_key artifact cm (Call.create_job job) =
      (r : PublishRequest) × IsPublish artifact r
      × (publish_already_finished fe r artifact_key ≡ false)
      × (job ≡ make_publish_job out fe config (publish_name r) r artifact cm)
  PublishCall artifact_key artifact cm (Call.get_job_opt name) =
      (r : PublishRequest) × IsPublish artifact r × (name ≡ publish_name r)
  PublishCall artifact_key artifact cm (Call.get_job name) =
      (r : PublishRequest) × IsPublish artifact r × (name ≡ publish_name r)
  PublishCall artifact_key artifact cm _ = ⊥

  module _ (namespace : String) (artifact_key : String) (artifact : PackageArtifactMetadata)
      (cm : ConfigMap) where
    publish_with-Meets :
        (r : PublishRequest) (o : Option Job)
        → IsPublish artifact r
        → Meets said
            (PublishCall artifact_key artifact cm)
            Any
            (publish_with out fe config namespace artifact_key artifact cm r (publish_name r) o)
    publish_with-Meets r (some job) h = Meets-done said _ _ _ tt
    publish_with-Meets r none h = elim (Bool-cases (publish_already_finished fe r artifact_key)) [
      | inl e ↦ rw e (Meets-done said _ _ _ tt)
      | inr e ↦ rw e (
          Meets->>= said _ _ _ _ _
            (create_or_get_job-Meets said _ namespace
              (make_publish_job out fe config (publish_name r) r artifact cm) (publish_name r)
              (r, h, e, refl) (r, h, refl))
            (λ job _. Meets-done said _ _ _ tt))
    ]

    publish_outcome-Meets :
        (o : RequestOutcome) (id : String)
        → publish_request_id fe ≡ some id
        → publish_request fe id fe.metadata.generation artifact.source_hash artifact.digest ≡ o
        → Meets said
            (PublishCall artifact_key artifact cm)
            Any
            (publish_outcome out fe config namespace artifact_key artifact cm o)
    publish_outcome-Meets RequestOutcome.stale id h g = Meets-done said _ _ _ tt
    publish_outcome-Meets (RequestOutcome.failed status) id h g = Meets-done said _ _ _ tt
    publish_outcome-Meets (RequestOutcome.accepted r) id h g =
        Meets->>= said _ _ _ _ _
          (Meets-request said _ (Call.get_job_opt (publish_name r)) _ (r, (id, h, g), refl))
          (λ o _. publish_with-Meets r o (id, h, g))

    -- Whatever the API server answers, a publish Job is created only for an accepted request which the
    -- status does not say to be finished, and other objects are not touched.
    pub sync_publish-Meets :
        Meets said
          (PublishCall artifact_key artifact cm)
          Any
          (sync_publish out fe config namespace artifact_key artifact cm)
    unfolding sync_publish
    sync_publish-Meets = elim (Option-cases (publish_request_id fe)) [
      | inl e ↦ rw (e, sync_publish) (Meets-done said _ _ _ tt)
      | inr (id, e) ↦ rw (e, sync_publish) (publish_outcome-Meets _ id e refl)
    ]

  abbrev pub IsUnpublish : UnpublishRequest → Type 0
  IsUnpublish r =
      (id : String) × (unpublish_request_id fe ≡ some id)
      × (unpublish_request out fe id ≡ UnpublishOutcome.accepted r)

  abbrev unpublish_name : UnpublishRequest → String
  unpublish_name r = unpublish_job_name (text_sha256 out) (out.name_any fe.metadata) r.request_id

  abbrev pub UnpublishCall : Call → Type 0
  UnpublishCall (Call.create_job job) =
      (r : UnpublishRequest) × IsUnpublish r
      × (unpublish_already_finished fe r ≡ false)
      × (job ≡ make_unpublish_job out fe config (unpublish_name r) r)
  UnpublishCall (Call.get_job_opt name) =
      (r : UnpublishRequest) × IsUnpublish r × (name ≡ unpublish_name r)
  UnpublishCall (Call.get_job name) =
      (r : UnpublishRequest) × IsUnpublish r × (name ≡ unpublish_name r)
  UnpublishCall _ = ⊥

  module _ (namespace : String) where
    -- The Job of a request as the API server answered it: read by its name, or created.
    abbrev IsUnpublishJob : UnpublishRequest → Job → Type 0
    IsUnpublishJob r job =
        said (Call.get_job_opt (unpublish_name r)) (Answer.ok (some job))
        ⊎ IsCreation said (make_unpublish_job out fe config (unpublish_name r) r) (unpublish_name r)
            job

    -- Where the unpublish status comes from: it was there, the request failed, or it is that of the
    -- request's Job as the API server answered it.
    abbrev pub IsUnpublishSync : UnpublishSync → Type 0
    IsUnpublishSync sync =
        (sync.status ≡ unpublish_of fe.status)
        ⊎ ((id : String) × (unpublish_request_id fe ≡ some id)
            × (s : UnpublishStatus) × (sync.status ≡ some s)
            × (unpublish_request out fe id ≡ UnpublishOutcome.failed s))
        ⊎ ((r : UnpublishRequest) × (job : Job) × IsUnpublish r
            × IsUnpublishJob r job
            × (sync ≡ unpublish_done_from_job out fe config namespace r job))

    unpublish_with-Meets :
        (r : UnpublishRequest) (o : Option Job)
        → IsUnpublish r
        → said (Call.get_job_opt (unpublish_name r)) (Answer.ok o)
        → Meets said UnpublishCall IsUnpublishSync
            (unpublish_with out fe config namespace r (unpublish_name r) o)
    unpublish_with-Meets r (some job) h s =
        Meets-done said _ _ _ (inr (inr (r, job, h, inl s, refl)))
    unpublish_with-Meets r none h s = elim (Bool-cases (unpublish_already_finished fe r)) [
      | inl e ↦ rw e (Meets-done said _ _ _ (inl refl))
      | inr e ↦ rw e (
          Meets->>= said _ _ _ _ _
            (create_or_get_job-Meets said _ namespace
              (make_unpublish_job out fe config (unpublish_name r) r) (unpublish_name r)
              (r, h, e, refl) (r, h, refl))
            (λ job made. Meets-done said _ _ _ (inr (inr (r, job, h, inr made, refl)))))
    ]

    unpublish_outcome-Meets :
        (o : UnpublishOutcome) (id : String)
        → unpublish_request_id fe ≡ some id
        → unpublish_request out fe id ≡ o
        → Meets said UnpublishCall IsUnpublishSync (unpublish_outcome out fe config namespace o)
    unpublish_outcome-Meets (UnpublishOutcome.failed s) id h g =
        Meets-done said _ _ _ (inr (inl (id, h, s, refl, g)))
    unpublish_outcome-Meets (UnpublishOutcome.accepted r) id h g =
        Meets->>= said _ _ _ _ _
          (Meets-reply said _ (Call.get_job_opt (unpublish_name r)) _ (r, (id, h, g), refl))
          (λ o s. unpublish_with-Meets r o (id, h, g) s)

    -- Whatever the API server answers, an unpublish Job is created only for the request of the
    -- annotations, where the status does not say that it is finished; and the unpublish status that
    -- results was there before, is the request's failure, or is that of the request's Job as the API
    -- server answered it, to its reading or to its creation.
    pub sync_unpublish-Meets :
        Meets said UnpublishCall IsUnpublishSync (sync_unpublish out fe config namespace)
    unfolding sync_unpublish
    sync_unpublish-Meets = elim (Option-cases (unpublish_request_id fe)) [
      | inl e ↦ rw (e, sync_unpublish) (Meets-done said _ _ _ (inl refl))
      | inr (id, e) ↦ rw (e, sync_unpublish) (unpublish_outcome-Meets _ id e refl)
    ]
