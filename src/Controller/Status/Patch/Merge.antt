-- ===== src/Controller/Status/Patch/Merge.antt =====
-- What a merge patch does to a status: the rules of JSON merge patches (RFC 7386), on the fields of a
-- status. A field that is left out stays, null removes it, objects are merged and other values replace
-- what was there.
use kube_frontend_forge_cont.Common.{Option, none, some, List, [], ◌∷◌, ◌≡◌, refl, ap}
use kube_frontend_forge_cont.Api.Fields.{NamespacedResourceRef}
use kube_frontend_forge_cont.Api.Status.{
  PackageJobStatus, PublishStatus, UnpublishStatus, ExtensionArtifactStatus, ExtensionCondition,
  FrontendExtensionStatus,
}
use kube_frontend_forge_cont.Controller.Status.Patch.{
  Field, left_out, null, value, skipped, cleared, unless_empty, map_option, RefPatch, ref_patch,
  ArtifactPatch, artifact_patch, PackageJobPatch, package_job_patch, PublishPatch, publish_patch,
  UnpublishPatch, unpublish_patch, StatusPatch, frontend_extension_status_patch,
}

-- A field that is not an object.
abbrev pub replaced : {A : Type 0} → Field A → Option A → Option A
replaced left_out old = old
replaced null old = none
replaced (value a) old = some a

-- An object: it is merged into the old one, or into none.
abbrev pub merged : {A B : Type 0} → (B → Option A → A) → Field B → Option A → Option A
merged f left_out old = old
merged f null old = none
merged f (value b) old = some (f b old)

-- The field of an old object, where there is one.
abbrev pub of_old : {A B : Type 0} → Option A → (A → Option B) → Option B
of_old none f = none
of_old (some a) f = f a

abbrev pub merge_ref : RefPatch → Option NamespacedResourceRef → NamespacedResourceRef
merge_ref p old = record {
  namespace = p.namespace;
  name = p.name;
  uid = replaced p.uid (of_old old (λ (r : NamespacedResourceRef). r.uid));
}

abbrev pub old_ref : ExtensionArtifactStatus → Option NamespacedResourceRef
old_ref a = some a.storage.ref

abbrev pub merge_artifact : ArtifactPatch → Option ExtensionArtifactStatus → ExtensionArtifactStatus
merge_artifact p old = record {
  storage = record {
    kind = p.storage_kind;
    ref = merge_ref p.storage_ref (of_old old old_ref);
    key = p.storage_key;
  };
  digest = p.digest;
  size_bytes = p.size_bytes;
  media_type = p.media_type;
  filename = p.filename;
  generated_at = p.generated_at;
  source_hash = p.source_hash;
  artifact_key =
      replaced p.artifact_key (of_old old (λ (a : ExtensionArtifactStatus). a.artifact_key));
}

abbrev pub merge_package_job : PackageJobPatch → Option PackageJobStatus → PackageJobStatus
merge_package_job p old = record {
  namespace = p.namespace;
  name = p.name;
  uid = replaced p.uid (of_old old (λ (j : PackageJobStatus). j.uid));
  phase = p.phase;
  started_at = replaced p.started_at (of_old old (λ (j : PackageJobStatus). j.started_at));
  finished_at = replaced p.finished_at (of_old old (λ (j : PackageJobStatus). j.finished_at));
  message = replaced p.message (of_old old (λ (j : PackageJobStatus). j.message));
}

abbrev pub merge_publish : PublishPatch → Option PublishStatus → PublishStatus
merge_publish p old = record {
  phase = p.phase;
  active = p.active;
  request_id = replaced p.request_id (of_old old (λ (o : PublishStatus). o.request_id));
  artifact_digest =
      replaced p.artifact_digest (of_old old (λ (o : PublishStatus). o.artifact_digest));
  job_ref = merged merge_ref p.job_ref (of_old old (λ (o : PublishStatus). o.job_ref));
  started_at = replaced p.started_at (of_old old (λ (o : PublishStatus). o.started_at));
  finished_at = replaced p.finished_at (of_old old (λ (o : PublishStatus). o.finished_at));
  last_error = replaced p.last_error (of_old old (λ (o : PublishStatus). o.last_error));
}

abbrev pub merge_unpublish : UnpublishPatch → Option UnpublishStatus → UnpublishStatus
merge_unpublish p old = record {
  phase = p.phase;
  request_id = replaced p.request_id (of_old old (λ (o : UnpublishStatus). o.request_id));
  extension_name =
      replaced p.extension_name (of_old old (λ (o : UnpublishStatus). o.extension_name));
  job_ref = merged merge_ref p.job_ref (of_old old (λ (o : UnpublishStatus). o.job_ref));
  started_at = replaced p.started_at (of_old old (λ (o : UnpublishStatus). o.started_at));
  finished_at = replaced p.finished_at (of_old old (λ (o : UnpublishStatus). o.finished_at));
  last_error = replaced p.last_error (of_old old (λ (o : UnpublishStatus). o.last_error));
}

-- No conditions are an empty list of them.
abbrev pub listed : Option (List ExtensionCondition) → List ExtensionCondition
listed none = []
listed (some conditions) = conditions

abbrev pub unlisted : FrontendExtensionStatus → Option (List ExtensionCondition)
unlisted s = some s.conditions

unfoldable pub merge_status : StatusPatch → Option FrontendExtensionStatus → FrontendExtensionStatus
merge_status p old = record {
  phase = p.phase;
  observed_generation =
      replaced p.observed_generation
        (of_old old (λ (s : FrontendExtensionStatus). s.observed_generation));
  observed_source_hash =
      replaced p.observed_source_hash
        (of_old old (λ (s : FrontendExtensionStatus). s.observed_source_hash));
  observed_rebuild_token =
      replaced p.observed_rebuild_token
        (of_old old (λ (s : FrontendExtensionStatus). s.observed_rebuild_token));
  artifact =
      merged merge_artifact p.artifact (of_old old (λ (s : FrontendExtensionStatus). s.artifact));
  download = replaced p.download (of_old old (λ (s : FrontendExtensionStatus). s.download));
  package_job =
      merged merge_package_job p.package_job
        (of_old old (λ (s : FrontendExtensionStatus). s.package_job));
  publish =
      merged merge_publish p.publish (of_old old (λ (s : FrontendExtensionStatus). s.publish));
  unpublish =
      merged merge_unpublish p.unpublish
        (of_old old (λ (s : FrontendExtensionStatus). s.unpublish));
  conditions = listed (replaced p.conditions (of_old old unlisted));
}

-- `a.or(b)`
abbrev pub or_kept : {A : Type 0} → Option A → Option A → Option A
or_kept none old = old
or_kept (some a) old = some a

replaced-skipped : {A : Type 0} (o old : Option A) → replaced (skipped o) old ≡ or_kept o old
replaced-skipped none old = refl
replaced-skipped (some a) old = refl

replaced-cleared : {A : Type 0} (o old : Option A) → replaced (cleared o) old ≡ o
replaced-cleared none old = refl
replaced-cleared (some a) old = refl

module _ (s : FrontendExtensionStatus) where
  -- The status after the patch of `s` is merged into an old one.
  abbrev pub after_patch : Option FrontendExtensionStatus → FrontendExtensionStatus
  after_patch old = merge_status (frontend_extension_status_patch s) old

-- Where the old status and the new one both have a publish, the message of the last error is exactly
-- the new one's; but an id, a digest or a time that the new one does not have is the old one's.
pub merge_status-publish :
    (s old : FrontendExtensionStatus) (new_publish old_publish : PublishStatus)
    → s.publish ≡ some new_publish
    → old.publish ≡ some old_publish
    → (publish : PublishStatus) × ((after_patch s (some old)).publish ≡ some publish)
      × (publish.phase ≡ new_publish.phase)
      × (publish.active ≡ new_publish.active)
      × (publish.last_error ≡ new_publish.last_error)
      × (publish.request_id ≡ or_kept new_publish.request_id old_publish.request_id)
      × (publish.artifact_digest ≡ or_kept new_publish.artifact_digest old_publish.artifact_digest)
      × (publish.started_at ≡ or_kept new_publish.started_at old_publish.started_at)
      × (publish.finished_at ≡ or_kept new_publish.finished_at old_publish.finished_at)
unfolding merge_status frontend_extension_status_patch
merge_status-publish s old n o hn ho = (
  merge_publish (publish_patch n) (some o),
  rw (hn, ho) refl,
  refl,
  refl,
  replaced-cleared n.last_error _,
  replaced-skipped n.request_id _,
  replaced-skipped n.artifact_digest _,
  replaced-skipped n.started_at _,
  replaced-skipped n.finished_at _,
)

skipped-none : {A : Type 0} (o : Option A) → replaced (skipped o) none ≡ o
skipped-none none = refl
skipped-none (some a) = refl

ref-none : (r : NamespacedResourceRef) → merge_ref (ref_patch r) none ≡ r
ref-none r = rw (skipped-none r.uid) refl

job_ref-none :
    (o : Option NamespacedResourceRef)
    → merged merge_ref (skipped (map_option ref_patch o)) none ≡ o
job_ref-none none = refl
job_ref-none (some r) = ap some (ref-none r)

artifact-none :
    (o : Option ExtensionArtifactStatus)
    → merged merge_artifact (cleared (map_option artifact_patch o)) none ≡ o
artifact-none none = refl
artifact-none (some a) =
    ap some (rw (skipped-none a.storage.ref.uid, skipped-none a.artifact_key) refl)

package_job-none :
    (o : Option PackageJobStatus)
    → merged merge_package_job (cleared (map_option package_job_patch o)) none ≡ o
package_job-none none = refl
package_job-none (some j) = ap some (
    rw
      (
        skipped-none j.uid,
        skipped-none j.started_at,
        skipped-none j.finished_at,
        replaced-cleared j.message none,
      )
      refl)

publish-none :
    (o : Option PublishStatus)
    → merged merge_publish (cleared (map_option publish_patch o)) none ≡ o
publish-none none = refl
publish-none (some p) = ap some (
    rw
      (
        skipped-none p.request_id,
        skipped-none p.artifact_digest,
        job_ref-none p.job_ref,
        skipped-none p.started_at,
        skipped-none p.finished_at,
        replaced-cleared p.last_error none,
      )
      refl)

unpublish-none :
    (o : Option UnpublishStatus)
    → merged merge_unpublish (cleared (map_option unpublish_patch o)) none ≡ o
unpublish-none none = refl
unpublish-none (some u) = ap some (
    rw
      (
        skipped-none u.request_id,
        skipped-none u.extension_name,
        job_ref-none u.job_ref,
        skipped-none u.started_at,
        skipped-none u.finished_at,
        replaced-cleared u.last_error none,
      )
      refl)

conditions-none : (cs : List ExtensionCondition) → listed (replaced (unless_empty cs) none) ≡ cs
conditions-none [] = refl
conditions-none (c ∷ cs) = refl

-- Where there was no status, the patch makes exactly the status that it is made of.
pub merge_status-frontend_extension_status_patch :
    (s : FrontendExtensionStatus) → after_patch s none ≡ s
unfolding merge_status frontend_extension_status_patch
merge_status-frontend_extension_status_patch s =
    rw
      (
        skipped-none s.observed_generation,
        skipped-none s.observed_source_hash,
        skipped-none s.observed_rebuild_token,
        artifact-none s.artifact,
        replaced-cleared s.download none,
        package_job-none s.package_job,
        publish-none s.publish,
        unpublish-none s.unpublish,
        conditions-none s.conditions,
      )
      refl
