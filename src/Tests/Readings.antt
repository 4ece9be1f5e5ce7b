-- ===== src/Tests/Readings.antt =====
-- Readings of Jobs, ConfigMaps, requests and statuses.
use mathlib.Core.List.{Memᴰ, Permᴰ}
use kube_frontend_forge_cont.Common.{
  ℕ, String, true, false, none, some, [], ◌∷◌, ◌≡◌, ◌≢◌, ◌≤◌, ◌⊎◌, ◌↔◌, ◌-◌, refl, arith, All,
  length, List, ◌++◌, map, get,
}
use kube_frontend_forge_cont.Api.Fields.{pos}
use kube_frontend_forge_cont.Api.Kube.{ConfigMap}
use kube_frontend_forge_cont.Api.Status.{
  PublishStatus, UnpublishPhase, UnpublishStatus, FrontendExtensionStatus, ExtensionArtifactStatus,
}
use kube_frontend_forge_cont.Api.Extension.{annotation, non_empty}
use kube_frontend_forge_cont.Decimal.{parse_i64}
use kube_frontend_forge_cont.Keys.{fe_publish_fresh_true, anno_delete_after_unpublish_request_id}
use kube_frontend_forge_cont.Names.{package_job_name}
use kube_frontend_forge_cont.Identity.{frontend_extension_source_hash}
use kube_frontend_forge_cont.Identity.Naming.{
  with_surroundings, with_defaults, source_hash_of_surroundings, source_hash-with_defaults,
}
use kube_frontend_forge_cont.Jobs.{ObservedJobPhase, observed_job_phase}
use kube_frontend_forge_cont.Jobs.Verdict.{Counts, Reports, IsSilent, observed_succeeded_iff}
use kube_frontend_forge_cont.Controller.Package.{
  PackageAttempt, latest_package_attempt, package_attempt_from_job, max_from, later,
  compare_attempts,
}
use kube_frontend_forge_cont.Controller.Package.Attempts.{package_attempt_from_job-package_job_name}
use kube_frontend_forge_cont.Controller.Package.Latest.{latest_package_attempt_lem}
use kube_frontend_forge_cont.Controller.Artifact.{
  artifact_metadata_from_configmap, artifact_configmap_gc_candidates, gc_pool,
}
use kube_frontend_forge_cont.Controller.Artifact.Verified.{IsVerified, artifact_metadata_iff}
use kube_frontend_forge_cont.Controller.Artifact.Newest.{IsNewer}
use kube_frontend_forge_cont.Controller.Artifact.Collected.{
  IsCollectible, artifact_configmap_gc_candidates_lem, gc_retains_newest,
}
use kube_frontend_forge_cont.Controller.Publish.{
  PublishRequest, RequestOutcome, publish_request, publish_request_source_hash,
  publish_request_generation, publish_target_ref, publish_target_kind,
}
use kube_frontend_forge_cont.Controller.Publish.Accepted.{
  IsCurrent, requested_digest, publish_request-eq-accepted,
}
use kube_frontend_forge_cont.Controller.Unpublish.{
  UnpublishSync, apply_unpublish_sync, should_delete_after_unpublish,
}
use kube_frontend_forge_cont.Controller.Unpublish.Deactivate.{
  IsAfter, apply_unpublish_sync-inactive_iff, should_delete_after_unpublish_iff,
}
use kube_frontend_forge_cont.Controller.Status.Labels.{publish_fresh_label_value}
use kube_frontend_forge_cont.Controller.Status.{ready_fe_status}
use kube_frontend_forge_cont.Controller.Status.Freshness.{IsPublished, fresh_iff}
use kube_frontend_forge_cont.Tests.Data.{
  metadata, packages, packages-NamesByName, named, extension, configmap, counted, job_named,
  published, unpublished,
}

observed_succeeded_iff_example :
    ((observed_job_phase (some (counted (some (pos 1)) none)) ≡ ObservedJobPhase.succeeded) ↔ (
      Reports (counted (some (pos 1)) none) "Complete"
      ⊎ (IsSilent (counted (some (pos 1)) none) × Counts (some (pos 1)))))
    × ((observed_job_phase (some (counted (some (pos 1)) none)) ≡ ObservedJobPhase.failed) ↔ (
        (Reports (counted (some (pos 1)) none) "Failed"
          × ¬ Reports (counted (some (pos 1)) none) "Complete")
        ⊎ (IsSilent (counted (some (pos 1)) none) × ¬ Counts (some (pos 1)) × Counts none)))
observed_succeeded_iff_example = observed_succeeded_iff (counted (some (pos 1)) none)

artifact_metadata_iff_example :
    (artifact_metadata_from_configmap packages configmap "sha256:ab" "sha256:ab" ≡ some metadata)
    ↔ IsVerified packages configmap "sha256:ab" "sha256:ab" metadata
artifact_metadata_iff_example =
    artifact_metadata_iff packages configmap "sha256:ab" "sha256:ab" metadata

abbrev accepted : PublishRequest
accepted = record {
  request_id = "r1";
  artifact_digest = "sha256:ab";
  target_ref = record { namespace = "extension-frontend-forge"; name = "target"; uid = none };
  target_kind = "ConfigMap";
}

publish_accepted :
    publish_request extension "r1" (some (pos 2)) "sha256:ab" "sha256:ab"
    ≡ RequestOutcome.accepted accepted
unfolding publish_request publish_request_generation publish_request_source_hash publish_target_ref
    publish_target_kind annotation non_empty get parse_i64
publish_accepted = refl

publish_request-eq-accepted_example :
    IsCurrent extension "r1" (some (pos 2)) "sha256:ab" "sha256:ab"
    × ((publish_request_source_hash extension ≡ some "sha256:ab")
        ⊎ (requested_digest extension "r1" (some (pos 2)) "sha256:ab" "sha256:ab"
            ≡ some "sha256:ab"))
    × (accepted.request_id ≡ "r1")
    × (accepted.artifact_digest ≡ "sha256:ab")
    × (publish_target_ref extension ≡ some accepted.target_ref)
    × ((accepted.target_kind ≡ "ConfigMap") ⊎ (accepted.target_kind ≡ "Secret"))
publish_request-eq-accepted_example =
    publish_request-eq-accepted extension "r1" (some (pos 2)) "sha256:ab" "sha256:ab" accepted
      publish_accepted

package_attempt_from_job-package_job_name_example :
    package_attempt_from_job packages (job_named (package_job_name "demo" "sha256:ab" 2) none)
    ≡ some 2
package_attempt_from_job-package_job_name_example =
    package_attempt_from_job-package_job_name packages
      (job_named (package_job_name "demo" "sha256:ab" 2) none) "demo" "sha256:ab" 2
      packages-NamesByName refl (omega arith) (omega arith)

abbrev attempt : ℕ → PackageAttempt
attempt n = record { attempt = n; job = job_named "fe-demo-package-ab-a1" none }

attempts_latest :
    latest_package_attempt packages (attempt 1 ∷ attempt 3 ∷ attempt 2 ∷ []) ≡ some (attempt 3)
unfolding latest_package_attempt max_from later compare_attempts
attempts_latest = refl

latest_package_attempt_lem_example :
    Memᴰ (attempt 3) (attempt 1 ∷ attempt 3 ∷ attempt 2 ∷ [])
    × All (λ (a : PackageAttempt). a.attempt ≤ 3) (attempt 1 ∷ attempt 3 ∷ attempt 2 ∷ [])
latest_package_attempt_lem_example =
    latest_package_attempt_lem packages (attempt 1 ∷ attempt 3 ∷ attempt 2 ∷ []) (attempt 3)
      attempts_latest

artifact_configmap_gc_candidates_lem_example :
    All
      (λ name.
        (cm : ConfigMap) × (packages.name_any cm.metadata ≡ name)
        × IsCollectible packages (configmap ∷ []) extension ("other" ∷ []) cm)
      (artifact_configmap_gc_candidates packages (configmap ∷ []) extension ("other" ∷ []) 0)
artifact_configmap_gc_candidates_lem_example =
    artifact_configmap_gc_candidates_lem packages (configmap ∷ []) extension ("other" ∷ []) 0

gc_retains_newest_example :
    ((cm : ConfigMap)
      → Memᴰ cm (gc_pool packages (configmap ∷ []) extension ("other" ∷ []))
        ↔ IsCollectible packages (configmap ∷ []) extension ("other" ∷ []) cm)
    × (retained : List ConfigMap) × (collected : List ConfigMap) × (Permᴰ
        (retained ++ collected)
        (gc_pool packages (configmap ∷ []) extension ("other" ∷ [])))
    × (artifact_configmap_gc_candidates packages (configmap ∷ []) extension ("other" ∷ []) 0
        ≡ map (λ (cm : ConfigMap). packages.name_any cm.metadata) collected)
    × (length collected ≡ length (gc_pool packages (configmap ∷ []) extension ("other" ∷ [])) - 0)
    × All (λ kept. All (IsNewer kept) collected) retained
gc_retains_newest_example = gc_retains_newest packages (configmap ∷ []) extension ("other" ∷ []) 0

abbrev status : FrontendExtensionStatus
status =
    record (ready_fe_status packages extension "sha256:ab" "" "sha256:ab" configmap metadata none) {
      publish = some published;
    }

abbrev sync : UnpublishSync
sync = record { status = some unpublished; should_requeue = false }

apply_unpublish_sync-inactive_iff_example :
    (((apply_unpublish_sync status sync).publish ≡ some (record published { active = false }))
      ↔ ((unpublished.phase ≡ UnpublishPhase.succeeded) × IsAfter published unpublished))
    × (((apply_unpublish_sync status sync).publish ≡ some published)
        ↔ (¬ ((unpublished.phase ≡ UnpublishPhase.succeeded) × IsAfter published unpublished)))
apply_unpublish_sync-inactive_iff_example =
    apply_unpublish_sync-inactive_iff status sync published unpublished refl refl refl

should_delete_after_unpublish_iff_example :
    (should_delete_after_unpublish extension sync ≡ true) ↔ (
      (id : String) × (s : UnpublishStatus) × (annotation extension.metadata
          anno_delete_after_unpublish_request_id
        ≡ some id)
      × (id ≢ "")
      × (sync.status ≡ some s)
      × (s.phase ≡ UnpublishPhase.succeeded)
      × (s.request_id ≡ some id))
should_delete_after_unpublish_iff_example = should_delete_after_unpublish_iff extension sync

fresh_iff_example : (publish_fresh_label_value status ≡ fe_publish_fresh_true) ↔ (
    (artifact : ExtensionArtifactStatus) × (publish : PublishStatus) × (status.artifact
      ≡ some artifact)
    × IsPublished status publish
    × (publish.artifact_digest ≡ some artifact.digest))
fresh_iff_example = fresh_iff status

source_hash_of_surroundings_example :
    frontend_extension_source_hash packages
      (with_surroundings packages extension (named "demo" []) (some status) none)
    ≡ frontend_extension_source_hash packages extension
source_hash_of_surroundings_example =
    source_hash_of_surroundings packages extension (named "demo" []) (some status) none refl

source_hash-with_defaults_example :
    frontend_extension_source_hash packages (with_defaults packages extension)
    ≡ frontend_extension_source_hash packages extension
source_hash-with_defaults_example = source_hash-with_defaults packages extension
