-- ===== src/Controller/Package.antt =====
-- Package attempts and package Jobs (crates/frontend-extension-controller/src/package.rs).
pub mod Attempts
pub mod Latest
pub mod Make
use Prim.Native.String.{compare}
use Prim.Native.Nat.{Ordering, compare as compare_ℕ}
use kube_frontend_forge_cont.Common.{
  ℕ, zero, suc, ◌+◌, ◌≤◌, ◌<◌, Char, code, Bool, true, false, ◌&&◌, ◌||◌, String, Option, none,
  some, List, [], ◌∷◌, BTreeMap, ◌==◌, ◌&◌, chars, collect, eqb, leb, ltb, if◌then◌else◌,
  filter_map, trim,
}
use kube_frontend_forge_cont.Api.Fields.{DateTime}
use kube_frontend_forge_cont.Api.Kube.{ObjectMeta, Job}
use kube_frontend_forge_cont.Api.Status.{PackageJobPhase, PackageJobStatus, FrontendExtensionStatus}
use kube_frontend_forge_cont.Api.Extension.{FrontendExtension, annotation, non_empty}
use kube_frontend_forge_cont.Decimal.{decimal, parse_u32}
use kube_frontend_forge_cont.Names.{hash_label_value}
use kube_frontend_forge_cont.Keys.{
  label_fe_name, label_fe_uid, label_artifact_key_short, label_package_kind, package_kind_value,
  anno_rebuild_token,
}
use kube_frontend_forge_cont.Jobs.{ObservedJobPhase, observed_job_phase, extract_job_message}
use kube_frontend_forge_cont.Outside.{Outside}
use kube_frontend_forge_cont.Controller.Times.{job_started_at, job_finished_at, or_empty}

pub record PackageAttempt : Type 0 where
  pub attempt : ℕ
  pub job : Job

-- `rsplit_once("-a")`: the text before and behind the last "-a".
abbrev starts_dash_a : Char → List Char → Bool
starts_dash_a c [] = false
starts_dash_a c (d ∷ cs) = eqb (code c) b'-' && eqb (code d) b'a'

abbrev tail : List Char → List Char
tail [] = []
tail (c ∷ cs) = cs

unfoldable pub rsplit_once_dash_a : List Char → Option (List Char × List Char)
rsplit_once_dash_a [] = none
rsplit_once_dash_a (c ∷ cs) = elim (rsplit_once_dash_a cs) [
  | some (before, behind) ↦ some (c ∷ before, behind)
  | none ↦ if starts_dash_a c cs then some ([], tail cs) else none
]

-- `(attempt > 0).then_some(attempt)`
abbrev positive : Option ℕ → Option ℕ
positive none = none
positive (some zero) = none
positive (some (suc n)) = some (suc n)

-- The number at the end of a Job's name.
unfoldable pub attempt_of_name : List Char → Option ℕ
attempt_of_name name = elim (rsplit_once_dash_a name) [
  | none ↦ none
  | some (before, behind) ↦ positive (parse_u32 behind)
]

-- Lexicographic order: `then_with`.
abbrev then_with : Ordering → Ordering → Ordering
then_with Ordering.eq o = o
then_with o p = o

-- `Ord` of `Option`: `None` comes first.
abbrev pub compare_times : Option DateTime → Option DateTime → Ordering
compare_times none none = Ordering.eq
compare_times none (some t) = Ordering.lt
compare_times (some s) none = Ordering.gt
compare_times (some s) (some t) = compare_ℕ s t

module _ (out : Outside) where
  unfoldable pub package_attempt_from_job : Job → Option ℕ
  package_attempt_from_job job = attempt_of_name (chars (out.name_any job.metadata))

  -- The `filter_map` of `list_package_jobs_for_artifact_key`.
  abbrev as_attempt : Job → Option PackageAttempt
  as_attempt job = elim (package_attempt_from_job job) [
    | none ↦ none
    | some attempt ↦ some (record { attempt = attempt; job = job })
  ]

  unfoldable pub package_attempts : List Job → List PackageAttempt
  package_attempts jobs = filter_map as_attempt jobs

  unfoldable pub compare_attempts : PackageAttempt → PackageAttempt → Ordering
  compare_attempts a b = then_with (compare_ℕ a.attempt b.attempt) (
      then_with (compare_times a.job.metadata.creation_timestamp b.job.metadata.creation_timestamp)
        (compare (out.name_any a.job.metadata) (out.name_any b.job.metadata)))

  -- One step of `max_by`, which keeps the later of two that compare equal.
  unfoldable pub later : PackageAttempt → PackageAttempt → PackageAttempt
  unfolding compare_attempts
  later a b = elim (compare_attempts a b) [ Ordering.gt ↦ a | _ ↦ b ]

  unfoldable pub max_from : PackageAttempt → List PackageAttempt → PackageAttempt
  max_from best [] = best
  max_from best (a ∷ attempts) = max_from (later best a) attempts

  unfoldable pub latest_package_attempt : List PackageAttempt → Option PackageAttempt
  unfolding max_from
  latest_package_attempt [] = none
  latest_package_attempt (a ∷ attempts) = some (max_from a attempts)

  unfoldable pub frontend_extension_uid_label : FrontendExtension → String
  frontend_extension_uid_label fe = or_empty fe.metadata.uid

  pub package_job_selector : FrontendExtension → String → String
  unfolding frontend_extension_uid_label
  package_job_selector fe artifact_key =
      label_fe_name
      & "="
      & out.name_any fe.metadata
      & ","
      & label_fe_uid
      & "="
      & frontend_extension_uid_label fe
      & ","
      & label_artifact_key_short
      & "="
      & hash_label_value artifact_key
      & ","
      & label_package_kind
      & "="
      & package_kind_value

  abbrev package_phase : ObservedJobPhase → PackageJobPhase
  package_phase ObservedJobPhase.pending = PackageJobPhase.pending
  package_phase ObservedJobPhase.running = PackageJobPhase.running
  package_phase ObservedJobPhase.succeeded = PackageJobPhase.succeeded
  package_phase ObservedJobPhase.failed = PackageJobPhase.failed

  unfoldable pub package_job_status : Job → PackageJobStatus
  package_job_status job = record {
    namespace = or_empty job.metadata.namespace;
    name = out.name_any job.metadata;
    uid = job.metadata.uid;
    phase = package_phase (observed_job_phase job.status);
    started_at = job_started_at out job.status;
    finished_at = job_finished_at out job.status;
    message = extract_job_message job;
  }

abbrev map_trim : Option String → Option String
map_trim none = none
map_trim (some s) = some (trim s)

unfoldable pub frontend_extension_rebuild_token : FrontendExtension → String
frontend_extension_rebuild_token fe =
    or_empty (non_empty (map_trim (annotation fe.metadata anno_rebuild_token)))

unfoldable pub package_attempts_exceeded_message : String → ℕ → ℕ → String → String
package_attempts_exceeded_message artifact_key latest_attempt max_attempts latest_message =
    "Package attempts exceeded for artifactKey short "
    & hash_label_value artifact_key
    & ": latest attempt "
    & collect (decimal latest_attempt)
    & ", max attempts "
    & collect (decimal max_attempts)
    & ". Latest job failure: "
    & latest_message

unfoldable pub existing_package_job : FrontendExtension → Option PackageJobStatus
existing_package_job fe = elim (fe.status) [ none ↦ none | some status ↦ status.package_job ]
