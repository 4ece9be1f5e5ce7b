-- ===== src/Jobs.antt =====
-- What a controller reads off a Job's status (crates/common/src/lib.rs: `observed_job_phase`,
-- `extract_job_message`).
pub mod Verdict
use kube_frontend_forge_cont.Common.{
  ℕ, zero, suc, Bool, true, false, ◌&&◌, Option, none, some, List, [], ◌∷◌, String, ◌==◌, any, find,
  if◌then◌else◌,
}
use kube_frontend_forge_cont.Api.Fields.{ℤ, pos, negsuc}
use kube_frontend_forge_cont.Api.Kube.{JobCondition, JobStatus, Job}

pub data ObservedJobPhase : Type 0 where
  pending running succeeded failed : ObservedJobPhase

-- `count.unwrap_or(0) > 0`
abbrev pub is_positive : Option ℤ → Bool
is_positive none = false
is_positive (some (pos zero)) = false
is_positive (some (pos (suc n))) = true
is_positive (some (negsuc n)) = false

-- `cond.status == "True" && cond.type_ == type_`
abbrev pub holds : String → JobCondition → Bool
holds type cond = (cond.status == "True") && (cond.type == type)

abbrev pub conditions_of : Option (List JobCondition) → List JobCondition
conditions_of none = []
conditions_of (some conditions) = conditions

phase_of : JobStatus → ObservedJobPhase
phase_of status =
    if any (holds "Complete") (conditions_of status.conditions)
    then ObservedJobPhase.succeeded
    else if any (holds "Failed") (conditions_of status.conditions)
    then ObservedJobPhase.failed
    else if is_positive status.active
    then ObservedJobPhase.running
    else if is_positive status.succeeded
    then ObservedJobPhase.succeeded
    else if is_positive status.failed
    then ObservedJobPhase.failed
    else ObservedJobPhase.pending

unfoldable pub observed_job_phase : Option JobStatus → ObservedJobPhase
unfolding phase_of
observed_job_phase none = ObservedJobPhase.pending
observed_job_phase (some status) = phase_of status

-- `cond.message.clone().or_else(|| cond.reason.clone())`
abbrev or_else : Option String → Option String → Option String
or_else none o = o
or_else (some s) o = some s

message_of : Option JobStatus → Option String
message_of none = none
message_of (some status) = elim (find (holds "Failed") (conditions_of status.conditions)) [
  | none ↦ none
  | some cond ↦ or_else cond.message cond.reason
]

unfoldable pub extract_job_message : Job → Option String
unfolding message_of
extract_job_message job = message_of job.status
