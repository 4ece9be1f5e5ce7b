-- ===== src/Controller/Times.antt =====
-- Readings of objects that several parts of the controller share: `k8s_time_to_chrono` (package.rs),
-- `namespaced_ref` (status.rs), and the times of a Job.
use kube_frontend_forge_cont.Common.{String, Option, none, some}
use kube_frontend_forge_cont.Api.Fields.{ℤ, pos, negsuc, DateTime, NamespacedResourceRef}
use kube_frontend_forge_cont.Api.Kube.{ObjectMeta, JobStatus}
use kube_frontend_forge_cont.Outside.{Outside}

-- `unwrap_or_default()` of a text
abbrev pub or_empty : Option String → String
or_empty none = ""
or_empty (some s) = s

module _ (out : Outside) where
  -- `u32::try_from(nanos).ok()?`: a negative number fails. Nanoseconds below a second fit.
  from_parts : ℤ → ℤ → Option DateTime
  from_parts second (negsuc n) = none
  from_parts second (pos n) = out.from_timestamp second n

  unfoldable pub k8s_time_to_chrono : DateTime → Option DateTime
  unfolding from_parts
  k8s_time_to_chrono time = from_parts (out.as_second time) (out.subsec_nanosecond time)

  abbrev and_then_chrono : Option DateTime → Option DateTime
  and_then_chrono none = none
  and_then_chrono (some t) = k8s_time_to_chrono t

  unfoldable pub job_started_at : Option JobStatus → Option DateTime
  job_started_at none = none
  job_started_at (some status) = and_then_chrono status.start_time

  unfoldable pub job_finished_at : Option JobStatus → Option DateTime
  job_finished_at none = none
  job_finished_at (some status) = and_then_chrono status.completion_time

  unfoldable pub namespaced_ref : ObjectMeta → NamespacedResourceRef
  namespaced_ref meta = record {
    namespace = or_empty meta.namespace;
    name = out.name_any meta;
    uid = meta.uid;
  }
