-- ===== src/Controller/Reconcile/Progress.antt =====
-- How the attempts go on: the Job that a reconciliation creates is counted as the next attempt.
use kube_frontend_forge_cont.Common.{◌≤◌, ◌<◌, String, Option, none, some, ◌≡◌, refl, arith}
use kube_frontend_forge_cont.Api.Extension.{FrontendExtension}
use kube_frontend_forge_cont.Decimal.{max_u32}
use kube_frontend_forge_cont.Outside.{Outside, NamesByName}
use kube_frontend_forge_cont.Controller.Config.{ControllerConfig}
use kube_frontend_forge_cont.Controller.Package.{PackageAttempt, package_attempt_from_job}
use kube_frontend_forge_cont.Controller.Package.Attempts.{package_attempt_from_job-package_job_name}
use kube_frontend_forge_cont.Controller.Package.Make.{make_package_job}
use kube_frontend_forge_cont.Controller.Reconcile.{next_attempt, desired_job}

next_attempt-bounds :
    (latest : Option PackageAttempt) → (0 < next_attempt latest) × (next_attempt latest ≤ max_u32)
unfolding next_attempt
next_attempt-bounds none = (omega arith, omega arith)
next_attempt-bounds (some a) = ground arith

-- Where `name_any` gives an object's name, the package Job for the next attempt is itself counted as
-- that attempt; and its number is higher than the latest one's, as long as that is below the highest
-- number of 32 bits.
pub desired_job-attempt :
    (out : Outside) (fe : FrontendExtension) (config : ControllerConfig)
    (source_hash rebuild_token key : String) (latest : PackageAttempt)
    → NamesByName out
    → latest.attempt < max_u32
    → (package_attempt_from_job out
          (desired_job out fe config source_hash rebuild_token key (next_attempt (some latest)))
        ≡ some (next_attempt (some latest)))
      × (latest.attempt < next_attempt (some latest))
unfolding make_package_job next_attempt
desired_job-attempt out fe config source_hash rebuild_token key latest named h =
    let (low, high) = next_attempt-bounds (some latest) in
    (
      package_attempt_from_job-package_job_name out _ (out.name_any fe.metadata) key
          (next_attempt (some latest)) named refl low high,
      ground arith,
    )
