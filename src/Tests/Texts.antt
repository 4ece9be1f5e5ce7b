-- ===== src/Tests/Texts.antt =====
-- Names and numbers.
use kube_frontend_forge_cont.Common.{some, ◌≡◌, ◌≤◌, arith, len, chars}
use kube_frontend_forge_cont.Api.Fields.{negsuc}
use kube_frontend_forge_cont.Decimal.{decimal, decimal_signed, parse_u32, parse_i64}
use kube_frontend_forge_cont.Decimal.RoundTrip.{parse_u32-decimal, parse_i64-decimal_signed}
use kube_frontend_forge_cont.Names.{bounded_name, package_job_name, artifact_configmap_name}
use kube_frontend_forge_cont.Names.Labels.{IsLabel, bounded_name-IsLabel, bounded_name_idempotent}
use kube_frontend_forge_cont.Names.Bounds.{resource_names_bounded}

parse_u32-decimal_example : parse_u32 (decimal 42) ≡ some 42
parse_u32-decimal_example = parse_u32-decimal 42 (omega arith)

parse_i64-decimal_signed_example : parse_i64 (decimal_signed (negsuc 6)) ≡ some (negsuc 6)
parse_i64-decimal_signed_example = parse_i64-decimal_signed (negsuc 6) (omega arith)

bounded_name-IsLabel_example :
    IsLabel (chars (bounded_name "-My..Demo-" 5)) × (len (bounded_name "-My..Demo-" 5) ≤ 5)
bounded_name-IsLabel_example = bounded_name-IsLabel "-My..Demo-" 5 (omega arith)

bounded_name_idempotent_example :
    bounded_name (bounded_name "-My..Demo-" 5) 5 ≡ bounded_name "-My..Demo-" 5
bounded_name_idempotent_example = bounded_name_idempotent "-My..Demo-" 5 (omega arith)

resource_names_bounded_example :
    (len (package_job_name "demo" "sha256:ab" 2) ≤ 63)
    × (len (artifact_configmap_name "demo" "sha256:ab") ≤ 63)
resource_names_bounded_example = resource_names_bounded "demo" "sha256:ab" 2
