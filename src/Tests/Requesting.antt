-- ===== src/Tests/Requesting.antt =====
-- Requests of the extension API.
use kube_frontend_forge_cont.Common.{
  trim, String, false, none, some, ◌≡◌, ◌≢◌, inr, refl, arith, ==_iff, ◌==◌, get,
}
use kube_frontend_forge_cont.Api.Fields.{pos, NamespacedResourceRef}
use kube_frontend_forge_cont.Api.Status.{PublishPhase, default_publish}
use kube_frontend_forge_cont.Api.Extension.{annotation, non_empty}
use kube_frontend_forge_cont.Identity.{frontend_extension_source_hash}
use kube_frontend_forge_cont.Controller.Publish.{
  RequestOutcome, publish_request_id, publish_request, pending_publish_for_current_source,
  publish_target_ref, publish_target_kind,
}
use kube_frontend_forge_cont.Requests.{
  ResolvedPublishRequest, Resolution, digest_of, resolve_publish_request, with_target,
  publish_with_target, generated_publish_request_id,
}
use kube_frontend_forge_cont.Requests.Handover.{
  IsComplete, asked, publish_request-patch_publish_request, pending_publish-patch_publish_request,
}
use kube_frontend_forge_cont.Requests.Resolved.{resolve_publish_request-IsComplete}
use kube_frontend_forge_cont.Tests.Data.{packages, extension, requests}

abbrev target : NamespacedResourceRef
target = record { namespace = "extension-frontend-forge"; name = "target"; uid = some "u7" }

filled : (s : String) → (s == "") ≡ false → s ≢ ""
filled s h e = ground (arith, h, e, ==_iff s "")

complete : IsComplete "r9" "sha256:ab" "Secret" (pos 2) target
complete = (
  filled "r9" refl,
  filled "sha256:ab" refl,
  filled "extension-frontend-forge" refl,
  filled "target" refl,
  inr refl,
  omega arith,
)

publish_request-patch_publish_request_example :
    (publish_request_id (
        asked extension requests "r9" "sha256:ab" "Secret"
          (pos 2)
          target
          complete
          (some "sha256:ab"))
      ≡ some "r9")
    × (publish_request
          (asked extension requests "r9" "sha256:ab" "Secret"
            (pos 2)
            target
            complete
            (some "sha256:ab"))
          "r9"
          (some (pos 2))
          "sha256:ab"
          "sha256:ab"
        ≡ RequestOutcome.accepted (record {
          request_id = "r9";
          artifact_digest = "sha256:ab";
          target_ref = record target { uid = none };
          target_kind = "Secret";
        }))
publish_request-patch_publish_request_example =
    publish_request-patch_publish_request extension requests "r9" "sha256:ab" "Secret" (pos 2)
      target complete "sha256:ab" (filled "sha256:ab" refl)

pending_publish-patch_publish_request_example :
    (pending_publish_for_current_source
        (asked extension requests "r9" "sha256:ab" "Secret" (pos 2) target complete none)
        (some (pos 2))
        "sha256:ab"
      ≡ some (record default_publish { phase = PublishPhase.pending; request_id = some "r9" }))
    × (publish_request
          (asked extension requests "r9" "sha256:ab" "Secret" (pos 2) target complete none)
          "r9"
          (some (pos 2))
          "sha256:ab"
          "sha256:cd"
        ≡ RequestOutcome.accepted (record {
          request_id = "r9";
          artifact_digest = "sha256:cd";
          target_ref = record target { uid = none };
          target_kind = "Secret";
        }))
pending_publish-patch_publish_request_example =
    pending_publish-patch_publish_request extension requests "r9" "sha256:ab" "Secret" (pos 2)
      target complete "sha256:cd"

abbrev request : ResolvedPublishRequest
request = record {
  request_id = "r9";
  artifact_digest = none;
  generation = some (pos 2);
  source_hash = "sha256:ab";
  target_ref = record target { uid = none };
  target_kind = "ConfigMap";
}

request_resolved :
    resolve_publish_request packages "1700000000" extension (some " r9 ") none
    ≡ Resolution.resolved request
unfolding resolve_publish_request with_target publish_with_target publish_target_ref
    publish_target_kind annotation get non_empty frontend_extension_source_hash trim
    generated_publish_request_id
request_resolved = refl

resolve_publish_request-IsComplete_example :
    IsComplete request.request_id request.source_hash request.target_kind (pos 2) request.target_ref
    × (request.generation ≡ some (pos 2))
    × (frontend_extension_source_hash packages extension ≡ some request.source_hash)
    × (request.artifact_digest ≡ digest_of none)
resolve_publish_request-IsComplete_example =
    resolve_publish_request-IsComplete packages "1700000000" extension (some " r9 ") none (pos 2)
      request refl (omega arith) request_resolved
