-- ===== src/Requests/Resolved.antt =====
-- What the extension API resolves a publish request to.
use kube_frontend_forge_cont.Common.{
  ◌<◌, String, Option, none, some, ◌≡◌, ◌≢◌, inl, inr, ap, arith, ==_iff, ◌&◌, len, len-&,
  Option-cases,
}
use kube_frontend_forge_cont.Api.Fields.{ℤ, NamespacedResourceRef}
use kube_frontend_forge_cont.Api.Status.{ExtensionArtifactStatus}
use kube_frontend_forge_cont.Api.Extension.{FrontendExtension, non_empty}
use kube_frontend_forge_cont.Outside.{Outside}
use kube_frontend_forge_cont.Identity.{frontend_extension_source_hash, hash_of, text_sha256}
use mathlib.Core.Path.{subst}
use mathlib.Core.Option.{some-injective}
use kube_frontend_forge_cont.Controller.Publish.{
  or_default, publish_target_ref, publish_target_kind,
}
use kube_frontend_forge_cont.Decimal.RoundTrip.{InRange}
use kube_frontend_forge_cont.Requests.{
  ResolvedPublishRequest, Resolution, map_trim, digest_of, with_target, publish_with_target,
  resolve_publish_request, generated_publish_request_id,
}
use kube_frontend_forge_cont.Requests.Handover.{IsComplete}

pub prefixed-ne : (p s : String) → 0 < len p → (p & s) ≢ ""
prefixed-ne p s h e = omega (arith, len-& p s, ap len e)

generated-ne : (t d : String) → generated_publish_request_id t d ≢ ""
unfolding generated_publish_request_id
generated-ne t d = prefixed-ne "api-" _ (omega arith)

pub or_default-ne : (o : Option String) (s : String) → s ≢ "" → or_default (non_empty o) s ≢ ""
unfolding non_empty
or_default-ne none s h = h
or_default-ne (some t) s h = ground (arith, ==_iff t "")

hash_of-ne :
    (out : Outside) (o : Option String) (hash : String) → hash_of out o ≡ some hash → hash ≢ ""
hash_of-ne out none hash h = absurd (ground arith)
hash_of-ne out (some content) hash h =
    subst (λ s. s ≢ "") (some-injective _ hash h)
      (prefixed-ne "sha256:" (text_sha256 out content) (omega arith))

pub source_hash-ne :
    (out : Outside) (fe : FrontendExtension) (hash : String)
    → frontend_extension_source_hash out fe ≡ some hash
    → hash ≢ ""
unfolding frontend_extension_source_hash
source_hash-ne out fe hash h = hash_of-ne out _ hash h

module _ (out : Outside) (timestamp : String) (fe : FrontendExtension) (request_id : Option String)
    (artifact : Option ExtensionArtifactStatus) (r : ResolvedPublishRequest) where
  -- What is resolved for a target.
  abbrev IsFor : NamespacedResourceRef → String → Type 0
  IsFor target kind =
      (r.request_id ≢ "")
      × (r.source_hash ≢ "")
      × (frontend_extension_source_hash out fe ≡ some r.source_hash)
      × (r.generation ≡ fe.metadata.generation)
      × (r.artifact_digest ≡ digest_of artifact)
      × (r.target_ref ≡ target)
      × (r.target_kind ≡ kind)

  publish_with_target-IsFor :
      (target : NamespacedResourceRef) (kind : String)
      → publish_with_target out timestamp fe request_id artifact target kind ≡ Resolution.resolved r
      → IsFor target kind
  unfolding publish_with_target
  publish_with_target-IsFor target kind h =
      elim (Option-cases (frontend_extension_source_hash out fe)) [
        | inl e ↦ absurd (ground (arith, e))
        | inr (hash, e) ↦
            let ne = source_hash-ne out fe hash e in
            let id =
              generated_publish_request_id timestamp (or_default (digest_of artifact) hash) in
            let idne = or_default-ne (map_trim request_id) id (generated-ne timestamp _) in
            ground (arith, e, ne, idne)
      ]

-- Of an extension that has an `i64` for its generation, every publish request that is resolved can be
-- taken up: it is complete for that generation, and it names the source hash of the extension and the
-- digest of the artifact, where there is one.
pub resolve_publish_request-IsComplete :
    (out : Outside) (timestamp : String) (fe : FrontendExtension) (request_id : Option String)
    (artifact : Option ExtensionArtifactStatus) (g : ℤ) (r : ResolvedPublishRequest)
    → fe.metadata.generation ≡ some g
    → InRange g
    → resolve_publish_request out timestamp fe request_id artifact ≡ Resolution.resolved r
    → IsComplete r.request_id r.source_hash r.target_kind g r.target_ref
      × (r.generation ≡ some g)
      × (frontend_extension_source_hash out fe ≡ some r.source_hash)
      × (r.artifact_digest ≡ digest_of artifact)
unfolding resolve_publish_request with_target
resolve_publish_request-IsComplete out timestamp fe request_id artifact g r hg range h =
    elim (Option-cases (publish_target_ref fe)) [
      | inl e ↦ absurd (ground (arith, e))
      | inr (target, e) ↦ ground (
        arith,
        e,
        ==_iff target.namespace "",
        ==_iff target.name "",
        ==_iff (publish_target_kind fe) "ConfigMap",
        ==_iff (publish_target_kind fe) "Secret",
        publish_with_target-IsFor out timestamp fe request_id artifact r target
            (publish_target_kind fe),
      )
    ]
