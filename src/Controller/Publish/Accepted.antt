-- ===== src/Controller/Publish/Accepted.antt =====
-- What an accepted publish request asks for
-- (crates/frontend-extension-controller/src/publish.rs: `publish_request`).
use kube_frontend_forge_cont.Common.{String, false, Option, none, some, ◌≡◌, ◌⊎◌, arith, ==_iff}
use kube_frontend_forge_cont.Api.Fields.{ℤ}
use kube_frontend_forge_cont.Api.Extension.{FrontendExtension, annotation, non_empty}
use kube_frontend_forge_cont.Keys.{anno_publish_artifact_digest}
use kube_frontend_forge_cont.Controller.Integers.{same_generation_iff}
use kube_frontend_forge_cont.Controller.Publish.{
  PublishRequest, RequestOutcome, publish_request, publish_request_generation,
  publish_request_source_hash, publish_target_ref, publish_target_kind, with_hash, with_digest,
  differs_generation, differs_hash,
}

-- What is asked for is what there is: the value is left out, or it is the current one.
abbrev pub Agrees : Option String → String → Type 0
Agrees o s = (o ≡ none) ⊎ (o ≡ some s)

differs_hash-false : (o : Option String) (s : String) → differs_hash o s ≡ false → Agrees o s
differs_hash-false none s h = ground arith
differs_hash-false (some t) s h = ground (arith, ==_iff t s)

differs_generation-false : (o g : Option ℤ) → differs_generation o g ≡ false → (o ≡ none) ⊎ (o ≡ g)
differs_generation-false none g h = ground arith
differs_generation-false (some z) g h = ground (arith, same_generation_iff (some z) g)

module _ (fe : FrontendExtension) (request_id : String) where
  -- The target of a request for a digest.
  abbrev IsTarget : String → PublishRequest → Type 0
  IsTarget digest r =
      (r.request_id ≡ request_id)
      × (r.artifact_digest ≡ digest)
      × (publish_target_ref fe ≡ some r.target_ref)
      × ((r.target_kind ≡ "ConfigMap") ⊎ (r.target_kind ≡ "Secret"))

  with_digest-eq-accepted :
      (digest : String) (r : PublishRequest)
      → with_digest fe request_id digest ≡ RequestOutcome.accepted r
      → IsTarget digest r
  unfolding with_digest
  with_digest-eq-accepted digest r h =
      ground (
        arith,
        ==_iff (publish_target_kind fe) "ConfigMap",
        ==_iff (publish_target_kind fe) "Secret",
      )

  with_hash-eq-accepted :
      (current source_hash : String) (asked_hash asked_digest : Option String) (r : PublishRequest)
      → Agrees asked_hash source_hash
      → with_hash fe request_id current asked_hash asked_digest ≡ RequestOutcome.accepted r
      → Agrees asked_digest current
        × ((asked_hash ≡ some source_hash) ⊎ (asked_digest ≡ some current))
        × IsTarget current r
  unfolding with_hash
  with_hash-eq-accepted current source_hash none none r g h = ground arith
  with_hash-eq-accepted current source_hash (some s) none r g h =
      ground (arith, with_digest-eq-accepted current r)
  with_hash-eq-accepted current source_hash asked_hash (some d) r g h =
      ground (arith, ==_iff d current, with_digest-eq-accepted d r)

module _ (fe : FrontendExtension) (request_id : String) (generation : Option ℤ)
    (source_hash : String) (digest : String) where
  abbrev pub requested_digest : Option String
  requested_digest = non_empty (annotation fe.metadata anno_publish_artifact_digest)

  abbrev pub IsCurrent : Type 0
  IsCurrent =
      ((publish_request_generation fe ≡ none) ⊎ (publish_request_generation fe ≡ generation))
      × Agrees (publish_request_source_hash fe) source_hash
      × Agrees requested_digest digest

  -- An accepted request carries its id, the current artifact's digest, the target of the annotations
  -- or of the policy, and a kind that can be published to; all that it asks for is current, and it
  -- names a source hash or a digest.
  pub publish_request-eq-accepted :
      (r : PublishRequest)
      → publish_request fe request_id generation source_hash digest ≡ RequestOutcome.accepted r
      → IsCurrent
        × ((publish_request_source_hash fe ≡ some source_hash) ⊎ (requested_digest ≡ some digest))
        × (r.request_id ≡ request_id)
        × (r.artifact_digest ≡ digest)
        × (publish_target_ref fe ≡ some r.target_ref)
        × ((r.target_kind ≡ "ConfigMap") ⊎ (r.target_kind ≡ "Secret"))
  unfolding publish_request
  publish_request-eq-accepted r h = ground (
    arith,
    differs_generation-false (publish_request_generation fe) generation,
    differs_hash-false (publish_request_source_hash fe) source_hash,
    with_hash-eq-accepted fe request_id digest source_hash (publish_request_source_hash fe)
        requested_digest r,
  )
