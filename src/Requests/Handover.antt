-- ===== src/Requests/Handover.antt =====
-- The controller takes up what the extension API has asked for.
use kube_frontend_forge_cont.Common.{
  true, String, Option, none, some, [], ◌∷◌, ◌≡◌, ◌≢◌, ◌⊎◌, inl, inr, refl, arith, BTreeMap, get,
  insert, get-insert, remove, get-remove, ==_iff, ==_refl, collect, chars-collect,
}
use kube_frontend_forge_cont.Api.Fields.{ℤ, NamespacedResourceRef}
use kube_frontend_forge_cont.Api.Status.{PublishPhase, default_publish}
use kube_frontend_forge_cont.Api.Extension.{FrontendExtension, annotation, non_empty}
use kube_frontend_forge_cont.Decimal.{decimal_signed}
use kube_frontend_forge_cont.Decimal.RoundTrip.{InRange, parse_i64-decimal_signed}
use kube_frontend_forge_cont.Keys.{
  anno_publish_request_id, anno_publish_request_generation, anno_publish_request_source_hash,
  anno_publish_artifact_digest, anno_publish_target_kind, anno_publish_target_namespace,
  anno_publish_target_name,
}
use kube_frontend_forge_cont.Controller.Integers.{same_generation_iff}
use kube_frontend_forge_cont.Controller.Publish.{
  RequestOutcome, publish_request_id, publish_request, publish_request_generation,
  publish_request_source_hash, publish_target_ref, publish_target_kind, is_target_kind,
  pending_publish_for_current_source,
}
use kube_frontend_forge_cont.Requests.{ResolvedPublishRequest, patch_publish_request}

-- The entries of a merge patch, put over those that were there: null removes, a value replaces.
abbrev pub merge_entries : BTreeMap (Option String) → BTreeMap String → BTreeMap String
merge_entries [] old = old
merge_entries ((k, none) ∷ p) old = remove k (merge_entries p old)
merge_entries ((k, some v) ∷ p) old = insert k v (merge_entries p old)

-- The extension after the patch was merged into its annotations.
abbrev pub with_request :
    FrontendExtension → BTreeMap String → ResolvedPublishRequest → FrontendExtension
with_request fe old r = record fe {
  metadata = record (fe.metadata) {
    annotations = some (merge_entries (patch_publish_request r) old);
  };
}

-- A request with a generation and a digest.
abbrev request_of :
    String → Option String → ℤ → String → NamespacedResourceRef → String → ResolvedPublishRequest
request_of id digest g hash target kind = record {
  request_id = id;
  artifact_digest = digest;
  generation = some g;
  source_hash = hash;
  target_ref = target;
  target_kind = kind;
}

module _ (old : BTreeMap String) (id hash kind : String) (g : ℤ)
    (target : NamespacedResourceRef) where
  abbrev entries : Option String → BTreeMap String
  entries digest =
      merge_entries (patch_publish_request (request_of id digest g hash target kind)) old

  get-id : (digest : Option String) → get (entries digest) anno_publish_request_id ≡ some id
  unfolding patch_publish_request insert
  get-id none = simp get-insert
  get-id (some d) = simp get-insert

  get-hash :
      (digest : Option String) → get (entries digest) anno_publish_request_source_hash ≡ some hash
  unfolding patch_publish_request insert
  get-hash none = simp get-insert
  get-hash (some d) = simp get-insert

  get-kind : (digest : Option String) → get (entries digest) anno_publish_target_kind ≡ some kind
  unfolding patch_publish_request insert
  get-kind none = simp get-insert
  get-kind (some d) = simp get-insert

  get-namespace :
      (digest : Option String)
      → get (entries digest) anno_publish_target_namespace ≡ some target.namespace
  unfolding patch_publish_request insert
  get-namespace none = simp get-insert
  get-namespace (some d) = simp get-insert

  get-name :
      (digest : Option String) → get (entries digest) anno_publish_target_name ≡ some target.name
  unfolding patch_publish_request insert
  get-name none = simp get-insert
  get-name (some d) = simp get-insert

  get-generation :
      (digest : Option String)
      → get (entries digest) anno_publish_request_generation ≡ some (collect (decimal_signed g))
  unfolding patch_publish_request insert
  get-generation none = simp get-insert
  get-generation (some d) = simp get-insert

  get-digest : (digest : Option String) → get (entries digest) anno_publish_artifact_digest ≡ digest
  unfolding patch_publish_request insert
  get-digest none = simp (get-insert, get-remove)
  get-digest (some d) = simp get-insert

pub non_empty_id : (s : String) → s ≢ "" → non_empty (some s) ≡ some s
unfolding non_empty
non_empty_id s h = ground (arith, ==_iff s "")

-- What a request has to have to be taken up: ids, hashes and target are not empty, the generation is an
-- `i64`, and the kind can be published to.
abbrev pub IsComplete : String → String → String → ℤ → NamespacedResourceRef → Type 0
IsComplete id hash kind g target =
    (id ≢ "")
    × (hash ≢ "")
    × (target.namespace ≢ "")
    × (target.name ≢ "")
    × ((kind ≡ "ConfigMap") ⊎ (kind ≡ "Secret"))
    × InRange g

accepted_of :
    (fe : FrontendExtension) (id hash digest kind : String) (g : ℤ) (target : NamespacedResourceRef)
    → publish_request_generation fe ≡ some g
    → publish_request_source_hash fe ≡ some hash
    → non_empty (annotation fe.metadata anno_publish_artifact_digest) ≡ some digest
    → publish_target_ref fe ≡ some target
    → publish_target_kind fe ≡ kind
    → is_target_kind kind ≡ true
    → publish_request fe id (some g) hash digest
      ≡ RequestOutcome.accepted (record {
        request_id = id;
        artifact_digest = digest;
        target_ref = target;
        target_kind = kind;
      })
unfolding publish_request
accepted_of fe id hash digest kind g target eg eh ed et ek ok =
    ground (arith, (same_generation_iff (some g) (some g)).1 refl, ==_refl hash, ==_refl digest)

pub kind_ok :
    (kind : String) → (kind ≡ "ConfigMap") ⊎ (kind ≡ "Secret") → is_target_kind kind ≡ true
kind_ok kind (inl e) = rw e refl
kind_ok kind (inr e) = rw e refl

pub accepted_later :
    (fe : FrontendExtension) (id hash digest kind : String) (g : ℤ) (target : NamespacedResourceRef)
    → publish_request_generation fe ≡ some g
    → publish_request_source_hash fe ≡ some hash
    → non_empty (annotation fe.metadata anno_publish_artifact_digest) ≡ none
    → publish_target_ref fe ≡ some target
    → publish_target_kind fe ≡ kind
    → is_target_kind kind ≡ true
    → publish_request fe id (some g) hash digest
      ≡ RequestOutcome.accepted (record {
        request_id = id;
        artifact_digest = digest;
        target_ref = target;
        target_kind = kind;
      })
unfolding publish_request
accepted_later fe id hash digest kind g target eg eh ed et ek ok =
    ground (arith, (same_generation_iff (some g) (some g)).1 refl, ==_refl hash)

pub pending_of :
    (fe : FrontendExtension) (id hash : String) (g : ℤ)
    → publish_request_id fe ≡ some id
    → publish_request_source_hash fe ≡ some hash
    → publish_request_generation fe ≡ some g
    → non_empty (annotation fe.metadata anno_publish_artifact_digest) ≡ none
    → pending_publish_for_current_source fe (some g) hash
      ≡ some (record default_publish { phase = PublishPhase.pending; request_id = some id })
unfolding pending_publish_for_current_source
pending_of fe id hash g ei eh eg ed =
    ground (arith, (same_generation_iff (some g) (some g)).1 refl, ==_refl hash)

module _ (fe : FrontendExtension) (old : BTreeMap String) (id hash kind : String) (g : ℤ)
    (target : NamespacedResourceRef) (complete : IsComplete id hash kind g target) where
  abbrev pub asked : Option String → FrontendExtension
  asked digest = with_request fe old (request_of id digest g hash target kind)

  asked-generation : (digest : Option String) → publish_request_generation (asked digest) ≡ some g
  unfolding publish_request_generation annotation
  asked-generation digest =
      rw (get-generation old id hash kind g target digest, chars-collect)
        (parse_i64-decimal_signed g complete.5)

  asked-hash : (digest : Option String) → publish_request_source_hash (asked digest) ≡ some hash
  unfolding publish_request_source_hash annotation
  asked-hash digest = rw (get-hash old id hash kind g target digest) (non_empty_id hash complete.1)

  asked-kind : (digest : Option String) → publish_target_kind (asked digest) ≡ kind
  unfolding publish_target_kind annotation
  asked-kind digest = rw (get-kind old id hash kind g target digest, non_empty_id kind kind-ne) refl
    where
      kind-ne : kind ≢ ""
      kind-ne e = ground (arith, complete.4, ==_iff "ConfigMap" "", ==_iff "Secret" "")

  asked-target :
      (digest : Option String)
      → publish_target_ref (asked digest) ≡ some (record target { uid = none })
  unfolding publish_target_ref annotation
  asked-target digest = ground (
    arith,
    get-name old id hash kind g target digest,
    get-namespace old id hash kind g target digest,
    non_empty_id target.name complete.3,
    non_empty_id target.namespace complete.2,
  )

  asked-id : (digest : Option String) → publish_request_id (asked digest) ≡ some id
  unfolding publish_request_id annotation
  asked-id digest = rw (get-id old id hash kind g target digest) (non_empty_id id complete.0)

  target_ok : is_target_kind kind ≡ true
  target_ok = kind_ok kind complete.4

  -- A complete request for an artifact, left as annotations of any extension, is read back by the
  -- controller: for the same generation, source hash and digest it is accepted, with the id, the digest,
  -- the kind and the place that were asked for.
  pub publish_request-patch_publish_request :
      (digest : String)
      → digest ≢ ""
      → (publish_request_id (asked (some digest)) ≡ some id)
        × (publish_request (asked (some digest)) id (some g) hash digest
            ≡ RequestOutcome.accepted (record {
              request_id = id;
              artifact_digest = digest;
              target_ref = record target { uid = none };
              target_kind = kind;
            }))
  unfolding annotation
  publish_request-patch_publish_request digest h = (
    asked-id (some digest),
    accepted_of (asked (some digest)) id hash digest kind g (record target { uid = none })
        (asked-generation (some digest)) (asked-hash (some digest))
        (rw (get-digest old id hash kind g target (some digest)) (non_empty_id digest h))
        (asked-target (some digest)) (asked-kind (some digest)) target_ok,
  )

  no_digest : non_empty (annotation (asked none).metadata anno_publish_artifact_digest) ≡ none
  unfolding annotation non_empty
  no_digest = rw (get-digest old id hash kind g target none) refl

  -- A complete request that is made before there is an artifact counts as pending for its generation and
  -- source hash; and it is accepted for any artifact that then comes of that source.
  pub pending_publish-patch_publish_request :
      (digest : String)
      → (pending_publish_for_current_source (asked none) (some g) hash
          ≡ some (record default_publish { phase = PublishPhase.pending; request_id = some id }))
        × (publish_request (asked none) id (some g) hash digest
            ≡ RequestOutcome.accepted (record {
              request_id = id;
              artifact_digest = digest;
              target_ref = record target { uid = none };
              target_kind = kind;
            }))
  pending_publish-patch_publish_request digest = (
    pending_of (asked none) id hash g (asked-id none) (asked-hash none) (asked-generation none)
        no_digest,
    accepted_later (asked none) id hash digest kind g (record target { uid = none })
        (asked-generation none) (asked-hash none) no_digest (asked-target none) (asked-kind none)
        target_ok,
  )
