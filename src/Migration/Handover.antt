-- ===== src/Migration/Handover.antt =====
-- The controller takes up the publish request of a migrated extension.
use kube_frontend_forge_cont.Common.{
  String, Option, none, some, ◌≡◌, ◌≢◌, ◌⊎◌, inl, inr, refl, arith, BTreeMap, get, get-insert,
  get-remove, ==_iff, collect, chars-collect, Option-cases, ap, len,
}
use kube_frontend_forge_cont.Api.Fields.{ℤ, PublishTargetKind, NamespacedResourceRef}
use kube_frontend_forge_cont.Api.Status.{PublishPhase, default_publish}
use kube_frontend_forge_cont.Api.Extension.{FrontendExtension, annotation, non_empty}
use kube_frontend_forge_cont.Decimal.{decimal_signed}
use kube_frontend_forge_cont.Decimal.RoundTrip.{InRange, parse_i64-decimal_signed}
use kube_frontend_forge_cont.Keys.{
  anno_publish_request_id, anno_publish_request_generation, anno_publish_request_source_hash,
  anno_publish_artifact_digest, anno_publish_target_kind, anno_publish_target_namespace,
  anno_publish_target_name,
}
use kube_frontend_forge_cont.Outside.{Outside}
use kube_frontend_forge_cont.Identity.{frontend_extension_source_hash}
use kube_frontend_forge_cont.Controller.Publish.{
  RequestOutcome, publish_request_id, publish_request, publish_request_generation,
  publish_request_source_hash, publish_target_ref, publish_target_kind,
  pending_publish_for_current_source,
}
use kube_frontend_forge_cont.Requests.Handover.{
  merge_entries, accepted_later, pending_of, non_empty_id, kind_ok,
}
use kube_frontend_forge_cont.Requests.Resolved.{source_hash-ne, prefixed-ne, or_default-ne}
use kube_frontend_forge_cont.Migration.Config.{
  MigratorConfig, Outcome, ok, err, ◌>>=◌, from_env, env_or, required_env, optional_env,
  parse_env_u64, parse_publish_target_kind,
}
use kube_frontend_forge_cont.Migration.Publish.{
  publish_target_kind_value, migration_request_id, publish_intent_patch, publish_intent,
}

non_empty-ne : (o : Option String) (s : String) → non_empty o ≡ some s → s ≢ ""
unfolding non_empty
non_empty-ne none s h = absurd (ground arith)
non_empty-ne (some t) s h = ground (arith, ==_iff t "")

module _ (cfg : MigratorConfig) (g : ℤ) (hash id : String) (old : BTreeMap String) where
  abbrev entries : BTreeMap String
  entries = merge_entries (publish_intent_patch cfg g hash id) old

  get-id : get entries anno_publish_request_id ≡ some id
  unfolding publish_intent_patch
  get-id = simp get-insert

  get-generation : get entries anno_publish_request_generation ≡ some (collect (decimal_signed g))
  unfolding publish_intent_patch
  get-generation = simp get-insert

  get-hash : get entries anno_publish_request_source_hash ≡ some hash
  unfolding publish_intent_patch
  get-hash = simp get-insert

  get-digest : get entries anno_publish_artifact_digest ≡ none
  unfolding publish_intent_patch
  get-digest = simp (get-insert, get-remove)

  get-kind :
      get entries anno_publish_target_kind
      ≡ some (publish_target_kind_value cfg.publish_target_kind)
  unfolding publish_intent_patch
  get-kind = simp (get-insert, get-remove)

  get-namespace : get entries anno_publish_target_namespace ≡ some cfg.publish_target_namespace
  unfolding publish_intent_patch
  get-namespace = simp (get-insert, get-remove)

  get-name : get entries anno_publish_target_name ≡ some cfg.publish_target_name
  unfolding publish_intent_patch
  get-name = simp (get-insert, get-remove)

kind-IsTarget :
    (kind : PublishTargetKind)
    → (publish_target_kind_value kind ≡ "ConfigMap") ⊎ (publish_target_kind_value kind ≡ "Secret")
unfolding publish_target_kind_value
kind-IsTarget PublishTargetKind.config_map = inl refl
kind-IsTarget PublishTargetKind.secret = inr refl

-- A configuration that names a place to publish to.
abbrev pub HasTarget : MigratorConfig → Type 0
HasTarget cfg = (cfg.publish_target_namespace ≢ "") × (cfg.publish_target_name ≢ "")

-- A chain of results that is fine is fine at each of its steps.
>>=-eq-ok :
    {A B : Type 0} (r : Outcome A) (f : A → Outcome B) (b : B)
    → (r >>= f) ≡ ok b
    → (a : A) × (r ≡ ok a) × (f a ≡ ok b)
unfolding ◌>>=◌
>>=-eq-ok (ok a) f b h = (a, refl, h)
>>=-eq-ok (err e) f b h = absurd (cc h)

module _ (env : String → Option String) (number_error : String → String) where
  required_env-ne : (key value : String) → required_env env key ≡ ok value → value ≢ ""
  unfolding required_env optional_env
  required_env-ne key value h = elim (Option-cases (optional_env env key)) [
    | inl e ↦ absurd (ground (arith, e))
    | inr (v, e) ↦ let ne = non_empty-ne _ v e in ground (arith, e, ne)
  ]

  env_or-ne : (key default : String) → default ≢ "" → env_or env key default ≢ ""
  unfolding env_or optional_env
  env_or-ne key default h = or_default-ne _ default h

  from_env-HasTarget : (cfg : MigratorConfig) → from_env env number_error ≡ ok cfg → HasTarget cfg
  unfolding from_env
  from_env-HasTarget cfg h =
      let kind = parse_publish_target_kind (env_or env "PUBLISH_TARGET_KIND" "ConfigMap") in
      let (_, _, h1) = >>=-eq-ok kind _ cfg h in
      let (_, _, h2) =
        >>=-eq-ok (parse_env_u64 env number_error "READY_TIMEOUT_SECONDS" 600) _ cfg h1 in
      let (_, _, h3) =
        >>=-eq-ok (parse_env_u64 env number_error "POLL_INTERVAL_SECONDS" 5) _ cfg h2 in
      let (namespace, hn, h4) = >>=-eq-ok (required_env env "PUBLISH_TARGET_NAMESPACE") _ cfg h3 in
      let ne = required_env-ne "PUBLISH_TARGET_NAMESPACE" namespace hn in
      let name_ne =
        env_or-ne "PUBLISH_TARGET_NAME" "ksbuilder-publish-config" (λ e. omega (arith, ap len e)) in
      ground (arith, h4, ne, name_ne)

-- The extension after the patch was merged into its annotations.
abbrev pub asked :
    FrontendExtension → BTreeMap String → BTreeMap (Option String) → FrontendExtension
asked fe old patch = record fe {
  metadata = record (fe.metadata) { annotations = some (merge_entries patch old) };
}

abbrev pub target_of : MigratorConfig → NamespacedResourceRef
target_of cfg = record {
  namespace = cfg.publish_target_namespace;
  name = cfg.publish_target_name;
  uid = none;
}

module _ (out : Outside) (env : String → Option String) (number_error : String → String)
    (cfg : MigratorConfig) (configured : from_env env number_error ≡ ok cfg)
    (fe : FrontendExtension) (g : ℤ) (hash : String) (range : InRange g)
    (numbered : fe.metadata.generation ≡ some g)
    (hashed : frontend_extension_source_hash out fe ≡ some hash) (old : BTreeMap String) where
  abbrev id : String
  id = migration_request_id (out.name_any fe.metadata) hash

  abbrev sent : FrontendExtension
  sent = asked fe old (publish_intent_patch cfg g hash id)

  id-ne : id ≢ ""
  unfolding migration_request_id
  id-ne = prefixed-ne "fi-migration-" _ (omega arith)

  sent-generation : publish_request_generation sent ≡ some g
  unfolding publish_request_generation annotation
  sent-generation =
      rw (get-generation cfg g hash id old, chars-collect) (parse_i64-decimal_signed g range)

  sent-hash : publish_request_source_hash sent ≡ some hash
  unfolding publish_request_source_hash annotation
  sent-hash =
      rw (get-hash cfg g hash id old) (non_empty_id hash (source_hash-ne out fe hash hashed))

  sent-id : publish_request_id sent ≡ some id
  unfolding publish_request_id annotation
  sent-id = rw (get-id cfg g hash id old) (non_empty_id id id-ne)

  sent-digest : non_empty (annotation sent.metadata anno_publish_artifact_digest) ≡ none
  unfolding annotation non_empty
  sent-digest = rw (get-digest cfg g hash id old) refl

  abbrev kind : String
  kind = publish_target_kind_value cfg.publish_target_kind

  sent-kind : publish_target_kind sent ≡ kind
  unfolding publish_target_kind annotation
  sent-kind = rw (get-kind cfg g hash id old, non_empty_id kind kind-ne) refl
    where
      kind-ne : kind ≢ ""
      kind-ne e =
          ground (
            arith,
            kind-IsTarget cfg.publish_target_kind,
            ==_iff "ConfigMap" "",
            ==_iff "Secret" "",
          )

  sent-target : publish_target_ref sent ≡ some (target_of cfg)
  unfolding publish_target_ref annotation
  sent-target =
      let (namespace_ne, name_ne) = from_env-HasTarget env number_error cfg configured in
      ground (
        arith,
        get-name cfg g hash id old,
        get-namespace cfg g hash id old,
        non_empty_id cfg.publish_target_name name_ne,
        non_empty_id cfg.publish_target_namespace namespace_ne,
      )

  intent-sent :
      (hash_error : String)
      → publish_intent out cfg fe hash_error ≡ ok (publish_intent_patch cfg g hash id)
  unfolding publish_intent
  intent-sent hash_error = ground (arith, numbered, hashed)

  -- For a configuration that was read from the environment and an extension that has an `i64` for its
  -- generation and a source hash, the migrator has a publish request to leave. Merged into any
  -- annotations of the extension, the controller reads it as pending for that generation and hash, and
  -- accepts it for any artifact that then comes of that source, with the kind and the place of the
  -- configuration.
  pub publish_request-publish_intent :
      (digest hash_error : String)
      → (patch : BTreeMap (Option String)) × (publish_intent out cfg fe hash_error ≡ ok patch)
        × (pending_publish_for_current_source (asked fe old patch) (some g) hash
            ≡ some (record default_publish { phase = PublishPhase.pending; request_id = some id }))
        × (publish_request (asked fe old patch) id (some g) hash digest
            ≡ RequestOutcome.accepted (record {
              request_id = id;
              artifact_digest = digest;
              target_ref = target_of cfg;
              target_kind = kind;
            }))
  publish_request-publish_intent digest hash_error = (
    publish_intent_patch cfg g hash id,
    intent-sent hash_error,
    pending_of sent id hash g sent-id sent-hash sent-generation sent-digest,
    accepted_later sent id hash digest kind g (target_of cfg) sent-generation sent-hash sent-digest
        sent-target sent-kind (kind_ok kind (kind-IsTarget cfg.publish_target_kind)),
  )
