-- ===== src/Migration/Publish.antt =====
-- The publish request that the migrator leaves for a migrated extension
-- (crates/frontend-forge-controller/src/bin/fi_to_fe_migrator/publish.rs).
use kube_frontend_forge_cont.Common.{
  String, Option, none, some, [], ◌∷◌, BTreeMap, chars, collect, take, ◌&◌,
}
use kube_frontend_forge_cont.Api.Fields.{ℤ, PublishTargetKind}
use kube_frontend_forge_cont.Api.Extension.{FrontendExtension}
use kube_frontend_forge_cont.Decimal.{decimal_signed}
use kube_frontend_forge_cont.Keys.{
  anno_publish_request_id, anno_publish_request_generation, anno_publish_request_source_hash,
  anno_publish_artifact_digest, anno_publish_target_kind, anno_publish_target_namespace,
  anno_publish_target_name,
}
use kube_frontend_forge_cont.Outside.{Outside}
use kube_frontend_forge_cont.Identity.{frontend_extension_source_hash}
use kube_frontend_forge_cont.Requests.{strip_sha256}
use kube_frontend_forge_cont.Migration.Config.{MigratorConfig, Outcome, ok, err, message}

unfoldable pub publish_target_kind_value : PublishTargetKind → String
publish_target_kind_value PublishTargetKind.config_map = "ConfigMap"
publish_target_kind_value PublishTargetKind.secret = "Secret"

unfoldable pub migration_request_id : String → String → String
migration_request_id fe_name source_hash =
    "fi-migration-" & fe_name & "-" & collect (take 12 (chars (strip_sha256 source_hash)))

-- The `metadata.annotations` of the merge patch: a value to write, or null.
unfoldable pub publish_intent_patch :
    MigratorConfig → ℤ → String → String → BTreeMap (Option String)
publish_intent_patch cfg generation source_hash request_id =
    (anno_publish_request_id, some request_id)
    ∷ (anno_publish_request_generation, some (collect (decimal_signed generation)))
    ∷ (anno_publish_request_source_hash, some source_hash)
    ∷ (anno_publish_artifact_digest, none)
    ∷ (anno_publish_target_kind, some (publish_target_kind_value cfg.publish_target_kind))
    ∷ (anno_publish_target_namespace, some cfg.publish_target_namespace)
    ∷ (anno_publish_target_name, some cfg.publish_target_name)
    ∷ []

module _ (out : Outside) (cfg : MigratorConfig) (fe : FrontendExtension) where
  abbrev pub fe_name : String
  fe_name = out.name_any fe.metadata

  abbrev intent_of : Option ℤ → String → Outcome (BTreeMap (Option String))
  intent_of none source_hash =
      err (message ("FrontendExtension " & fe_name & " has no metadata.generation after upsert"))
  intent_of (some generation) source_hash =
      ok
        (publish_intent_patch cfg generation source_hash (migration_request_id fe_name source_hash))

  -- What `patch_publish_intent` sends, or its error before that. `hash_error` is the text of the error
  -- of serde_json.
  unfoldable pub publish_intent : String → Outcome (BTreeMap (Option String))
  publish_intent hash_error = elim (frontend_extension_source_hash out fe) [
    | none ↦
        err (message ("failed to hash FrontendExtension " & fe_name & " source: " & hash_error))
    | some source_hash ↦ intent_of fe.metadata.generation source_hash
  ]
