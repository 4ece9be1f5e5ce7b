-- ===== src/Integrations/Bundle.antt =====
-- Readings of a JSBundle (crates/frontend-forge-controller/src/fi/build.rs: `bundle_matches_spec_hash`;
-- jsbundle.rs: `enabled_label_value`, `resource_ref`; status.rs: `bundle_manifest_hash`).
use kube_frontend_forge_cont.Common.{
  Bool, true, false, String, Option, none, some, List, [], ◌∷◌, get, chars, ◌==◌, ◌&◌, is_some_of,
  if◌then◌else◌,
}
use kube_frontend_forge_cont.Api.Kube.{ObjectMeta, OwnerReference}
use kube_frontend_forge_cont.Api.Extension.{annotation}
use kube_frontend_forge_cont.Api.Integration.{ResourceRef, JsBundle, JsBundleStatus}
use kube_frontend_forge_cont.Names.{strip_prefix_chars, hash_label_value}
use kube_frontend_forge_cont.Keys.{label_spec_hash, label_manifest_hash, anno_manifest_hash}
use kube_frontend_forge_cont.Outside.{Outside}

abbrev pub jsbundle_state_available : String
jsbundle_state_available = "Available"

abbrev pub jsbundle_state_disabled : String
jsbundle_state_disabled = "Disabled"

unfoldable pub enabled_label_value : Bool → String
enabled_label_value on = if on then "true" else "false"

unfoldable pub desired_state : Bool → String
desired_state on = if on then jsbundle_state_available else jsbundle_state_disabled

-- `meta.labels.as_ref().and_then(|labels| labels.get(key))`
unfoldable pub label : ObjectMeta → String → Option String
label meta key = elim (meta.labels) [ none ↦ none | some labels ↦ get labels key ]

unfoldable pub bundle_matches_spec_hash : JsBundle → String → Bool
bundle_matches_spec_hash bundle spec_hash =
    is_some_of (label bundle.metadata label_spec_hash) (hash_label_value spec_hash)

-- The label's value, with the prefix that label values leave out.
unfoldable pub with_sha256 : String → String
with_sha256 v = elim (strip_prefix_chars (chars "sha256:") (chars v)) [
  | none ↦ "sha256:" & v
  | some rest ↦ v
]

unfoldable pub or_label : Option String → Option String → Option String
or_label (some v) labelled = some v
or_label none none = none
or_label none (some v) = some (with_sha256 v)

unfoldable pub bundle_manifest_hash : JsBundle → Option String
bundle_manifest_hash bundle =
    or_label (annotation bundle.metadata anno_manifest_hash)
      (label bundle.metadata label_manifest_hash)

-- `owners.iter().any(|owner| owner.uid == uid)`
unfoldable pub owned_by : String → List OwnerReference → Bool
owned_by uid [] = false
owned_by uid (owner ∷ owners) = if owner.uid == uid then true else owned_by uid owners

unfoldable pub owners_of : Option (List OwnerReference) → List OwnerReference
owners_of none = []
owners_of (some owners) = owners

unfoldable pub state_of : Option JsBundleStatus → Option String
state_of none = none
state_of (some status) = status.state

module _ (out : Outside) where
  unfoldable pub resource_ref : ObjectMeta → ResourceRef
  resource_ref meta = record {
    name = out.name_any meta;
    namespace = meta.namespace;
    uid = meta.uid;
  }
