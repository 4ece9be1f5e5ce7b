-- ===== src/Controller/Status/Labels.antt =====
-- The labels that mirror a status (crates/frontend-extension-controller/src/status.rs).
use kube_frontend_forge_cont.Common.{
  Bool, true, false, not, ◌&&◌, ◌||◌, String, Option, none, some, [], ◌∷◌, ◌++◌, map, any, BTreeMap,
  is_some_of, if◌then◌else◌,
}
use kube_frontend_forge_cont.Api.Status.{
  FrontendExtensionPhase, PublishPhase, PublishStatus, FrontendExtensionStatus,
}
use kube_frontend_forge_cont.Api.Extension.{FrontendExtension}
use kube_frontend_forge_cont.Keys.{
  label_fe_package_status, label_fe_publish_status, label_fe_publish_fresh,
  deprecated_label_fe_package_status, deprecated_label_fe_publish_status,
  fe_package_status_packaging, fe_package_status_ready, fe_package_status_failed,
  fe_publish_status_not_published, fe_publish_status_publishing, fe_publish_status_published,
  fe_publish_status_failed, fe_publish_fresh_true, fe_publish_fresh_false,
}
use kube_frontend_forge_cont.Controller.Artifact.{get_opt}
use kube_frontend_forge_cont.Controller.Publish.{is_succeeded}

unfoldable pub package_status_label_value : FrontendExtensionPhase → String
package_status_label_value FrontendExtensionPhase.ready = fe_package_status_ready
package_status_label_value FrontendExtensionPhase.failed = fe_package_status_failed
package_status_label_value _ = fe_package_status_packaging

abbrev label_of : PublishPhase → Bool → String
label_of PublishPhase.pending active = fe_publish_status_publishing
label_of PublishPhase.running active = fe_publish_status_publishing
label_of PublishPhase.succeeded true = fe_publish_status_published
label_of PublishPhase.failed active = fe_publish_status_failed
label_of _ active = fe_publish_status_not_published

unfoldable pub publish_status_label_value : Option PublishStatus → String
publish_status_label_value none = fe_publish_status_not_published
publish_status_label_value (some publish) = label_of publish.phase publish.active

abbrev fresh_for : String → Option PublishStatus → String
fresh_for artifact_digest none = fe_publish_fresh_false
fresh_for artifact_digest (some publish) =
    if is_succeeded publish.phase
      && publish.active
      && is_some_of publish.artifact_digest artifact_digest
    then fe_publish_fresh_true
    else fe_publish_fresh_false

unfoldable pub publish_fresh_label_value : FrontendExtensionStatus → String
publish_fresh_label_value status = elim (status.artifact) [
  | none ↦ fe_publish_fresh_false
  | some artifact ↦ fresh_for artifact.digest status.publish
]

unfoldable pub frontend_extension_status_labels : FrontendExtensionStatus → BTreeMap String
frontend_extension_status_labels status =
    (label_fe_package_status, package_status_label_value status.phase)
    ∷ (label_fe_publish_status, publish_status_label_value status.publish)
    ∷ (label_fe_publish_fresh, publish_fresh_label_value status)
    ∷ []

abbrev has_key : Option (BTreeMap String) → String → Bool
has_key labels key = elim (get_opt labels key) [ none ↦ false | some v ↦ true ]

unfoldable pub fe_status_labels_need_patch : FrontendExtension → FrontendExtensionStatus → Bool
fe_status_labels_need_patch fe desired_status =
    any (λ (key, value). not (is_some_of (get_opt fe.metadata.labels key) value))
      (frontend_extension_status_labels desired_status)
    || has_key fe.metadata.labels deprecated_label_fe_package_status
    || has_key fe.metadata.labels deprecated_label_fe_publish_status

-- The `metadata.labels` of the merge patch: a value to write, or null, which removes the label.
unfoldable pub frontend_extension_status_labels_patch :
    FrontendExtensionStatus → BTreeMap (Option String)
frontend_extension_status_labels_patch status =
    map (λ (key, value). (key, some value)) (frontend_extension_status_labels status)
    ++ ((deprecated_label_fe_package_status, none)
        ∷ (deprecated_label_fe_publish_status, none)
        ∷ [])
