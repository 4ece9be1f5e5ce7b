-- ===== src/Controller/Status/Observe.antt =====
-- Whether a status is about the extension as it is now, and whether it has to be written
-- (crates/frontend-extension-controller/src/status.rs). A hash that cannot be computed is `none`.
use kube_frontend_forge_cont.Common.{
  Bool, true, false, not, String, String-discrete, Option, none, some, is_some_of, if◌then◌else◌,
}
use kube_frontend_forge_cont.Api.Status.{ExtensionArtifactStatus, FrontendExtensionStatus}
use kube_frontend_forge_cont.Api.Extension.{FrontendExtension}
use native.Mathlib.Decide.{ℕ_discrete}
use kube_frontend_forge_cont.Outside.{Outside}
use kube_frontend_forge_cont.Identity.{frontend_extension_source_hash, artifact_key}
use kube_frontend_forge_cont.Controller.Integers.{same_generation, or_zero}
use kube_frontend_forge_cont.Controller.Package.{frontend_extension_rebuild_token}

module _ (out : Outside) where
  -- The artifact in a status has the current key.
  abbrev observes_artifact : Option ExtensionArtifactStatus → String → String → Option Bool
  observes_artifact none source_hash rebuild_token = some true
  observes_artifact (some artifact) source_hash rebuild_token =
      elim (artifact_key out source_hash rebuild_token) [
        | none ↦ none
        | some key ↦ some (is_some_of artifact.artifact_key key)
      ]

  observes_source : FrontendExtension → FrontendExtensionStatus → String → String → Option Bool
  observes_source fe status source_hash rebuild_token =
      if not (same_generation status.observed_generation (some (or_zero fe.metadata.generation)))
      then some false
      else if not (is_some_of status.observed_source_hash source_hash)
      then some false
      else if not (is_some_of status.observed_rebuild_token rebuild_token)
      then some false
      else observes_artifact status.artifact source_hash rebuild_token

  unfoldable pub fe_status_observes_frontend_extension :
      FrontendExtension → FrontendExtensionStatus → Option Bool
  unfolding observes_source
  fe_status_observes_frontend_extension fe status = elim (frontend_extension_source_hash out fe) [
    | none ↦ none
    | some source_hash ↦ observes_source fe status source_hash (frontend_extension_rebuild_token fe)
  ]

-- `fe.status.as_ref() != Some(desired_status)`
same_status : Discrete (Option FrontendExtensionStatus)
same_status = hlevel (ℕ_discrete, String-discrete)

unfoldable pub fe_status_needs_patch : FrontendExtension → FrontendExtensionStatus → Bool
unfolding same_status
fe_status_needs_patch fe desired_status = elim (same_status fe.status (some desired_status)) [
  | yes _ ↦ false
  | no _ ↦ true
]
