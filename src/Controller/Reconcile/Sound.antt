-- ===== src/Controller/Reconcile/Sound.antt =====
-- The calls of a reconciliation where the artifact is not there, and of the whole reconciliation.
use kube_frontend_forge_cont.Common.{String, Option, none, some, ◌≡◌}
use kube_frontend_forge_cont.Api.Kube.{ConfigMap}
use kube_frontend_forge_cont.Api.Extension.{FrontendExtension}
use kube_frontend_forge_cont.Outside.{Outside}
use kube_frontend_forge_cont.Identity.{frontend_extension_source_hash, artifact_key}
use kube_frontend_forge_cont.Controller.Config.{ControllerConfig}
use kube_frontend_forge_cont.Controller.Package.{frontend_extension_rebuild_token}
use kube_frontend_forge_cont.Controller.Calls.{Call, Answer, Prog}
use kube_frontend_forge_cont.Controller.Calls.Meets.{Answers, Meets}
use kube_frontend_forge_cont.Controller.Reconcile.{Action, artifact_name}
use kube_frontend_forge_cont.Controller.Reconcile.Ready.{Allowed, IsEnd}

module _ (said : Answers) (out : Outside) (fe : FrontendExtension) (config : ControllerConfig)
    (source_hash : String) (rebuild_token : String) (key : String) where
  -- The program keeps to the calls of a reconciliation, and ends as one.
  abbrev IsAllowed : Prog Action → Type 0
  IsAllowed m =
      Meets said (Allowed said out fe config source_hash rebuild_token key) (IsEnd config) m

  -- What the API server answered to the artifact's name.
  abbrev IsAnswer : Option ConfigMap → Type 0
  IsAnswer o =
      said (Call.get_configmap_opt (artifact_name out fe config source_hash rebuild_token key))
        (Answer.ok o)

module _ (said : Answers) (out : Outside) (fe : FrontendExtension) (config : ControllerConfig) where
  -- A call that some reconciliation of the current source may make.
  abbrev pub IsSound : Call → Type 0
  IsSound c =
      (source_hash : String) × (key : String) × (frontend_extension_source_hash out fe
        ≡ some source_hash)
      × (artifact_key out source_hash (frontend_extension_rebuild_token fe) ≡ some key)
      × (fe.metadata.deletion_timestamp ≡ none)
      × Allowed said out fe config source_hash (frontend_extension_rebuild_token fe) key c
