-- ===== src/Controller/Reconcile/Invalid.antt =====
-- A reconciliation with the validation of crates/manifest, where that fails.
use mathlib.Core.Path.{subst}
use kube_frontend_forge_cont.Common.{String, Option, none, some, ◌≡◌, refl, sym, ◌⊎◌, inl, inr}
use kube_frontend_forge_cont.Api.Fields.{DateTime}
use kube_frontend_forge_cont.Api.Extension.{FrontendExtension}
use kube_frontend_forge_cont.Outside.{Outside}
use kube_frontend_forge_cont.Controller.Config.{ControllerConfig}
use kube_frontend_forge_cont.Controller.Package.{
  package_job_selector, frontend_extension_rebuild_token,
}
use kube_frontend_forge_cont.Controller.Status.{failed_fe_status}
use kube_frontend_forge_cont.Controller.Calls.{Call}
use kube_frontend_forge_cont.Controller.Calls.Meets.{
  Answers, Any, Meets, Meets->>=, Meets->>, Meets-done, Meets-request, Meets-need, Meets-imp,
}
use kube_frontend_forge_cont.Controller.Writes.{list_package_jobs_for_artifact_key}
use kube_frontend_forge_cont.Controller.Writes.Conduct.{PatchCall, patch_fe_status-Meets}
use kube_frontend_forge_cont.Controller.Reconcile.{
  Action, reconcile_source, unless_deleted, reconcile,
}
use kube_frontend_forge_cont.Manifest.Error.{ManifestRenderError, Result, ok, err, to_string}
use kube_frontend_forge_cont.Manifest.Error.Decides.{IsOk}
use kube_frontend_forge_cont.Manifest.{validate_frontend_extension, validation_error, error_text}
use kube_frontend_forge_cont.Manifest.Validated.{IsValid, validate_frontend_extension_iff}

-- The listing of package Jobs.
abbrev IsListing : Call → Type 0
IsListing (Call.list_jobs selector) = Unit
IsListing _ = ⊥

module _ (said : Answers) (out : Outside) (fe : FrontendExtension) (config : ControllerConfig) where
  -- A call that looks, or that reports the validation's error as the status.
  abbrev pub IsReport : Call → Type 0
  IsReport c =
      (source_hash : String) × (key : String) × (e : ManifestRenderError)
      × (validate_frontend_extension out fe ≡ err e)
      × (IsListing c
          ⊎ PatchCall said out (out.name_any fe.metadata)
              (failed_fe_status out fe source_hash (frontend_extension_rebuild_token fe) key none
                "InvalidSource" (to_string e))
              c)

  abbrev Waits : Action → Type 0
  Waits action = action ≡ Action.await_change

  failing :
      (r : Result (Unit {0}))
      → validate_frontend_extension out fe ≡ r
      → ¬ IsValid out fe
      → (e : ManifestRenderError) × (validate_frontend_extension out fe ≡ err e)
  failing (err e) h n = (e, h)
  failing (ok u) h n =
      absurd (n ((validate_frontend_extension_iff out fe).0 (subst IsOk (sym h) tt)))

  source-IsReport :
      (source_hash key : String) (e : ManifestRenderError)
      → validate_frontend_extension out fe ≡ err e
      → Meets said IsReport Waits (
          reconcile_source out fe config source_hash
            (frontend_extension_rebuild_token fe)
            key
            (some (to_string e)))
  unfolding reconcile_source list_package_jobs_for_artifact_key
  source-IsReport source_hash key e h =
      Meets->>= said _ Any _ _ _
        (Meets->>= said _ _ _ _ _
          (Meets-request said _ (Call.list_jobs (package_job_selector out fe key)) _
            (source_hash, key, e, h, inl tt))
          (λ jobs _. Meets-done said _ _ _ tt))
        (λ attempts _.
          Meets->> said _ _ _ _
            (Meets-imp said _ _ _ _ _ (λ c p. (source_hash, key, e, h, inr p)) (λ _ r. tt)
              (patch_fe_status-Meets said out fe _))
            (Meets-done said _ _ _ refl))

  unless_deleted-IsReport :
      (deletion : Option DateTime) (e : ManifestRenderError)
      → validate_frontend_extension out fe ≡ err e
      → Meets said IsReport Waits (unless_deleted out fe config (validation_error out) deletion)
  unfolding validation_error
  unless_deleted-IsReport (some t) e h = Meets-done said _ _ _ refl
  unless_deleted-IsReport none e h =
      Meets->>= said _ _ _ _ _ (Meets-need said _ _ _) (λ source_hash _.
        Meets->>= said _ _ _ _ _ (Meets-need said _ _ _) (λ key _.
          subst
            (λ t. Meets said IsReport Waits (
              reconcile_source out fe config source_hash (frontend_extension_rebuild_token fe) key
                (error_text t)))
            (sym h) (source-IsReport source_hash key e h)))

  -- For an extension that is not valid, and whatever the API server answers, a reconciliation lists
  -- package Jobs, reads the extension, and writes no status but the failed one with the reason
  -- InvalidSource and the validation's error as its message, with labels that mirror a status which
  -- is about the extension that has it. It creates and deletes nothing, and waits for a change.
  pub reconcile-IsReport :
      ¬ IsValid out fe → Meets said IsReport Waits (reconcile out fe config (validation_error out))
  unfolding reconcile
  reconcile-IsReport n =
      let (e, h) = failing _ refl n in unless_deleted-IsReport fe.metadata.deletion_timestamp e h
