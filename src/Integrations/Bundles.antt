-- ===== src/Integrations/Bundles.antt =====
-- The calls that bring a bundle and the status in step.
use kube_frontend_forge_cont.Common.{
  Bool, not, String, Option, none, some, ◌≡◌, refl, inl, inr, Bool-cases, is_some_of,
}
use kube_frontend_forge_cont.Api.Fields.{DateTime}
use kube_frontend_forge_cont.Api.Kube.{OwnerReference}
use kube_frontend_forge_cont.Api.Integration.{
  FrontendIntegrationStatus, FrontendIntegration, JsBundle, enabled,
}
use kube_frontend_forge_cont.Keys.{label_enabled}
use kube_frontend_forge_cont.Outside.{Outside}
use kube_frontend_forge_cont.Controller.Calls.{Call, Answer, Prog}
use kube_frontend_forge_cont.Controller.Calls.Meets.{
  Answers, Meets-reply, Any, Meets, Meets->>, Meets-done, Meets-fail, Meets-call, Meets-request,
}
use kube_frontend_forge_cont.Integrations.Config.{IntegrationControllerConfig}
use kube_frontend_forge_cont.Integrations.Bundle.{
  label, enabled_label_value, desired_state, owned_by, owners_of, state_of,
}
use kube_frontend_forge_cont.Integrations.Status.{
  fi_status_needs_patch, frontend_integration_status_patch,
}
use kube_frontend_forge_cont.Integrations.Reconcile.{
  is_api_not_found, unless_gone, get_bundle_opt, patch_jsbundle_enabled_label_if_needed,
  patch_jsbundle_state_if_needed, fi_name, with_owner, patch_jsbundle_owner_ref_if_needed,
  sync_jsbundle_enabled_state, patch_fi_status, bundle_name,
}
use kube_frontend_forge_cont.Integrations.Allowed.{
  IsBundle, IsIntegration, MayBeShown, SaysSo, MayCall,
}

module _ (said : Answers) (out : Outside) (now : DateTime) (fi : FrontendIntegration)
    (config : IntegrationControllerConfig) where
  module _ (spec_hash : String) where
    abbrev May : Call → Type 0
    May = MayCall said out now fi config spec_hash

    pub unless_gone-Meets :
        (name : String) (gone : Prog (Unit {0})) (r : Answer (Unit {0}))
        → Meets said May Any gone
        → Meets said May Any (unless_gone name gone r)
    unfolding unless_gone
    unless_gone-Meets name gone (Answer.ok _) h = Meets-done said _ _ _ tt
    unless_gone-Meets name gone (Answer.err e) h = elim (Bool-cases (is_api_not_found e)) [
      | inl g ↦ rw g h
      | inr g ↦ rw g (Meets-fail said _ _ _)
    ]

    module _ (bundle : JsBundle) (shown : MayBeShown said out now fi config spec_hash bundle) where
      with_owner-Meets :
          (o : Option OwnerReference)
          → out.integration_owner_ref fi ≡ o
          → Meets said May Any (with_owner out fi bundle o)
      with_owner-Meets none e = Meets-done said _ _ _ tt
      with_owner-Meets (some owner) e =
          elim (Bool-cases (owned_by owner.uid (owners_of bundle.metadata.owner_references))) [
            | inl o ↦ rw o (Meets-done said _ _ _ tt)
            | inr o ↦ rw o (
                Meets-call said _ _ _ _ (bundle, owner, shown, refl, e, refl)
                  (λ r _. unless_gone-Meets _ _ r (Meets-done said _ _ _ tt)))
          ]

      label-Meets :
          Meets said May Any (patch_jsbundle_enabled_label_if_needed out bundle (enabled fi.spec))
      unfolding patch_jsbundle_enabled_label_if_needed
      label-Meets =
          elim (Bool-cases (
            is_some_of (label bundle.metadata label_enabled)
              (enabled_label_value (enabled fi.spec)))) [
                | inl o ↦ rw o (Meets-done said _ _ _ tt)
                | inr o ↦ rw o (
                    Meets-call said _ _ _ _ (bundle, shown, refl, refl)
                      (λ r _. unless_gone-Meets _ _ r (Meets-done said _ _ _ tt)))
              ]

      state-Meets :
          Meets said May Any
            (patch_jsbundle_state_if_needed out bundle (desired_state (enabled fi.spec)))
      unfolding patch_jsbundle_state_if_needed
      state-Meets =
          elim (Bool-cases
            (is_some_of (state_of bundle.status) (desired_state (enabled fi.spec)))) [
              | inl o ↦ rw o (Meets-done said _ _ _ tt)
              | inr o ↦ rw o (
                  Meets-call said _ _ _ _ (bundle, shown, refl, refl)
                    (λ r _. unless_gone-Meets _ _ r (
                      Meets-call said _ _ _ _ (bundle, shown, refl, refl)
                        (λ q _. unless_gone-Meets _ _ q (Meets-done said _ _ _ tt)))))
            ]

      pub sync-Meets :
          (on : Bool)
          → on ≡ enabled fi.spec
          → Meets said May Any (sync_jsbundle_enabled_state out fi bundle on)
      unfolding sync_jsbundle_enabled_state patch_jsbundle_owner_ref_if_needed
      sync-Meets on e = rw e (
          Meets->> said _ _ _ _ (with_owner-Meets (out.integration_owner_ref fi) refl)
            (Meets->> said _ _ _ _ label-Meets state-Meets))

    pub patch_fi_status-Meets :
        (live : FrontendIntegration) (status : FrontendIntegrationStatus)
        → IsIntegration said out now fi config live
        → SaysSo said out now fi config spec_hash status
        → Meets said May Any (patch_fi_status out live status)
    unfolding patch_fi_status
    patch_fi_status-Meets live status i h =
        elim (Bool-cases (not (fi_status_needs_patch live status))) [
          | inl e ↦ rw e (Meets-done said _ _ _ tt)
          | inr e ↦ rw e (
              Meets-request said _
                (Call.patch_integration_status (fi_name out live)
                  (frontend_integration_status_patch status))
                _ (live, status, i, refl, refl, h))
        ]

    pub get-IsBundle-Meets :
        Meets said May
          (IsBundle said out now fi config)
          (get_bundle_opt (bundle_name out now fi config))
    unfolding get_bundle_opt
    get-IsBundle-Meets =
        Meets-reply said _ (Call.get_bundle_opt (bundle_name out now fi config)) _ refl
