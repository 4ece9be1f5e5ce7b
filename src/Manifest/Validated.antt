-- ===== src/Manifest/Validated.antt =====
-- Which extensions and integrations are valid (crates/manifest/src/lib.rs).
use kube_frontend_forge_cont.Common.{
  true, false, String, some, ◌≡◌, refl, ◌↔◌, List, [], ◌∷◌, ◌++◌, map, All, is_empty, if◌then◌else◌,
}
use kube_frontend_forge_cont.Api.Spec.{FrontendExtensionPrimaryMenuSpec}
use kube_frontend_forge_cont.Api.Extension.{FrontendExtension}
use kube_frontend_forge_cont.Api.Integration.{FrontendIntegration, engine_version}
use kube_frontend_forge_cont.Outside.{Outside}
use kube_frontend_forge_cont.Manifest.Error.{err, unsupported_schema_version}
use kube_frontend_forge_cont.Manifest.Error.Decides.{
  Decides, accepts, of_iff, weaken_by, unless, provided, ◌⟫◌, ◌⟫>◌, IsOk, IsOk-iff,
}
use kube_frontend_forge_cont.Manifest.Input.{
  FrontendMenuSpec, FrontendRenderInput, placed_menu, frontend_extension_menus,
  from_frontend_integration, from_frontend_extension, input_with_menus,
}
use kube_frontend_forge_cont.Manifest.Resolve.Accepted.{IsWellFormed}
use kube_frontend_forge_cont.Manifest.Render.{render_v1_manifest}
use kube_frontend_forge_cont.Manifest.Render.Accepted.{render_v1_manifest-Decides}
use kube_frontend_forge_cont.Manifest.{
  requested_version, normalized_version, is_v1, by_schema_version, render_extension_manifest,
  render_frontend_extension_manifest, validate_frontend_integration, validate_frontend_extension,
}

-- Each menu at each of its placements.
abbrev pub placed_menus : List FrontendExtensionPrimaryMenuSpec → List FrontendMenuSpec
placed_menus [] = []
placed_menus (menu ∷ menus) = map (placed_menu menu) menu.placements ++ placed_menus menus

abbrev HasPlacements : FrontendExtensionPrimaryMenuSpec → Type 0
HasPlacements menu = is_empty menu.placements ≡ false

frontend_extension_menus-Decides :
    (menus : List FrontendExtensionPrimaryMenuSpec) (fe_name : String)
    → Decides
        (All HasPlacements menus)
        (λ ms. ms ≡ placed_menus menus)
        (frontend_extension_menus menus fe_name)
unfolding frontend_extension_menus
frontend_extension_menus-Decides [] fe_name = accepts tt refl
frontend_extension_menus-Decides (menu ∷ menus) fe_name = unless (is_empty menu.placements) _ (
    of_iff (λ (h, _). h) (λ h. (h, tt))
      (frontend_extension_menus-Decides menus fe_name ⟫ λ rest _ e. accepts tt (rw e refl)))

module _ (out : Outside) where
  -- Every menu has a placement, the schema version is one of the first renderer's, and what the
  -- extension gives to render is well formed.
  pub record IsValid (fe : FrontendExtension) : Type 0 where
    pub placements : All HasPlacements fe.spec.source.inline.frontend.menus
    pub version :
        is_v1 (normalized_version (requested_version (some fe.spec.source.inline.schema_version)))
        ≡ true
    pub well_formed :
        IsWellFormed (input_with_menus out fe (placed_menus fe.spec.source.inline.frontend.menus))

  from_frontend_extension-Decides :
      (fe : FrontendExtension)
      → Decides
          (All HasPlacements fe.spec.source.inline.frontend.menus)
          (λ input.
            input ≡ input_with_menus out fe (placed_menus fe.spec.source.inline.frontend.menus))
          (from_frontend_extension out fe)
  unfolding from_frontend_extension
  from_frontend_extension-Decides fe =
      of_iff (λ (h, _). h) (λ h. (h, tt))
        (frontend_extension_menus-Decides fe.spec.source.inline.frontend.menus _ ⟫ λ ms _ e.
          accepts tt (rw e refl))

  versioned :
      (fe : FrontendExtension) (input : FrontendRenderInput)
      → Decides
          ((is_v1 (normalized_version (requested_version input.schema_version)) ≡ true)
            × IsWellFormed input)
          (λ _. Unit)
          (let requested = requested_version input.schema_version in
            if is_v1 (normalized_version requested)
            then render_v1_manifest input
            else err (unsupported_schema_version (out.name_any fe.metadata) requested))
  versioned fe input =
      provided (is_v1 (normalized_version (requested_version input.schema_version))) _
        (weaken_by (λ _ _ _. tt) (render_v1_manifest-Decides input))

  of_input :
      (fe : FrontendExtension) (input : FrontendRenderInput)
      → input ≡ input_with_menus out fe (placed_menus fe.spec.source.inline.frontend.menus)
      → Decides
          ((is_v1
                (normalized_version (requested_version (some fe.spec.source.inline.schema_version)))
              ≡ true)
            × IsWellFormed
                (input_with_menus out fe (placed_menus fe.spec.source.inline.frontend.menus)))
          (λ _. Unit)
          (let requested = requested_version input.schema_version in
            if is_v1 (normalized_version requested)
            then render_v1_manifest input
            else err (unsupported_schema_version (out.name_any fe.metadata) requested))
  unfolding input_with_menus
  of_input fe input e = rw e (versioned fe _)

  validate_frontend_extension-Decides :
      (fe : FrontendExtension)
      → Decides (IsValid fe) (λ _. Unit) (validate_frontend_extension out fe)
  unfolding validate_frontend_extension render_frontend_extension_manifest by_schema_version
      input_with_menus
  validate_frontend_extension-Decides fe =
      of_iff (λ ((p, (v, w)), _). record { placements = p; version = v; well_formed = w })
        (λ valid. ((valid.placements, (valid.version, valid.well_formed)), tt))
        ((from_frontend_extension-Decides fe ⟫ λ input _ e. of_input fe input e) ⟫> λ _.
          accepts tt tt)

  -- An extension is valid exactly where each of its menus has a placement, its schema version is "v1",
  -- "v1alpha1", "1" or "1.0" once trimmed and in lower case, or empty, and its menus and pages are
  -- well formed.
  pub validate_frontend_extension_iff :
      (fe : FrontendExtension) → IsOk (validate_frontend_extension out fe) ↔ IsValid fe
  validate_frontend_extension_iff fe = IsOk-iff (validate_frontend_extension-Decides fe)

  integration-Decides :
      (fi : FrontendIntegration)
      → Decides
          ((is_v1 (normalized_version (requested_version (engine_version fi.spec))) ≡ true)
            × IsWellFormed (from_frontend_integration out fi))
          (λ _. Unit)
          (validate_frontend_integration out fi)
  unfolding validate_frontend_integration render_extension_manifest
  integration-Decides fi =
      of_iff (λ (h, _). h) (λ h. (h, tt))
        (provided (is_v1 (normalized_version (requested_version (engine_version fi.spec)))) _
            (render_v1_manifest-Decides (from_frontend_integration out fi))
          ⟫> λ _. accepts tt tt)

  -- An integration is valid exactly where its engine version is one of the same and its menus and
  -- pages are well formed.
  pub validate_frontend_integration_iff :
      (fi : FrontendIntegration)
      → IsOk (validate_frontend_integration out fi) ↔ (
          (is_v1 (normalized_version (requested_version (engine_version fi.spec))) ≡ true)
          × IsWellFormed (from_frontend_integration out fi))
  validate_frontend_integration_iff fi = IsOk-iff (integration-Decides fi)
