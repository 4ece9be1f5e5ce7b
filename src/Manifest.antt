-- ===== src/Manifest.antt =====
-- Validation and rendering of frontends (crates/manifest/src): the versions that lib.rs chooses from.
pub mod Error
pub mod Json
pub mod Input
pub mod Checks
pub mod Resolve
pub mod Columns
pub mod Pages
pub mod Render
pub mod Agreement
pub mod Validated
use kube_frontend_forge_cont.Common.{
  Char, Bool, ◌||◌, String, Option, none, some, List, [], ◌∷◌, code, chars, collect, map, trim,
  is_empty, ◌==◌, ◌+◌, if◌then◌else◌,
}
use kube_frontend_forge_cont.Api.Extension.{FrontendExtension}
use kube_frontend_forge_cont.Api.Integration.{FrontendIntegration, engine_version}
use kube_frontend_forge_cont.Decimal.{ascii}
use kube_frontend_forge_cont.Names.{is_upper}
use kube_frontend_forge_cont.Outside.{Outside}
use kube_frontend_forge_cont.Manifest.Error.{
  ManifestRenderError, Result, ok, err, ◌>>=◌, ◌>>◌, unsupported_engine_version,
  unsupported_schema_version, to_string,
}
use kube_frontend_forge_cont.Manifest.Json.{Value}
use kube_frontend_forge_cont.Manifest.Input.{
  FrontendRenderInput, ResolvedFrontendPage, from_frontend_integration, from_frontend_extension,
}
use kube_frontend_forge_cont.Manifest.Resolve.{resolve_v1_pages}
use kube_frontend_forge_cont.Manifest.Render.{render_v1_manifest}

abbrev lower : Char → Char
lower c = if is_upper c then ascii (code c + 32) else c

unfoldable pub to_ascii_lowercase : String → String
to_ascii_lowercase s = collect (map lower (chars s))

-- `.unwrap_or("v1").trim()`
unfoldable pub requested_version : Option String → String
requested_version none = trim "v1"
requested_version (some version) = trim version

unfoldable pub normalized_version : String → String
normalized_version requested =
    to_ascii_lowercase (if is_empty (chars requested) then "v1" else requested)

-- The versions that the first renderer takes.
unfoldable pub is_v1 : String → Bool
is_v1 version = version == "v1" || version == "v1alpha1" || version == "1" || version == "1.0"

abbrev pub error_text : Result (Unit {0}) → Option String
error_text (ok _) = none
error_text (err e) = some (to_string e)

module _ (out : Outside) where
  unfoldable pub render_extension_manifest : FrontendIntegration → Result Value
  render_extension_manifest fi =
      let requested = requested_version (engine_version fi.spec) in
      if is_v1 (normalized_version requested)
      then render_v1_manifest (from_frontend_integration out fi)
      else err (unsupported_engine_version (out.name_any fi.metadata) requested)

  -- The dispatch of a FrontendExtension by its schema version, to the renderer or the resolver.
  unfoldable pub by_schema_version {ℓ} :
      {A : Type ℓ} → FrontendExtension → (FrontendRenderInput → Result A) → Result A
  unfolding ◌>>=◌
  by_schema_version fe v1 = from_frontend_extension out fe >>= λ input.
      (let requested = requested_version input.schema_version in
        if is_v1 (normalized_version requested)
        then v1 input
        else err (unsupported_schema_version (out.name_any fe.metadata) requested))

  unfoldable pub render_frontend_extension_manifest : FrontendExtension → Result Value
  unfolding by_schema_version
  render_frontend_extension_manifest fe = by_schema_version fe render_v1_manifest

  unfoldable pub resolve_frontend_extension_pages :
      FrontendExtension → Result (List ResolvedFrontendPage)
  unfolding by_schema_version
  resolve_frontend_extension_pages fe = by_schema_version fe resolve_v1_pages

  unfoldable pub validate_frontend_integration : FrontendIntegration → Result (Unit {0})
  unfolding ◌>>◌
  validate_frontend_integration fi = render_extension_manifest fi >> ok tt

  unfoldable pub validate_frontend_extension : FrontendExtension → Result (Unit {0})
  unfolding ◌>>◌
  validate_frontend_extension fe = render_frontend_extension_manifest fe >> ok tt

  -- The error's text, as `reconcile` reports it.
  unfoldable pub validation_error : FrontendExtension → Option String
  validation_error fe = error_text (validate_frontend_extension fe)
