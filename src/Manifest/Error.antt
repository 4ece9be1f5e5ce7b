-- ===== src/Manifest/Error.antt =====
-- ManifestRenderError with its messages, and results that may be one
-- (crates/manifest/src/lib.rs).
pub mod Decides
use kube_frontend_forge_cont.Common.{String, ◌&◌}

-- The first text is the name of the object that was rendered.
pub data ManifestRenderError : Type 0 where
  duplicate_top_level_menu_key duplicate_page_key missing_page_for_menu_key invalid_menu_key :
      (fi_name key : String) → ManifestRenderError
  missing_crd_columns : (fi_name key : String) → ManifestRenderError
  duplicate_menu_route : (fi_name placement route : String) → ManifestRenderError
  invalid_menu_shape invalid_page_shape : (fi_name key message : String) → ManifestRenderError
  unsupported_engine_version : (fi_name engine_version : String) → ManifestRenderError
  unsupported_schema_version : (fe_name schema_version : String) → ManifestRenderError

-- The `display` attributes.
unfoldable pub to_string : ManifestRenderError → String
to_string (duplicate_top_level_menu_key fi_name key) =
    "FrontendIntegration " & fi_name & " has duplicate top-level menu key '" & key & "'"
to_string (duplicate_page_key fi_name key) =
    "FrontendIntegration " & fi_name & " has duplicate page key '" & key & "'"
to_string (missing_page_for_menu_key fi_name key) =
    "FrontendIntegration " & fi_name & " is missing page config for menu key '" & key & "'"
to_string (invalid_menu_key fi_name key) =
    "FrontendIntegration " & fi_name & " has invalid menu key '" & key & "'"
to_string (missing_crd_columns fi_name key) =
    "FrontendIntegration " & fi_name & " requires columns for CRD page '" & key & "'"
to_string (duplicate_menu_route fi_name placement route) =
    "FrontendIntegration " & fi_name & " has duplicate menu route '" & route & "' in placement '"
    & placement & "'"
to_string (invalid_menu_shape fi_name key message) =
    "FrontendIntegration " & fi_name & " has invalid menu shape for key '" & key & "': " & message
to_string (invalid_page_shape fi_name key message) =
    "FrontendIntegration " & fi_name & " has invalid page shape for key '" & key & "': " & message
to_string (unsupported_engine_version fi_name engine_version) =
    "FrontendIntegration " & fi_name & " requested unsupported builder.engineVersion '"
    & engine_version & "'"
to_string (unsupported_schema_version fe_name schema_version) =
    "FrontendExtension " & fe_name & " requested unsupported source.schemaVersion '"
    & schema_version & "'"

pub data Result {ℓ} (A : Type ℓ) : Type ℓ where
  ok : A → Result A
  err : ManifestRenderError → Result A

module _ {ℓ κ} {A : Type ℓ} {B : Type κ} where
  infixl 1 ◌>>=◌ ◌>>◌
  unfoldable pub ◌>>=◌ : Result A → (A → Result B) → Result B
  ok a >>= f = f a
  err e >>= f = err e

  unfoldable pub ◌>>◌ : Result A → Result B → Result B
  ok a >> s = s
  err e >> s = err e
