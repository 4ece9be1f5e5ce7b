-- ===== src/Manifest/Input.antt =====
-- What is rendered, from a FrontendIntegration or a FrontendExtension (crates/manifest/src/lib.rs).
use kube_frontend_forge_cont.Common.{
  Bool, true, false, String, Option, none, some, List, [], ◌∷◌, ◌++◌, BTreeMap, get, map, is_empty,
  if◌then◌else◌,
}
use kube_frontend_forge_cont.Api.Spec.{
  MenuPlacement, MenuNodeType, PageType, CrdTablePageSpec, IframePageSpec,
  FrontendExtensionPrimaryMenuSpec, FrontendExtensionSecondaryMenuSpec, FrontendExtensionPageSpec,
}
use kube_frontend_forge_cont.Api.Extension.{FrontendExtension, annotation}
use kube_frontend_forge_cont.Api.Integration
use kube_frontend_forge_cont.Api.Integration.{FrontendIntegration, engine_version}
use kube_frontend_forge_cont.Outside.{Outside}
use kube_frontend_forge_cont.Manifest.Error.{Result, ok, err, invalid_menu_shape, ◌>>=◌}

pub record FrontendSecondaryMenuSpec : Type 0 where
  pub display_name : String
  pub key : String
  pub icon : Option String
  pub page_key : Option String

pub record FrontendMenuSpec : Type 0 where
  pub display_name : String
  pub key : String
  pub icon : Option String
  pub placement : MenuPlacement
  pub type : MenuNodeType
  pub page_key : Option String
  pub children : List FrontendSecondaryMenuSpec

pub record FrontendPageSpec : Type 0 where
  pub key : String
  pub display_name : Option String
  pub placements : Option (List MenuPlacement)
  pub type : PageType
  pub crd_table : Option CrdTablePageSpec
  pub iframe : Option IframePageSpec

pub record FrontendRenderInput : Type 0 where
  pub name : String
  pub display_name : Option String
  pub description : Option String
  pub schema_version : Option String
  pub route_namespace : String
  pub extension_module : Option String
  pub locales : BTreeMap (BTreeMap String)
  pub menus : List FrontendMenuSpec
  pub pages : List FrontendPageSpec
  pub require_page_key : Bool

pub data ResolvedMenuLevel : Type 0 where
  primary secondary : ResolvedMenuLevel

pub record ResolvedFrontendPage : Type 0 where
  pub title : String
  pub menu_title : String
  pub menu_level : ResolvedMenuLevel
  pub placement : MenuPlacement
  pub route_suffix : String
  pub action_key : String
  pub page : FrontendPageSpec

-- The `From` implementations.
unfoldable pub from_secondary_menu : Integration.SecondaryMenuSpec → FrontendSecondaryMenuSpec
from_secondary_menu menu = record {
  display_name = menu.display_name;
  key = menu.key;
  icon = menu.icon;
  page_key = some menu.key;
}

page_key_for : MenuNodeType → String → Option String
page_key_for MenuNodeType.page key = some key
page_key_for MenuNodeType.organization key = none

unfoldable pub from_primary_menu : Integration.PrimaryMenuSpec → FrontendMenuSpec
unfolding page_key_for
from_primary_menu menu = record {
  display_name = menu.display_name;
  key = menu.key;
  icon = menu.icon;
  placement = menu.placement;
  type = menu.type;
  page_key = page_key_for menu.type menu.key;
  children = map from_secondary_menu menu.children;
}

unfoldable pub from_page : Integration.PageSpec → FrontendPageSpec
from_page p = record {
  key = p.key;
  display_name = none;
  placements = none;
  type = p.type;
  crd_table = p.crd_table;
  iframe = p.iframe;
}

unfoldable pub from_extension_secondary_menu :
    FrontendExtensionSecondaryMenuSpec → FrontendSecondaryMenuSpec
from_extension_secondary_menu menu = record {
  display_name = menu.display_name;
  key = menu.key;
  icon = menu.icon;
  page_key = some menu.page_key;
}

unfoldable pub from_extension_page : FrontendExtensionPageSpec → FrontendPageSpec
from_extension_page p = record {
  key = p.key;
  display_name = p.display_name;
  placements = some p.placements;
  type = p.type;
  crd_table = p.crd_table;
  iframe = p.iframe;
}

-- One menu at one of its placements.
unfoldable pub placed_menu : FrontendExtensionPrimaryMenuSpec → MenuPlacement → FrontendMenuSpec
placed_menu menu placement = record {
  display_name = menu.display_name;
  key = menu.key;
  icon = menu.icon;
  placement = placement;
  type = menu.type;
  page_key = menu.page_key;
  children = map from_extension_secondary_menu menu.children;
}

unfoldable pub frontend_extension_menus :
    List FrontendExtensionPrimaryMenuSpec → String → Result (List FrontendMenuSpec)
unfolding ◌>>=◌
frontend_extension_menus [] fe_name = ok []
frontend_extension_menus (menu ∷ menus) fe_name =
    let expanded = frontend_extension_menus menus fe_name in
    if is_empty menu.placements
    then err (invalid_menu_shape fe_name menu.key "menus must define at least one placement")
    else (expanded >>= λ rest. ok (map (placed_menu menu) menu.placements ++ rest))

or_text : Option String → Option String → Option String
or_text none other = other
or_text (some s) other = some s

-- `values.values().next()`: the list of a map is in the order of its keys here.
first_value : BTreeMap String → Option String
first_value [] = none
first_value ((k, v) ∷ m) = some v

unfoldable pub localized_text : BTreeMap String → Option String
unfolding or_text first_value
localized_text values = or_text (get values "en") (or_text (get values "zh") (first_value values))

unwrap_or : Option String → String → String
unwrap_or none s = s
unwrap_or (some t) s = t

module _ (out : Outside) where
  -- `frontend_extension_package_name` of this crate, which does not trim.
  unfoldable pub rendered_package_name : FrontendExtension → String
  unfolding unwrap_or
  rendered_package_name fe = unwrap_or fe.spec.package_spec.name (out.name_any fe.metadata)

  unfoldable pub from_frontend_integration : FrontendIntegration → FrontendRenderInput
  from_frontend_integration fi = record {
    name = out.name_any fi.metadata;
    display_name = fi.spec.display_name;
    description = annotation fi.metadata "kubesphere.io/description";
    schema_version = engine_version fi.spec;
    route_namespace = "frontendintegrations";
    extension_module = none;
    locales = fi.spec.locales;
    menus = map from_primary_menu fi.spec.menus;
    pages = map from_page fi.spec.pages;
    require_page_key = false;
  }

  unfoldable pub input_with_menus : FrontendExtension → List FrontendMenuSpec → FrontendRenderInput
  unfolding or_text
  input_with_menus fe menus = record {
    name = rendered_package_name fe;
    display_name =
        or_text fe.spec.source.inline.frontend.display_name
          (localized_text fe.spec.package_spec.display_name);
    description = localized_text fe.spec.package_spec.description;
    schema_version = some fe.spec.source.inline.schema_version;
    route_namespace = "frontendextensions";
    extension_module = some (rendered_package_name fe);
    locales = fe.spec.source.inline.frontend.locales;
    menus = menus;
    pages = map from_extension_page fe.spec.source.inline.frontend.pages;
    require_page_key = true;
  }

  -- The source's type has one case, `inline`.
  unfoldable pub from_frontend_extension : FrontendExtension → Result FrontendRenderInput
  unfolding ◌>>=◌
  from_frontend_extension fe = do
    menus ← frontend_extension_menus fe.spec.source.inline.frontend.menus (out.name_any fe.metadata)
    ok (input_with_menus fe menus)
