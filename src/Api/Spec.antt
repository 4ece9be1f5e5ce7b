-- ===== src/Api/Spec.antt =====
-- FrontendExtensionSpec and the types under it (crates/api/src/fe.rs, crates/api/src/fi.rs).
use kube_frontend_forge_cont.Common.{Bool, String, Option, List, BTreeMap}
use kube_frontend_forge_cont.Api.Fields.{PublishPolicySpec}

pub record ExtensionMaintainerSpec : Type 0 where
  pub name : String
  pub email : Option String

pub record ExtensionProviderSpec : Type 0 where
  pub name : String
  pub email : Option String
  pub url : Option String

pub record ExtensionDependencySpec : Type 0 where
  pub name : String
  pub tags : List String

-- A chart value is a `serde_json::Value`, kept as its text: it is only copied and hashed.
pub record ExtensionChartsSpec : Type 0 where
  pub values : BTreeMap String

pub record FrontendExtensionPackageSpec : Type 0 where
  pub name : Option String
  pub version : String
  pub display_name : BTreeMap String
  pub description : BTreeMap String
  pub category : Option String
  pub keywords : List String
  pub sources : List String
  pub kube_version : Option String
  pub ks_version : Option String
  pub maintainers : List ExtensionMaintainerSpec
  pub home : Option String
  pub provider : BTreeMap ExtensionProviderSpec
  pub icon : Option String
  pub static_file_directory : Option String
  pub dependencies : Option (List ExtensionDependencySpec)
  pub installation_mode : Option String
  pub images : List String
  pub charts : Option ExtensionChartsSpec

pub data MenuPlacement : Type 0 where
  global workspace cluster : MenuPlacement

pub data MenuNodeType : Type 0 where
  page organization : MenuNodeType

pub data PageType : Type 0 where
  crd_table iframe : PageType

pub data CrdScope : Type 0 where
  namespaced cluster : CrdScope

pub data ColumnRenderType : Type 0 where
  text time link : ColumnRenderType

-- The payload's values are `serde_json::Value`s, kept as their texts.
pub record ColumnRenderSpec : Type 0 where
  pub type : ColumnRenderType
  pub path : String
  pub format : Option String
  pub pattern_text : Option String
  pub link : Option String
  pub payload : Option (BTreeMap String)

pub record ColumnSpec : Type 0 where
  pub key : String
  pub title : String
  pub render : ColumnRenderSpec
  pub enable_sorting : Option Bool
  pub enable_hiding : Option Bool

pub record CrdNamesSpec : Type 0 where
  pub kind : Option String
  pub plural : String

pub record CrdTablePageSpec : Type 0 where
  pub names : CrdNamesSpec
  pub group : String
  pub version : String
  pub auth_key : Option String
  pub scope : CrdScope
  pub columns : List ColumnSpec

pub record IframePageSpec : Type 0 where
  pub src : String

pub record FrontendExtensionSecondaryMenuSpec : Type 0 where
  pub display_name : String
  pub key : String
  pub icon : Option String
  pub page_key : String

pub record FrontendExtensionPrimaryMenuSpec : Type 0 where
  pub display_name : String
  pub key : String
  pub icon : Option String
  pub placements : List MenuPlacement
  pub type : MenuNodeType
  pub page_key : Option String
  pub children : List FrontendExtensionSecondaryMenuSpec

pub record FrontendExtensionPageSpec : Type 0 where
  pub key : String
  pub display_name : Option String
  pub placements : List MenuPlacement
  pub type : PageType
  pub crd_table : Option CrdTablePageSpec
  pub iframe : Option IframePageSpec

pub record FrontendExtensionFrontendSpec : Type 0 where
  pub display_name : Option String
  pub locales : BTreeMap (BTreeMap String)
  pub menus : List FrontendExtensionPrimaryMenuSpec
  pub pages : List FrontendExtensionPageSpec

pub record ExtensionJsBundleSpec : Type 0 where
  pub name : String

pub record ExtensionResourcesSpec : Type 0 where
  pub js_bundle : Option ExtensionJsBundleSpec

pub record InlineFrontendExtensionSourceSpec : Type 0 where
  pub schema_version : String
  pub frontend : FrontendExtensionFrontendSpec
  pub extension_resources : Option ExtensionResourcesSpec

pub data FrontendExtensionSourceType : Type 0 where
  inline : FrontendExtensionSourceType

pub record FrontendExtensionSourceSpec : Type 0 where
  pub type : FrontendExtensionSourceType
  pub inline : InlineFrontendExtensionSourceSpec

pub record FrontendExtensionSpec : Type 0 where
  pub package_spec : FrontendExtensionPackageSpec
  pub source : FrontendExtensionSourceSpec
  pub publish_policy : Option PublishPolicySpec
