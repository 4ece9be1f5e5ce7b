-- ===== src/Api/Integration.antt =====
-- FrontendIntegration and JSBundle (crates/api/src/fi.rs). The page and menu types that they share
-- with FrontendExtension stand in Spec.
use kube_frontend_forge_cont.Common.{Bool, true, String, Option, none, some, List, BTreeMap}
use kube_frontend_forge_cont.Api.Fields.{ℤ, DateTime}
use kube_frontend_forge_cont.Api.Kube.{ObjectMeta}
use kube_frontend_forge_cont.Api.Spec.{
  MenuPlacement, global, workspace, cluster, MenuNodeType, PageType, CrdTablePageSpec,
  IframePageSpec,
}

pub record BuilderSpec : Type 0 where
  pub engine_version : Option String

pub record SecondaryMenuSpec : Type 0 where
  pub display_name : String
  pub key : String
  pub icon : Option String

pub record PrimaryMenuSpec : Type 0 where
  pub display_name : String
  pub key : String
  pub icon : Option String
  pub placement : MenuPlacement
  pub type : MenuNodeType
  pub children : List SecondaryMenuSpec

pub record PageSpec : Type 0 where
  pub key : String
  pub type : PageType
  pub crd_table : Option CrdTablePageSpec
  pub iframe : Option IframePageSpec

pub record FrontendIntegrationSpec : Type 0 where
  pub display_name : Option String
  pub locales : BTreeMap (BTreeMap String)
  pub enabled : Option Bool
  pub menus : List PrimaryMenuSpec
  pub pages : List PageSpec
  pub builder : Option BuilderSpec

pub data FrontendIntegrationPhase : Type 0 where
  pending building succeeded failed : FrontendIntegrationPhase

pub record ResourceRef : Type 0 where
  pub name : String
  pub namespace : Option String
  pub uid : Option String

pub record LastBuildStatus : Type 0 where
  pub job_ref : Option ResourceRef
  pub started_at : Option DateTime

pub record LastBuildError : Type 0 where
  pub source : String
  pub message : String
  pub reason : Option String
  pub occurred_at : Option DateTime

pub record SimpleCondition : Type 0 where
  pub type : String
  pub status : String
  pub reason : Option String
  pub message : Option String
  pub observed_generation : Option ℤ
  pub last_transition_time : Option DateTime

pub record FrontendIntegrationStatus : Type 0 where
  pub phase : FrontendIntegrationPhase
  pub observed_spec_hash : Option String
  pub observed_manifest_hash : Option String
  pub observed_generation : Option ℤ
  pub last_build : Option LastBuildStatus
  pub bundle_ref : Option ResourceRef
  pub last_error : Option LastBuildError
  pub message : Option String
  pub conditions : List SimpleCondition

pub record FrontendIntegration : Type 0 where
  pub metadata : ObjectMeta
  pub spec : FrontendIntegrationSpec
  pub status : Option FrontendIntegrationStatus

pub record JsBundleNamespacedKeyRef : Type 0 where
  pub key : String
  pub name : String
  pub namespace : String
  pub optional : Option Bool

pub record JsBundleRawFromSpec : Type 0 where
  pub config_map_key_ref : Option JsBundleNamespacedKeyRef
  pub secret_key_ref : Option JsBundleNamespacedKeyRef
  pub url : Option String

pub record JsBundleSpec : Type 0 where
  pub raw : Option String
  pub raw_from : Option JsBundleRawFromSpec

-- The conditions are `serde_json::Value`s, kept as their texts.
pub record JsBundleStatus : Type 0 where
  pub state : Option String
  pub link : Option String
  pub conditions : List String

pub record JsBundle : Type 0 where
  pub metadata : ObjectMeta
  pub spec : JsBundleSpec
  pub status : Option JsBundleStatus

or_true : Option Bool → Bool
or_true none = true
or_true (some b) = b

unfoldable pub enabled : FrontendIntegrationSpec → Bool
unfolding or_true
enabled spec = or_true spec.enabled

unfoldable pub without_enabled : FrontendIntegrationSpec → FrontendIntegrationSpec
without_enabled spec = record spec { enabled = none }

unfoldable pub engine_version : FrontendIntegrationSpec → Option String
engine_version spec = elim (spec.builder) [ none ↦ none | some builder ↦ builder.engine_version ]

unfoldable pub as_str : MenuPlacement → String
as_str global = "global"
as_str workspace = "workspace"
as_str cluster = "cluster"

unfoldable pub route_prefix : MenuPlacement → String
route_prefix cluster = "/clusters/:cluster"
route_prefix workspace = "/workspaces/:workspace"
route_prefix global = ""
