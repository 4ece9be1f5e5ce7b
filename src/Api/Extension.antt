-- ===== src/Api/Extension.antt =====
-- A FrontendExtension object, and the readings of it that every controller makes.
use kube_frontend_forge_cont.Common.{String, Option, none, some, ◌==◌, if◌then◌else◌, get}
use kube_frontend_forge_cont.Api.Kube.{ObjectMeta}
use kube_frontend_forge_cont.Api.Spec.{FrontendExtensionSpec}
use kube_frontend_forge_cont.Api.Status.{FrontendExtensionStatus}

pub record FrontendExtension : Type 0 where
  pub metadata : ObjectMeta
  pub spec : FrontendExtensionSpec
  pub status : Option FrontendExtensionStatus

-- `fe.metadata.annotations.as_ref().and_then(|annos| annos.get(key))`
unfoldable pub annotation : ObjectMeta → String → Option String
annotation meta key = elim (meta.annotations) [ none ↦ none | some annos ↦ get annos key ]

-- `.filter(|text| !text.is_empty())`
unfoldable pub non_empty : Option String → Option String
non_empty none = none
non_empty (some s) = if s == "" then none else some s
