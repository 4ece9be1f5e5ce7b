-- ===== src/Manifest/Render.antt =====
-- The manifest of resolved menus (crates/manifest/src/v1/render.rs).
pub mod Loop
pub mod Ids
pub mod Paths
pub mod Accepted
use kube_frontend_forge_cont.Common.{
  Char, Bool, true, false, String, Option, none, some, List, [], ◌∷◌, ◌++◌, BTreeMap, chars,
  collect, code, eqb, map, ◌&◌, if◌then◌else◌,
}
use kube_frontend_forge_cont.Api.Spec.{
  MenuPlacement, global, workspace, cluster, PageType, CrdTablePageSpec, IframePageSpec,
}
use kube_frontend_forge_cont.Api.Integration.{as_str, route_prefix}
use kube_frontend_forge_cont.Decimal.{ascii}
use kube_frontend_forge_cont.Manifest.Error.{Result, ok, err, ◌>>=◌, invalid_page_shape}
use kube_frontend_forge_cont.Manifest.Json.{Value, string, number, bool, Map, obj, arr, set_key}
use kube_frontend_forge_cont.Manifest.Input.{FrontendRenderInput, FrontendPageSpec}
use kube_frontend_forge_cont.Manifest.Checks.{contains_text}
use kube_frontend_forge_cont.Manifest.Resolve.{
  ResolvedOrganizationMenu, ResolvedPageBinding, ResolvedTopMenu, organization, resolve_spec,
}
use kube_frontend_forge_cont.Manifest.Pages.{iframe_page, crd_page}

-- `suffix.replace('/', "_")`
unfoldable pub replace_slash : List Char → List Char
replace_slash [] = []
replace_slash (c ∷ cs) = (if eqb (code c) b'/' then ascii b'_' else c) ∷ replace_slash cs

unfoldable pub page_id_for_suffix : String → MenuPlacement → String → String
page_id_for_suffix fi_name placement suffix =
    fi_name & "-" & as_str placement & "-" & collect (replace_slash (chars suffix))

unfoldable pub page_id_of : String → ResolvedPageBinding → String
page_id_of fi_name b = page_id_for_suffix fi_name b.placement b.page_id_suffix

unfoldable pub route_tail : String → String → String → String
route_tail route_namespace fi_name suffix = "/" & route_namespace & "/" & fi_name & "/" & suffix

unfoldable pub render_route : String → String → ResolvedPageBinding → Value
render_route route_namespace fi_name b = obj (
    ("path", string (route_prefix b.placement & route_tail route_namespace fi_name b.route_suffix))
    ∷ ("pageId", string (page_id_of fi_name b))
    ∷ [])

unfoldable pub menu_icon : Option String → String
menu_icon none = "GridDuotone"
menu_icon (some icon) = icon

unfoldable pub insert_menu_module : Value → MenuPlacement → Option String → Value
insert_menu_module menu placement none = menu
insert_menu_module menu cluster (some module_name) =
    set_key "clusterModule" (string module_name) menu
insert_menu_module menu workspace (some module_name) =
    set_key "workspaceModule" (string module_name) menu
insert_menu_module menu global (some module_name) = menu

unfoldable pub menu_value : String → String → String → Option String → Value
menu_value parent name title icon = obj (
    ("parent", string parent)
    ∷ ("name", string name)
    ∷ ("title", string title)
    ∷ ("icon", string (menu_icon icon))
    ∷ ("order", number 999)
    ∷ [])

unfoldable pub render_leaf_menu : ResolvedPageBinding → Option String → Value
render_leaf_menu b module_name =
    insert_menu_module (menu_value b.parent b.menu_name b.menu_title b.icon) b.placement module_name

unfoldable pub render_organization_menu : ResolvedOrganizationMenu → Option String → Value
render_organization_menu menu module_name =
    insert_menu_module (menu_value (as_str menu.placement) menu.name menu.title menu.icon)
      menu.placement module_name

-- The `match` on the page's type.
unfoldable pub render_typed_page :
    String
    → ResolvedPageBinding
    → Option String
    → PageType
    → Option CrdTablePageSpec
    → Option IframePageSpec
    → Result Value
render_typed_page fi_name b module_name PageType.iframe crd_table (some iframe) =
    ok (iframe_page (page_id_of fi_name b) b.page_title iframe.src)
render_typed_page fi_name b module_name PageType.iframe crd_table none =
    err (invalid_page_shape fi_name b.page.key "type=iframe requires iframe config")
render_typed_page fi_name b module_name PageType.crd_table (some crd) iframe =
    ok (crd_page (page_id_of fi_name b) b.page_title b.placement module_name crd crd.columns)
render_typed_page fi_name b module_name PageType.crd_table none iframe =
    err (invalid_page_shape fi_name b.page.key "type=crdTable requires crdTable config")

unfoldable pub render_page : String → ResolvedPageBinding → Option String → Result Value
render_page fi_name b module_name =
    render_typed_page fi_name b module_name b.page.type b.page.crd_table b.page.iframe

-- The vectors of the loop, and the ids of the pages rendered so far.
pub record Rendered : Type 0 where
  pub routes : List Value
  pub menus : List Value
  pub pages : List Value
  pub rendered_page_ids : List String

abbrev pub nothing_rendered : Rendered
nothing_rendered = record { routes = []; menus = []; pages = []; rendered_page_ids = [] }

unfoldable pub push_rendered_page :
    String → ResolvedPageBinding → Option String → Rendered → Result Rendered
unfolding ◌>>=◌
push_rendered_page fi_name b module_name state =
    if contains_text state.rendered_page_ids (page_id_of fi_name b) then ok state else (do
      p ← render_page fi_name b module_name
      ok (record state {
        pages = state.pages ++ (p ∷ []);
        rendered_page_ids = page_id_of fi_name b ∷ state.rendered_page_ids;
      }))

module _ (route_namespace fi_name : String) (module_name : Option String) where
  -- One bound page: its menu, its route and, once, the page.
  unfoldable pub render_binding : ResolvedPageBinding → Rendered → Result Rendered
  render_binding b state = push_rendered_page fi_name b module_name (record state {
    menus = state.menus ++ (render_leaf_menu b module_name ∷ []);
    routes = state.routes ++ (render_route route_namespace fi_name b ∷ []);
  })

  unfoldable pub render_children : List ResolvedPageBinding → Rendered → Result Rendered
  unfolding ◌>>=◌
  render_children [] state = ok state
  render_children (b ∷ bs) state = render_binding b state >>= λ next. render_children bs next

  unfoldable pub render_top : ResolvedTopMenu → Rendered → Result Rendered
  render_top (ResolvedTopMenu.page b) state = render_binding b state
  render_top (organization menu children) state =
      render_children children
        (record state { menus = state.menus ++ (render_organization_menu menu module_name ∷ []) })

  unfoldable pub render_menus : List ResolvedTopMenu → Rendered → Result Rendered
  unfolding ◌>>=◌
  render_menus [] state = ok state
  render_menus (top ∷ tops) state = render_top top state >>= λ next. render_menus tops next

text_entries : BTreeMap String → Map
text_entries [] = []
text_entries ((k, v) ∷ m) = (k, string v) ∷ text_entries m

unfoldable pub render_locale : String × BTreeMap String → Value
unfolding text_entries
render_locale (lang, messages) =
    obj (("lang", string lang) ∷ ("messages", obj (text_entries messages)) ∷ [])

unfoldable pub render_locales : FrontendRenderInput → Value
render_locales spec = arr (map render_locale spec.locales)

unfoldable pub description_entry : Option String → Map
description_entry none = []
description_entry (some description) = ("description", string description) ∷ []

unfoldable pub title_or_name : Option String → String → String
title_or_name none name = name
title_or_name (some title) name = title

unfoldable pub manifest_value : FrontendRenderInput → Rendered → Value
manifest_value input rendered = obj (
    (("version", string "1.0")
      ∷ ("name", string input.name)
      ∷ ("displayName", string (title_or_name input.display_name input.name))
      ∷ [])
    ++ (description_entry input.description
        ++ (("routes", arr rendered.routes)
            ∷ ("menus", arr rendered.menus)
            ∷ ("locales", render_locales input)
            ∷ ("pages", arr rendered.pages)
            ∷ (
              "build",
              obj (
                  ("target", string "kubesphere-extension")
                  ∷ ("moduleName", string input.name)
                  ∷ ("systemjs", bool true)
                  ∷ []),
            )
            ∷ [])))

unfoldable pub render_v1_manifest : FrontendRenderInput → Result Value
unfolding ◌>>=◌
render_v1_manifest input = do
  tops ← resolve_spec input input.name input.route_namespace
  rendered ←
      render_menus input.route_namespace input.name input.extension_module tops nothing_rendered
  ok (manifest_value input rendered)
