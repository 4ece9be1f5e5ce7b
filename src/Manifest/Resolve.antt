-- ===== src/Manifest/Resolve.antt =====
-- Menus and the pages that they show, checked and bound to one another
-- (crates/manifest/src/v1/resolve.rs).
pub mod Keys
pub mod PagesOf
pub mod Placed
pub mod Menus
pub mod Accepted
use kube_frontend_forge_cont.Common.{
  Char, Bool, true, false, not, ◌&&◌, ◌||◌, String, Option, none, some, List, [], ◌∷◌, ◌++◌,
  BTreeMap, get, insert, chars, ◌==◌, ◌&◌, is_empty, any, if◌then◌else◌,
}
use kube_frontend_forge_cont.Common.Distinct.{holds}
use kube_frontend_forge_cont.Api.Spec.{
  MenuPlacement, global, workspace, cluster, MenuNodeType, PageType, CrdTablePageSpec,
  IframePageSpec,
}
use kube_frontend_forge_cont.Api.Integration.{as_str}
use kube_frontend_forge_cont.Names.{is_lower, is_digit, is_dash}
use kube_frontend_forge_cont.Manifest.Error.{
  Result, ok, err, ◌>>=◌, ◌>>◌, duplicate_top_level_menu_key, duplicate_page_key,
  missing_page_for_menu_key, invalid_menu_key, missing_crd_columns, duplicate_menu_route,
  invalid_menu_shape, invalid_page_shape,
}
use kube_frontend_forge_cont.Manifest.Input.{
  FrontendSecondaryMenuSpec, FrontendMenuSpec, FrontendPageSpec, FrontendRenderInput,
  ResolvedMenuLevel, primary, secondary, ResolvedFrontendPage,
}
use kube_frontend_forge_cont.Manifest.Checks.{
  Pairs, same_pair, contains_pair, same_text, contains_text, starts_with_dash, ends_with_dash,
  all_key_chars, is_valid_key, validate_key, no_placements, validate_page_config,
  validate_page_shape, route_suffix_for_menu, route_suffix_for_child, page_id_suffix,
  menu_name_for_suffix, nested_menu_parent, title_or, page_title, referenced_page_key, add_key,
  child_page_keys, menu_page_keys, keys_of_menus, referenced_page_keys, is_bound, insert_pages,
  resolve_pages,
}

pub record ResolvedOrganizationMenu : Type 0 where
  pub name : String
  pub title : String
  pub icon : Option String
  pub placement : MenuPlacement

pub record ResolvedPageBinding : Type 0 where
  pub menu_title : String
  pub menu_level : ResolvedMenuLevel
  pub page_title : String
  pub icon : Option String
  pub placement : MenuPlacement
  pub route_suffix : String
  pub page_id_suffix : String
  pub menu_name : String
  pub parent : String
  pub page : FrontendPageSpec

pub data ResolvedTopMenu : Type 0 where
  page : ResolvedPageBinding → ResolvedTopMenu
  organization : ResolvedOrganizationMenu → List ResolvedPageBinding → ResolvedTopMenu

unfoldable pub same_placement : MenuPlacement → MenuPlacement → Bool
same_placement global global = true
same_placement workspace workspace = true
same_placement cluster cluster = true
same_placement _ _ = false

unfoldable pub accepts_placement : Option (List MenuPlacement) → MenuPlacement → Bool
accepts_placement none placement = true
accepts_placement (some placements) placement = any (λ p. same_placement p placement) placements

unfoldable pub page_accepts_placement : FrontendPageSpec → MenuPlacement → Bool
page_accepts_placement p placement = accepts_placement p.placements placement

unfoldable pub missing_page : String → String → Result FrontendPageSpec
missing_page fi_name key = err (missing_page_for_menu_key fi_name key)

-- The page of a key, if it accepts the placement.
unfoldable pub accepted_page :
    String → MenuPlacement → String → Option FrontendPageSpec → Result FrontendPageSpec
accepted_page fi_name placement key none = missing_page fi_name key
accepted_page fi_name placement key (some p) =
    if page_accepts_placement p placement
    then ok p
    else err (
        invalid_page_shape fi_name key
          ("page placements must include bound menu placement '" & as_str placement & "'"))

-- With the page, the routes that are bound from here on.
unfoldable pub bind_page :
    String
    → MenuPlacement
    → String
    → String
    → BTreeMap FrontendPageSpec
    → Pairs
    → Result (FrontendPageSpec × Pairs)
unfolding ◌>>=◌
bind_page fi_name placement key route_suffix pages_by_key bound_menu_routes =
    if contains_pair bound_menu_routes (as_str placement) route_suffix
    then err (duplicate_menu_route fi_name (as_str placement) route_suffix)
    else (accepted_page fi_name placement key (get pages_by_key key) >>= λ p.
        ok (p, (as_str placement, route_suffix) ∷ bound_menu_routes))

unfoldable pub resolve_page_key : String → String → Option String → Bool → Result String
unfolding ◌>>◌
resolve_page_key fi_name menu_key (some page_key) require_page_key =
    validate_key fi_name page_key false >> ok page_key
resolve_page_key fi_name menu_key none false = ok menu_key
resolve_page_key fi_name menu_key none true =
    err (invalid_menu_shape fi_name menu_key "page menus must define pageKey")

pub has_page_key : Option String → Bool
has_page_key none = false
has_page_key (some key) = true

module _ (spec : FrontendRenderInput) (fi_name route_namespace : String)
    (pages_by_key : BTreeMap FrontendPageSpec) where
  -- What a menu, or a child of one, becomes once its page is bound.
  unfoldable pub page_menu_binding :
      FrontendMenuSpec → String → FrontendPageSpec → ResolvedPageBinding
  page_menu_binding menu page_key p = record {
    menu_title = menu.display_name;
    menu_level = primary;
    page_title = page_title p menu.display_name;
    icon = menu.icon;
    placement = menu.placement;
    page_id_suffix = page_id_suffix (route_suffix_for_menu menu.key) page_key spec.require_page_key;
    route_suffix = route_suffix_for_menu menu.key;
    menu_name = menu_name_for_suffix route_namespace fi_name menu.key;
    parent = as_str menu.placement;
    page = p;
  }

  unfoldable pub child_binding :
      FrontendMenuSpec → FrontendSecondaryMenuSpec → String → FrontendPageSpec → ResolvedPageBinding
  child_binding menu child page_key p = record {
    menu_title = child.display_name;
    menu_level = secondary;
    page_title = page_title p child.display_name;
    icon = child.icon;
    placement = menu.placement;
    page_id_suffix =
        page_id_suffix (route_suffix_for_child menu.key child.key) page_key spec.require_page_key;
    route_suffix = route_suffix_for_child menu.key child.key;
    menu_name =
        menu_name_for_suffix route_namespace fi_name (route_suffix_for_child menu.key child.key);
    parent =
        nested_menu_parent menu.placement (menu_name_for_suffix route_namespace fi_name menu.key);
    page = p;
  }

  unfoldable pub resolve_page_menu : FrontendMenuSpec → Pairs → Result (ResolvedTopMenu × Pairs)
  unfolding ◌>>=◌
  resolve_page_menu menu routes =
      if is_empty menu.children
      then (do
        page_key ← resolve_page_key fi_name menu.key menu.page_key spec.require_page_key
        (p, bound) ←
            bind_page fi_name menu.placement page_key (route_suffix_for_menu menu.key) pages_by_key
              routes
        ok (ResolvedTopMenu.page (page_menu_binding menu page_key p), bound))
      else err (invalid_menu_shape fi_name menu.key "page menus cannot define children")

  unfoldable pub resolve_child :
      FrontendMenuSpec → FrontendSecondaryMenuSpec → Pairs → Result (ResolvedPageBinding × Pairs)
  unfolding ◌>>=◌ ◌>>◌
  resolve_child menu child routes = do
    validate_key fi_name child.key true
    page_key ← resolve_page_key fi_name child.key child.page_key spec.require_page_key
    (p, bound) ←
        bind_page fi_name menu.placement page_key (route_suffix_for_child menu.key child.key)
          pages_by_key routes
    ok (child_binding menu child page_key p, bound)

  unfoldable pub resolve_children :
      FrontendMenuSpec
      → List FrontendSecondaryMenuSpec
      → Pairs
      → Result (List ResolvedPageBinding × Pairs)
  unfolding ◌>>=◌
  resolve_children menu [] routes = ok ([], routes)
  resolve_children menu (child ∷ children) routes = do
    (binding, bound) ← resolve_child menu child routes
    (bindings, all_bound) ← resolve_children menu children bound
    ok (binding ∷ bindings, all_bound)

  unfoldable pub resolve_organization : FrontendMenuSpec → Pairs → Result (ResolvedTopMenu × Pairs)
  unfolding ◌>>=◌ has_page_key
  resolve_organization menu routes =
      if is_empty menu.children
      then err
          (invalid_menu_shape fi_name menu.key "organization menus must define at least one child")
      else if has_page_key menu.page_key
      then err (invalid_menu_shape fi_name menu.key "organization menus cannot define pageKey")
      else (do
        (children, bound) ← resolve_children menu menu.children routes
        ok (
          organization
              (record {
                name = menu_name_for_suffix route_namespace fi_name menu.key;
                title = menu.display_name;
                icon = menu.icon;
                placement = menu.placement;
              })
              children,
          bound,
        ))

  unfoldable pub resolve_typed :
      MenuNodeType → FrontendMenuSpec → Pairs → Result (ResolvedTopMenu × Pairs)
  resolve_typed MenuNodeType.page menu routes = resolve_page_menu menu routes
  resolve_typed MenuNodeType.organization menu routes = resolve_organization menu routes

  -- The loop, with the top-level keys and the routes of the menus before.
  unfoldable pub resolve_menus :
      List FrontendMenuSpec → Pairs → Pairs → Result (List ResolvedTopMenu)
  unfolding ◌>>=◌ ◌>>◌
  resolve_menus [] keys routes = ok []
  resolve_menus (menu ∷ menus) keys routes = do
    validate_key fi_name menu.key true
    (if contains_pair keys (as_str menu.placement) menu.key
        then err (duplicate_top_level_menu_key fi_name menu.key)
        else ok (tt {0}))
    (top, bound) ← resolve_typed menu.type menu routes
    tops ← resolve_menus menus ((as_str menu.placement, menu.key) ∷ keys) bound
    ok (top ∷ tops)

unfoldable pub resolve_spec : FrontendRenderInput → String → String → Result (List ResolvedTopMenu)
unfolding ◌>>=◌
resolve_spec spec fi_name route_namespace = do
  pages_by_key ← resolve_pages spec fi_name (referenced_page_keys spec)
  resolve_menus spec fi_name route_namespace pages_by_key spec.menus [] []

unfoldable pub resolved_frontend_page : ResolvedPageBinding → ResolvedFrontendPage
resolved_frontend_page b = record {
  title = b.page_title;
  menu_title = b.menu_title;
  menu_level = b.menu_level;
  placement = b.placement;
  route_suffix = b.route_suffix;
  action_key = b.page.key;
  page = b.page;
}

-- All bindings of the menus, in order.
unfoldable pub bindings_of : List ResolvedTopMenu → List ResolvedPageBinding
bindings_of [] = []
bindings_of (ResolvedTopMenu.page b ∷ tops) = b ∷ bindings_of tops
bindings_of (organization menu children ∷ tops) = children ++ bindings_of tops

-- `push_resolved_frontend_page` for each of them, with the keys pushed before.
unfoldable pub push_resolved : List ResolvedPageBinding → Pairs → List ResolvedFrontendPage
push_resolved [] keys = []
push_resolved (b ∷ bs) keys =
    let skip = push_resolved bs keys in
    let more = push_resolved bs ((as_str b.placement, b.page_id_suffix) ∷ keys) in
    if contains_pair keys (as_str b.placement) b.page_id_suffix
    then skip
    else resolved_frontend_page b ∷ more

unfoldable pub resolve_v1_pages : FrontendRenderInput → Result (List ResolvedFrontendPage)
unfolding ◌>>=◌
resolve_v1_pages input = do
  tops ← resolve_spec input input.name input.route_namespace
  ok (push_resolved (bindings_of tops) [])
