-- ===== src/Tests/Rendering.antt =====
-- An extension whose frontend is valid, and one whose frontend is not.
use kube_frontend_forge_cont.Common.{
  true, none, some, List, [], ◌∷◌, ◌≡◌, refl, ◌↔◌, map, inl, get, insert,
}
use kube_frontend_forge_cont.Common.Distinct.{IsDistinct}
use kube_frontend_forge_cont.Api.Spec.{
  MenuPlacement, MenuNodeType, PageType, CrdScope, ColumnRenderType, FrontendExtensionPageSpec,
  FrontendExtensionPrimaryMenuSpec, FrontendExtensionSourceType,
}
use kube_frontend_forge_cont.Api.Extension.{FrontendExtension}
use kube_frontend_forge_cont.Controller.Calls.Meets.{Meets}
use kube_frontend_forge_cont.Controller.Reconcile.{Action, reconcile}
use kube_frontend_forge_cont.Controller.Reconcile.Invalid.{IsReport, reconcile-IsReport}
use kube_frontend_forge_cont.Manifest.{validate_frontend_extension, validation_error}
use kube_frontend_forge_cont.Manifest.Error.{
  Result, ok, err, ◌>>=◌, ◌>>◌, missing_page_for_menu_key,
}
use kube_frontend_forge_cont.Manifest.Error.Decides.{IsOk}
use kube_frontend_forge_cont.Manifest.Json.{Value, null, arr, get_key}
use kube_frontend_forge_cont.Manifest.Input.{
  FrontendRenderInput, ResolvedFrontendPage, input_with_menus, placed_menu, from_extension_page,
  from_extension_secondary_menu, rendered_package_name, localized_text,
}
use kube_frontend_forge_cont.Manifest.Checks.{
  resolve_pages, insert_pages, referenced_page_keys, keys_of_menus, menu_page_keys, child_page_keys,
  add_key, referenced_page_key, validate_key, is_valid_key, starts_with_dash, ends_with_dash,
  all_key_chars, validate_page_shape, no_placements, validate_page_config, route_suffix_for_menu,
  route_suffix_for_child, page_id_suffix,
}
use kube_frontend_forge_cont.Manifest.Resolve.{
  ResolvedTopMenu, resolve_spec, resolve_v1_pages, resolve_menus, resolve_typed, resolve_page_menu,
  resolve_organization, resolve_children, resolve_child, resolve_page_key, bind_page, accepted_page,
  page_accepts_placement, accepts_placement, same_placement, page_menu_binding, child_binding,
  missing_page,
}
use kube_frontend_forge_cont.Manifest.Resolve.Accepted.{
  IsWellFormed, IsResolved, resolve_spec_iff, resolve_spec-IsResolved,
}
use kube_frontend_forge_cont.Manifest.Render.{
  render_v1_manifest, render_menus, render_top, render_children, render_binding, push_rendered_page,
  render_page, render_typed_page, page_id_of, page_id_for_suffix, replace_slash,
}
use kube_frontend_forge_cont.Manifest.Pages.{iframe_page, crd_page}
use kube_frontend_forge_cont.Api.Integration.{as_str}
use kube_frontend_forge_cont.Manifest.Render.Accepted.{
  IsManifest, render_v1_manifest_iff, render_v1_manifest-IsManifest,
}
use kube_frontend_forge_cont.Manifest.Render.Paths.{render_v1_manifest-paths}
use kube_frontend_forge_cont.Manifest.Agreement.{
  PagesAgree, render_v1_manifest-agrees, render_v1_manifest-error_iff,
}
use kube_frontend_forge_cont.Manifest.Validated.{
  IsValid, placed_menus, validate_frontend_extension_iff,
}
use kube_frontend_forge_cont.Controller.Calls.Run.{answers}
use kube_frontend_forge_cont.Tests.Data.{server_of, packages, spec, named, configuration}

abbrev home : FrontendExtensionPageSpec
home = record {
  key = "home";
  display_name = some "Home";
  placements = MenuPlacement.global ∷ MenuPlacement.cluster ∷ MenuPlacement.workspace ∷ [];
  type = PageType.iframe;
  crd_table = none;
  iframe = some (record { src = "http://home" });
}

abbrev pods : FrontendExtensionPageSpec
pods = record {
  key = "pods";
  display_name = none;
  placements = MenuPlacement.workspace ∷ [];
  type = PageType.crd_table;
  crd_table = some (record {
    names = record { kind = some "Pod"; plural = "pods" };
    group = "core";
    version = "v1";
    auth_key = none;
    scope = CrdScope.namespaced;
    columns =
        record {
          key = "name";
          title = "Name";
          render = record {
            type = ColumnRenderType.text;
            path = "metadata.name";
            format = none;
            pattern_text = none;
            link = none;
            payload = none;
          };
          enable_sorting = some true;
          enable_hiding = none;
        }
        ∷ [];
  });
  iframe = none;
}

abbrev menus : List FrontendExtensionPrimaryMenuSpec
menus =
    record {
      display_name = "Overview";
      key = "overview";
      icon = none;
      placements = MenuPlacement.global ∷ MenuPlacement.cluster ∷ [];
      type = MenuNodeType.page;
      page_key = some "home";
      children = [];
    }
    ∷ record {
      display_name = "Tools";
      key = "tools";
      icon = some "Tool";
      placements = MenuPlacement.workspace ∷ [];
      type = MenuNodeType.organization;
      page_key = none;
      children =
          record { display_name = "Pods"; key = "pods"; icon = none; page_key = "pods" }
          ∷ record { display_name = "Start"; key = "start"; icon = none; page_key = "home" }
          ∷ record { display_name = "More"; key = "more"; icon = none; page_key = "home" }
          ∷ [];
    }
    ∷ []

abbrev with_frontend :
    List FrontendExtensionPrimaryMenuSpec → List FrontendExtensionPageSpec → FrontendExtension
with_frontend ms ps = record {
  metadata = named "demo" [];
  spec = record spec {
    source = record {
      type = FrontendExtensionSourceType.inline;
      inline = record {
        schema_version = " V1 ";
        frontend = record { display_name = none; locales = []; menus = ms; pages = ps };
        extension_resources = none;
      };
    };
  };
  status = none;
}

abbrev tools : FrontendExtension
tools = with_frontend menus (home ∷ pods ∷ [])

-- Its menu has no placement.
abbrev unplaced : FrontendExtension
unplaced =
    with_frontend
      (record {
        display_name = "Nowhere";
        key = "nowhere";
        icon = none;
        placements = [];
        type = MenuNodeType.page;
        page_key = some "home";
        children = [];
      }
        ∷ [])
      (home ∷ [])

abbrev input : FrontendRenderInput
input = input_with_menus packages tools (placed_menus menus)

-- The same menus, with no pages.
abbrev bare : FrontendRenderInput
bare = input_with_menus packages (with_frontend menus []) (placed_menus menus)

abbrev value_of {ℓ} : {A : Type ℓ} → A → Result A → A
value_of x (ok v) = v
value_of x (err e) = x

abbrev tops : List ResolvedTopMenu
tops = value_of [] (resolve_spec input input.name input.route_namespace)

abbrev manifest : Value
manifest = value_of null (render_v1_manifest input)

abbrev listed_pages : List ResolvedFrontendPage
listed_pages = value_of [] (resolve_v1_pages input)

is_ok {ℓ} : {A : Type ℓ} (r : Result A) (x : A) → IsOk r → r ≡ ok (value_of x r)
is_ok (ok v) x h = refl
is_ok (err e) x h = absurd h

resolve_IsOk : IsOk (resolve_spec input input.name input.route_namespace)
unfolding render_v1_manifest resolve_spec resolve_pages insert_pages referenced_page_keys
    keys_of_menus menu_page_keys child_page_keys add_key referenced_page_key validate_key
    is_valid_key starts_with_dash ends_with_dash all_key_chars validate_page_shape no_placements
    validate_page_config insert get resolve_menus resolve_typed resolve_page_menu
    resolve_organization resolve_children resolve_child resolve_page_key bind_page accepted_page
    page_accepts_placement accepts_placement same_placement as_str route_suffix_for_menu
    route_suffix_for_child ◌>>=◌ ◌>>◌ page_menu_binding child_binding render_menus render_top
    render_children render_binding push_rendered_page render_page render_typed_page page_id_of
    page_id_for_suffix replace_slash page_id_suffix missing_page input_with_menus placed_menu
    from_extension_page from_extension_secondary_menu rendered_package_name localized_text
    iframe_page crd_page
resolve_IsOk = tt

input-IsWellFormed : IsWellFormed input
input-IsWellFormed = (resolve_spec_iff input input.name input.route_namespace).0 resolve_IsOk

manifest_ok : render_v1_manifest input ≡ ok manifest
manifest_ok = is_ok _ null ((render_v1_manifest_iff input).1 input-IsWellFormed)

tops_ok : resolve_spec input input.name input.route_namespace ≡ ok tops
tops_ok = is_ok _ [] resolve_IsOk

listed_IsOk : IsOk (resolve_v1_pages input)
unfolding resolve_v1_pages render_v1_manifest resolve_spec resolve_pages insert_pages
    referenced_page_keys keys_of_menus menu_page_keys child_page_keys add_key referenced_page_key
    validate_key is_valid_key starts_with_dash ends_with_dash all_key_chars validate_page_shape
    no_placements validate_page_config insert get resolve_menus resolve_typed resolve_page_menu
    resolve_organization resolve_children resolve_child resolve_page_key bind_page accepted_page
    page_accepts_placement accepts_placement same_placement as_str route_suffix_for_menu
    route_suffix_for_child ◌>>=◌ ◌>>◌ page_menu_binding child_binding render_menus render_top
    render_children render_binding push_rendered_page render_page render_typed_page page_id_of
    page_id_for_suffix replace_slash page_id_suffix missing_page input_with_menus placed_menu
    from_extension_page from_extension_secondary_menu rendered_package_name localized_text
    iframe_page crd_page
listed_IsOk = tt

bare_fails : resolve_v1_pages bare ≡ err (missing_page_for_menu_key "demo" "home")
unfolding resolve_v1_pages render_v1_manifest resolve_spec resolve_pages insert_pages
    referenced_page_keys keys_of_menus menu_page_keys child_page_keys add_key referenced_page_key
    validate_key is_valid_key starts_with_dash ends_with_dash all_key_chars validate_page_shape
    no_placements validate_page_config insert get resolve_menus resolve_typed resolve_page_menu
    resolve_organization resolve_children resolve_child resolve_page_key bind_page accepted_page
    page_accepts_placement accepts_placement same_placement as_str route_suffix_for_menu
    route_suffix_for_child ◌>>=◌ ◌>>◌ page_menu_binding child_binding render_menus render_top
    render_children render_binding push_rendered_page render_page render_typed_page page_id_of
    page_id_for_suffix replace_slash page_id_suffix missing_page input_with_menus placed_menu
    from_extension_page from_extension_secondary_menu rendered_package_name localized_text
    iframe_page crd_page
bare_fails = refl

pages_ok : resolve_v1_pages input ≡ ok listed_pages
pages_ok = is_ok _ [] listed_IsOk

unplaced_IsInvalid : ¬ IsValid packages unplaced
unplaced_IsInvalid valid = cc (valid.placements.0)

validate_frontend_extension_iff_example :
    IsOk (validate_frontend_extension packages tools) ↔ IsValid packages tools
validate_frontend_extension_iff_example = validate_frontend_extension_iff packages tools

resolve_spec-IsResolved_example : IsResolved input tops
resolve_spec-IsResolved_example =
    resolve_spec-IsResolved input input.name input.route_namespace tops_ok

render_v1_manifest-IsManifest_example : IsManifest input manifest
render_v1_manifest-IsManifest_example = render_v1_manifest-IsManifest input manifest_ok

render_v1_manifest-paths_example :
    (routes : List Value) × (get_key "routes" manifest ≡ some (arr routes))
    × IsDistinct (map (get_key "path") routes)
unfolding input_with_menus
render_v1_manifest-paths_example = render_v1_manifest-paths input (inl refl) manifest_ok

render_v1_manifest-agrees_example : PagesAgree input manifest listed_pages
render_v1_manifest-agrees_example = render_v1_manifest-agrees input manifest_ok pages_ok

render_v1_manifest-error_iff_example :
    (render_v1_manifest bare ≡ err (missing_page_for_menu_key "demo" "home"))
    ↔ (resolve_v1_pages bare ≡ err (missing_page_for_menu_key "demo" "home"))
render_v1_manifest-error_iff_example =
    render_v1_manifest-error_iff bare (missing_page_for_menu_key "demo" "home")

reconcile-IsReport_example :
    Meets
      (answers (server_of unplaced))
      (IsReport (answers (server_of unplaced)) packages unplaced configuration)
      (λ a. a ≡ Action.await_change)
      (reconcile packages unplaced configuration (validation_error packages))
reconcile-IsReport_example =
    reconcile-IsReport (answers (server_of unplaced)) packages unplaced configuration
      unplaced_IsInvalid
