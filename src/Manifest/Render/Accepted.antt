-- ===== src/Manifest/Render/Accepted.antt =====
-- Which inputs are rendered, and what a manifest holds (crates/manifest/src/v1/render.rs).
use mathlib.Core.List.{Memᴰ}
use mathlib.Core.Path.{subst}
use kube_frontend_forge_cont.Common.{
  Bool, true, String, Option, some, ◌≡◌, refl, sym, ap, ◌∙◌, ◌↔◌, List, [], ◌∷◌, map, All, All-map,
  All-imp, length, length-map, Option-cases, inl, inr, get, ==_iff,
}
use kube_frontend_forge_cont.Common.Distinct.{IsDistinct, IsDistinct-map}
use kube_frontend_forge_cont.Common.Firsts.{firsts-All, firsts-IsDistinct, firsts-cover_all}
use kube_frontend_forge_cont.Manifest.Error.{ok, ◌>>=◌}
use kube_frontend_forge_cont.Manifest.Error.Decides.{
  Decides, accepts, of_iff, ◌⟫◌, of_ok, IsOk, IsOk-iff,
}
use kube_frontend_forge_cont.Manifest.Json.{Value, string, arr, get_key}
use kube_frontend_forge_cont.Manifest.Input.{FrontendPageSpec, FrontendRenderInput}
use kube_frontend_forge_cont.Manifest.Checks.{same_text}
use kube_frontend_forge_cont.Manifest.Resolve.{ResolvedPageBinding, ResolvedTopMenu, bindings_of}
use kube_frontend_forge_cont.Manifest.Resolve.PagesOf.{IsPage}
use kube_frontend_forge_cont.Manifest.Resolve.Placed.{IsBound, route_of, routes_of}
use kube_frontend_forge_cont.Manifest.Resolve.Accepted.{
  IsWellFormed, IsResolved, resolve_spec-Decides,
}
use kube_frontend_forge_cont.Manifest.Render.{
  Rendered, nothing_rendered, page_id_of, render_route, render_menus, manifest_value,
  description_entry, render_v1_manifest,
}
use kube_frontend_forge_cont.Manifest.Render.Loop.{
  page_value, page_value-id, rendered_first, menu_values, extended, render_menus-eq-ok,
}

-- A manifest has a route for each route of the menus, each route leads to a page of the manifest, and
-- no two pages have one id.
pub record IsManifest (input : FrontendRenderInput) (manifest : Value) : Type 0 where
  pub routes : List Value
  pub pages : List Value
  pub has_routes : get_key "routes" manifest ≡ some (arr routes)
  pub has_pages : get_key "pages" manifest ≡ some (arr pages)
  pub all_routes : length routes ≡ length (routes_of input.menus)
  pub leads : All (λ r. (p : Value) × Memᴰ p pages × (get_key "pageId" r ≡ get_key "id" p)) routes
  pub one_page : IsDistinct (map (get_key "id") pages)

pub all_pages :
    (require_page_key : Bool) (look : String → Option FrontendPageSpec)
    (bs : List ResolvedPageBinding)
    → All (IsBound require_page_key look) bs
    → All (λ b. IsPage b.page) bs
all_pages r look [] h = tt
all_pages r look (b ∷ bs) ((_, p, _, _, _), h) = (p, all_pages r look bs h)

pub parts :
    (input : FrontendRenderInput) (rendered : Rendered)
    → (get_key "routes" (manifest_value input rendered) ≡ some (arr rendered.routes))
      × (get_key "pages" (manifest_value input rendered) ≡ some (arr rendered.pages))
unfolding manifest_value description_entry get_key get
parts input rendered = elim (Option-cases input.description) [
  | inl e ↦ rw e (refl, refl)
  | inr (d, e) ↦ rw e (refl, refl)
]

module _ (route_namespace fi_name : String) (module_name : Option String) where
  pub ids_of_values :
      (bs : List ResolvedPageBinding)
      → All (λ b. IsPage b.page) bs
      → map (get_key "id") (map (page_value fi_name module_name) bs)
        ≡ map (λ s. some (string s)) (map (page_id_of fi_name) bs)
  ids_of_values [] h = refl
  ids_of_values (b ∷ bs) (p, h) =
      rw (page_value-id fi_name module_name b p, ids_of_values bs h) refl

  leads_to :
      (b : ResolvedPageBinding) (bs : List ResolvedPageBinding)
      → All (λ b. IsPage b.page) bs
      → Memᴰ (page_id_of fi_name b) (map (page_id_of fi_name) bs)
      → (p : Value) × Memᴰ p (map (page_value fi_name module_name) bs)
        × (get_key "pageId" (render_route route_namespace fi_name b) ≡ get_key "id" p)
  unfolding render_route get_key get
  leads_to b [] h m = elim m [ ]
  leads_to b (c ∷ bs) (p, h) (Memᴰ.head e) = (
    page_value fi_name module_name c,
    Memᴰ.head refl,
    ap (λ s. some (string s)) e ∙ sym (page_value-id fi_name module_name c p),
  )
  leads_to b (c ∷ bs) (p, h) (Memᴰ.tail m) =
      let (v, at, same) = leads_to b bs h m in (v, Memᴰ.tail at, same)

pub text_iff : (s t : String) → (same_text s t ≡ true) ↔ (s ≡ t)
text_iff s t = ==_iff s t

manifest_value-IsManifest :
    (input : FrontendRenderInput) (tops : List ResolvedTopMenu)
    → IsResolved input tops
    → IsManifest input (
        manifest_value input (
          extended input.route_namespace input.name input.extension_module nothing_rendered
            (bindings_of tops)
            (menu_values input.route_namespace input.name input.extension_module tops)))
manifest_value-IsManifest input tops r =
    let bs = bindings_of tops in
    let ns = input.route_namespace in
    let fi = input.name in
    let m = input.extension_module in
    let ok_bs = all_pages _ _ bs r.bound in
    let fs = rendered_first ns fi m [] bs in
    let ok_fs = firsts-All same_text (page_id_of fi) (λ b. IsPage b.page) [] bs ok_bs in
    let (has_r, has_p) =
      parts input (extended ns fi m nothing_rendered bs (menu_values ns fi m tops)) in
    record {
      routes = map (render_route ns fi) bs;
      pages = map (page_value fi m) fs;
      has_routes = has_r;
      has_pages = has_p;
      all_routes =
          length-map (render_route ns fi) bs ∙ sym (length-map route_of bs) ∙ ap length r.routes;
      leads = All-map _ (render_route ns fi) bs (
          All-imp _ _ bs (λ b at. leads_to ns fi m b fs ok_fs at)
            (firsts-cover_all same_text (page_id_of fi) text_iff bs));
      one_page = subst IsDistinct (sym (ids_of_values ns fi m fs ok_fs)) (
          IsDistinct-map (λ s. some (string s)) (λ x y e. cc) (map (page_id_of fi) fs)
            (firsts-IsDistinct same_text (page_id_of fi) text_iff bs));
    }

rendered-Decides :
    (input : FrontendRenderInput) (tops : List ResolvedTopMenu)
    → IsResolved input tops
    → Decides (Unit {0}) (IsManifest input) (
        render_menus input.route_namespace input.name input.extension_module tops nothing_rendered
        >>= λ rendered. ok (manifest_value input rendered))
unfolding ◌>>=◌
rendered-Decides input tops r =
    rw
      (render_menus-eq-ok input.route_namespace input.name input.extension_module tops
        nothing_rendered (all_pages _ _ _ r.bound))
      (accepts tt (manifest_value-IsManifest input tops r))

pub render_v1_manifest-Decides :
    (input : FrontendRenderInput)
    → Decides (IsWellFormed input) (IsManifest input) (render_v1_manifest input)
unfolding render_v1_manifest
render_v1_manifest-Decides input =
    of_iff (λ (w, _). w) (λ w. (w, tt))
      (resolve_spec-Decides input input.name input.route_namespace ⟫ λ tops _ r.
        rendered-Decides input tops r)

-- An input is rendered exactly where it is well formed: once its menus are resolved, no page fails.
pub render_v1_manifest_iff :
    (input : FrontendRenderInput) → IsOk (render_v1_manifest input) ↔ IsWellFormed input
render_v1_manifest_iff input = IsOk-iff (render_v1_manifest-Decides input)

-- A manifest has a route for each page menu and each child; each route leads to a page of the
-- manifest; and no two pages have one id.
pub render_v1_manifest-IsManifest :
    (input : FrontendRenderInput) {manifest : Value}
    → render_v1_manifest input ≡ ok manifest
    → IsManifest input manifest
render_v1_manifest-IsManifest input e = (of_ok (rw e at (render_v1_manifest-Decides input))).1
