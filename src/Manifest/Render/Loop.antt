-- ===== src/Manifest/Render/Loop.antt =====
-- The rendering loop in closed form: what is pushed for the menus of an input
-- (crates/manifest/src/v1/render.rs).
use mathlib.Core.Path.{subst}
use mathlib.Core.List.{append_assoc, append-nil, map-append}
use kube_frontend_forge_cont.Common.{
  String, Option, none, some, ◌≡◌, refl, ap, List, [], ◌∷◌, ◌++◌, map, All, All-split, inl, inr,
  Bool-cases, get,
}
use kube_frontend_forge_cont.Common.Distinct.{after, after-append}
use kube_frontend_forge_cont.Common.Firsts.{firsts, firsts-append}
use kube_frontend_forge_cont.Api.Spec.{PageType, CrdTablePageSpec, IframePageSpec}
use kube_frontend_forge_cont.Manifest.Error.{Result, ok, err, ◌>>=◌}
use kube_frontend_forge_cont.Manifest.Json.{Value, null, string, get_key}
use kube_frontend_forge_cont.Manifest.Pages.{iframe_page, crd_page}
use kube_frontend_forge_cont.Manifest.Checks.{same_text, contains_text}
use kube_frontend_forge_cont.Manifest.Resolve.{
  ResolvedPageBinding, ResolvedTopMenu, organization, bindings_of,
}
use kube_frontend_forge_cont.Manifest.Resolve.PagesOf.{IsConfigured, IsPage}
use kube_frontend_forge_cont.Manifest.Resolve.Placed.{bindings_of-cons}
use kube_frontend_forge_cont.Manifest.Render.{
  Rendered, page_id_of, render_route, render_leaf_menu, render_organization_menu, render_typed_page,
  render_page, push_rendered_page, render_binding, render_children, render_top, render_menus,
}

value_or_null : Result Value → Value
value_or_null (ok v) = v
value_or_null (err e) = null

-- The page of a binding, where its rendering does not fail.
pub page_value : String → Option String → ResolvedPageBinding → Value
page_value fi_name module_name b = value_or_null (render_page fi_name b module_name)

module _ (fi_name : String) (module_name : Option String) (b : ResolvedPageBinding) where
  typed_total :
      (type : PageType) (crd : Option CrdTablePageSpec) (iframe : Option IframePageSpec)
      → IsConfigured type crd iframe
      → (v : Value) × (render_typed_page fi_name b module_name type crd iframe ≡ ok v)
        × (get_key "id" v ≡ some (string (page_id_of fi_name b)))
  unfolding render_typed_page iframe_page crd_page get_key get
  typed_total PageType.iframe crd (some iframe) h = (_, refl, refl)
  typed_total PageType.iframe crd none (_, h) = absurd h
  typed_total PageType.crd_table (some crd) iframe h = (_, refl, refl)
  typed_total PageType.crd_table none iframe (h, _) = absurd h

  page_total :
      IsPage b.page
      → (v : Value) × (render_page fi_name b module_name ≡ ok v)
        × (get_key "id" v ≡ some (string (page_id_of fi_name b)))
  unfolding render_page
  page_total (_, _, c) = typed_total b.page.type b.page.crd_table b.page.iframe c

  -- The two errors of render_page do not occur for a page that was accepted.
  pub render_page-eq-ok :
      IsPage b.page → render_page fi_name b module_name ≡ ok (page_value fi_name module_name b)
  unfolding page_value value_or_null
  render_page-eq-ok h = let (v, e, _) = page_total h in rw e refl

  pub page_value-id :
      IsPage b.page
      → get_key "id" (page_value fi_name module_name b) ≡ some (string (page_id_of fi_name b))
  unfolding page_value value_or_null
  page_value-id h = let (v, e, i) = page_total h in rw e i

module _ (route_namespace fi_name : String) (module_name : Option String) where
  abbrev pub rendered_first : List String → List ResolvedPageBinding → List ResolvedPageBinding
  rendered_first ids bs = firsts same_text (page_id_of fi_name) ids bs

  abbrev pub leaf_menus : List ResolvedPageBinding → List Value
  leaf_menus bs = map (λ b. render_leaf_menu b module_name) bs

  -- The menus, each organization before its children.
  unfoldable pub menu_values : List ResolvedTopMenu → List Value
  menu_values [] = []
  menu_values (ResolvedTopMenu.page b ∷ tops) = render_leaf_menu b module_name ∷ menu_values tops
  menu_values (organization menu children ∷ tops) =
      render_organization_menu menu module_name ∷ (leaf_menus children ++ menu_values tops)

  abbrev pub extended : Rendered → List ResolvedPageBinding → List Value → Rendered
  extended state bs menus = record {
    routes = state.routes ++ map (render_route route_namespace fi_name) bs;
    menus = state.menus ++ menus;
    pages =
        state.pages
        ++ map (page_value fi_name module_name) (rendered_first state.rendered_page_ids bs);
    rendered_page_ids =
        after same_text state.rendered_page_ids
          (map (page_id_of fi_name) (rendered_first state.rendered_page_ids bs));
  }

  extended_twice :
      (state : Rendered) (xs ys : List ResolvedPageBinding) (ms ns : List Value)
      → extended (extended state xs ms) ys ns ≡ extended state (xs ++ ys) (ms ++ ns)
  extended_twice state xs ys ms ns = simp (firsts-append, map-append, append_assoc, after-append)

  binding-eq-ok :
      (b : ResolvedPageBinding) (state : Rendered)
      → IsPage b.page
      → render_binding route_namespace fi_name module_name b state
        ≡ ok (extended state (b ∷ []) (render_leaf_menu b module_name ∷ []))
  unfolding render_binding push_rendered_page ◌>>=◌ firsts
  binding-eq-ok b state h =
      elim (Bool-cases (contains_text state.rendered_page_ids (page_id_of fi_name b))) [
        | inl e ↦ rw (e, append-nil) refl
        | inr e ↦ rw (e, render_page-eq-ok fi_name module_name b h) refl
      ]

  children-eq-ok :
      (bs : List ResolvedPageBinding) (state : Rendered)
      → All (λ b. IsPage b.page) bs
      → render_children route_namespace fi_name module_name bs state
        ≡ ok (extended state bs (leaf_menus bs))
  unfolding render_children firsts ◌>>=◌
  children-eq-ok [] state h = simp append-nil
  children-eq-ok (b ∷ bs) state (p, h) =
      rw
        (
          binding-eq-ok b state p,
          children-eq-ok bs (extended state (b ∷ []) (render_leaf_menu b module_name ∷ [])) h,
        )
        (ap ok
          (extended_twice state (b ∷ []) bs (render_leaf_menu b module_name ∷ []) (leaf_menus bs)))

  top-eq-ok :
      (top : ResolvedTopMenu) (state : Rendered)
      → All (λ b. IsPage b.page) (bindings_of (top ∷ []))
      → render_top route_namespace fi_name module_name top state
        ≡ ok (extended state (bindings_of (top ∷ [])) (menu_values (top ∷ [])))
  unfolding render_top bindings_of menu_values firsts
  top-eq-ok (ResolvedTopMenu.page b) state (p, _) = binding-eq-ok b state p
  top-eq-ok (organization menu children) state h =
      rw (children-eq-ok children _ (rw append-nil at h)) (simp (append-nil, append_assoc))

  menu_values-cons :
      (top : ResolvedTopMenu) (tops : List ResolvedTopMenu)
      → menu_values (top ∷ tops) ≡ menu_values (top ∷ []) ++ menu_values tops
  unfolding menu_values
  menu_values-cons (ResolvedTopMenu.page b) tops = refl
  menu_values-cons (organization menu children) tops = simp (append-nil)

  -- The loop does not fail on accepted pages. It renders a menu for each menu and child, a route for
  -- each binding, and a page for the first binding of each page id.
  pub render_menus-eq-ok :
      (tops : List ResolvedTopMenu) (state : Rendered)
      → All (λ b. IsPage b.page) (bindings_of tops)
      → render_menus route_namespace fi_name module_name tops state
        ≡ ok (extended state (bindings_of tops) (menu_values tops))
  unfolding render_menus bindings_of menu_values firsts ◌>>=◌
  render_menus-eq-ok [] state h = simp append-nil
  render_menus-eq-ok (top ∷ tops) state h =
      let (ht, hs) =
        All-split _ (bindings_of (top ∷ [])) (bindings_of tops)
          (subst (All (λ b. IsPage b.page)) (bindings_of-cons top tops) h) in
      rw
        (
          top-eq-ok top state ht,
          render_menus-eq-ok tops (extended state (bindings_of (top ∷ [])) (menu_values (top ∷ [])))
              hs,
          bindings_of-cons top tops,
          menu_values-cons top tops,
        )
        (ap ok (
          extended_twice state (bindings_of (top ∷ [])) (bindings_of tops) (menu_values (top ∷ []))
            (menu_values tops)))
