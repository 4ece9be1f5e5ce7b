-- ===== src/Manifest/Resolve/Accepted.antt =====
-- Which inputs resolve_spec accepts, and what it makes of them (crates/manifest/src/v1/resolve.rs).
use mathlib.Core.Path.{subst}
use mathlib.Core.Option.{some-injective}
use mathlib.Core.List.{Memᴰ}
use kube_frontend_forge_cont.Common.{
  Bool, true, false, String, some, ◌≡◌, refl, sym, ap, ◌∙◌, ◌&&◌, List, [], ◌∷◌, map, arith, All,
  All-of_mem, ◌==◌, ==_iff, ==_refl, Bool-cases, inl, inr, ◌↔◌,
}
use kube_frontend_forge_cont.Common.Distinct.{IsDistinct, Fresh-IsDistinct}
use kube_frontend_forge_cont.Manifest.Error.{ok}
use kube_frontend_forge_cont.Manifest.Error.Decides.{
  Decides, of_iff, weaken_by, ◌⟫◌, of_ok, IsOk, IsOk-iff,
}
use kube_frontend_forge_cont.Manifest.Input.{FrontendPageSpec, FrontendRenderInput}
use kube_frontend_forge_cont.Manifest.Checks.{same_pair, contains_text, referenced_page_keys}
use kube_frontend_forge_cont.Manifest.Resolve.{ResolvedTopMenu, resolve_spec, bindings_of}
use kube_frontend_forge_cont.Manifest.Resolve.PagesOf.{
  IsPage, referenced_pages, page_of, resolve_pages-Decides,
}
use kube_frontend_forge_cont.Manifest.Resolve.Placed.{
  IsMenu, IsBound, route_of, bound_key, routes_of, shown_keys, menu_keys,
}
use kube_frontend_forge_cont.Manifest.Resolve.Menus.{resolve_menus-Decides}

-- The pages that menus refer to are pages of one key each; each menu is a menu; and neither a
-- menu's key nor a route comes twice at one placement.
pub record IsWellFormed (input : FrontendRenderInput) : Type 0 where
  pub pages : All IsPage (referenced_pages (referenced_page_keys input) input.pages)
  pub page_keys : IsDistinct (
      map
        (λ (p : FrontendPageSpec). p.key)
        (referenced_pages (referenced_page_keys input) input.pages))
  pub menus : All (IsMenu input.require_page_key (page_of input.pages)) input.menus
  pub keys : IsDistinct (menu_keys input.menus)
  pub routes : IsDistinct (routes_of input.menus)

-- Every binding is bound, the routes are those of the menus and none comes twice, and the pages have
-- the keys that the menus show.
pub record IsResolved (input : FrontendRenderInput) (tops : List ResolvedTopMenu) : Type 0 where
  pub bound : All (IsBound input.require_page_key (page_of input.pages)) (bindings_of tops)
  pub routes : map route_of (bindings_of tops) ≡ routes_of input.menus
  pub distinct : IsDistinct (map route_of (bindings_of tops))
  pub keys : map bound_key (bindings_of tops) ≡ shown_keys input.menus

contains-mem : {k : String} (ks : List String) → Memᴰ k ks → contains_text ks k ≡ true
contains-mem [] m = elim m [ ]
contains-mem {k} (x ∷ ks) (Memᴰ.head e) = rw e (rw (==_refl x) refl)
contains-mem (x ∷ ks) (Memᴰ.tail m) = ground (arith, contains-mem ks m)

both : (p q : Bool) → (p && q) ≡ true → (p ≡ true) × (q ≡ true)
both p q e = ground arith

pub same_pair_iff : (a b : String × String) → (same_pair a b ≡ true) ↔ (a ≡ b)
same_pair_iff (a, b) (c, d) = (
  λ e. let (p, q) = both (a == c) (b == d) e in λ i. ((==_iff a c).0 p i, (==_iff b d).0 q i),
  λ e. rw ((==_iff a c).1 (λ i. (e i).0), (==_iff b d).1 (λ i. (e i).1)) refl,
)

differs :
    (a b : String) (keys : List String)
    → contains_text keys a ≡ false
    → contains_text keys b ≡ true
    → (a == b) ≡ false
differs a b keys e h = elim (Bool-cases (a == b)) [
  | inl q ↦ let same = (==_iff a b).0 q in cc (ap (contains_text keys) same)
  | inr q ↦ q
]

page_of-referenced :
    (keys : List String) (ps : List FrontendPageSpec) (k : String)
    → contains_text keys k ≡ true
    → page_of (referenced_pages keys ps) k ≡ page_of ps k
page_of-referenced keys [] k h = refl
page_of-referenced keys (p ∷ ps) k h = elim (Bool-cases (contains_text keys p.key)) [
  | inl e ↦ rw e (rw (page_of-referenced keys ps k h) refl)
  | inr e ↦ rw (e, page_of-referenced keys ps k h, differs p.key k keys e h) refl
]

page_of_sound :
    (P : FrontendPageSpec → Type 0) (ps : List FrontendPageSpec) (k : String) (p : FrontendPageSpec)
    → All P ps
    → page_of ps k ≡ some p
    → P p × (p.key ≡ k)
page_of_sound P [] k p h e = cc
page_of_sound P (q ∷ ps) k p (h, hs) e = elim (Bool-cases (q.key == k)) [
  | inl hit ↦
      let same : q ≡ p = some-injective _ _ (rw hit at e) in
      (subst P same h, ap (λ (r : FrontendPageSpec). r.key) (sym same) ∙ (==_iff q.key k).0 hit)
  | inr miss ↦ page_of_sound P ps k p hs (rw miss at e)
]

-- An input is resolved exactly where it is well formed.
pub resolve_spec-Decides :
    (spec : FrontendRenderInput) (fi_name route_namespace : String)
    → Decides (IsWellFormed spec) (IsResolved spec) (resolve_spec spec fi_name route_namespace)
unfolding resolve_spec referenced_page_keys
resolve_spec-Decides spec fi ns =
    let keys = referenced_page_keys spec in
    of_iff
      (λ ((ok_pages, one), (ok_menus, fk, fr)). record {
        pages = ok_pages;
        page_keys = one;
        menus = ok_menus;
        keys = (Fresh-IsDistinct same_pair same_pair_iff (menu_keys spec.menus)).0 fk;
        routes = (Fresh-IsDistinct same_pair same_pair_iff (routes_of spec.menus)).0 fr;
      })
      (λ w. (
        (w.pages, w.page_keys),
        (
          w.menus,
          (Fresh-IsDistinct same_pair same_pair_iff (menu_keys spec.menus)).1 w.keys,
          (Fresh-IsDistinct same_pair same_pair_iff (routes_of spec.menus)).1 w.routes,
        ),
      ))
      (resolve_pages-Decides spec fi keys ⟫ λ pages (ok_pages, _) at.
        weaken_by
          (λ tops (_, _, fr) (b, r, k). record {
            bound = b;
            routes = r;
            distinct =
                rw r ((Fresh-IsDistinct same_pair same_pair_iff (routes_of spec.menus)).0 fr);
            keys = k;
          })
          (resolve_menus-Decides spec fi ns pages keys (page_of spec.pages)
            (λ k c. at k ∙ page_of-referenced keys spec.pages k c)
            (λ k p e. page_of_sound IsPage _ k p ok_pages (sym (at k) ∙ e)) spec.menus [] []
            (All-of_mem _ keys (λ k m. contains-mem keys m))))

-- An input is resolved exactly where it is well formed: the keys of its menus, and of the pages that
-- they refer to, are keys; those pages are shaped as their type has it and have one key each; each
-- menu has the shape of its type and pages that accept its placement; and at one placement neither a
-- menu's key nor a route comes twice.
pub resolve_spec_iff :
    (spec : FrontendRenderInput) (fi_name route_namespace : String)
    → IsOk (resolve_spec spec fi_name route_namespace) ↔ IsWellFormed spec
resolve_spec_iff spec fi ns = IsOk-iff (resolve_spec-Decides spec fi ns)

-- What is resolved has one binding for each page menu and each child, in their order, with its route;
-- no route comes twice at one placement; and each binding has the page with the key that its menu or
-- child shows, the page key it is given or else its own key; that page has the shape of its type and
-- accepts the placement.
pub resolve_spec-IsResolved :
    (spec : FrontendRenderInput) (fi_name route_namespace : String) {tops : List ResolvedTopMenu}
    → resolve_spec spec fi_name route_namespace ≡ ok tops
    → IsResolved spec tops
resolve_spec-IsResolved spec fi ns e = (of_ok (rw e at (resolve_spec-Decides spec fi ns))).1
