-- ===== src/Manifest/Resolve/Menus.antt =====
-- Which menus resolve_menus accepts, and what it binds (crates/manifest/src/v1/resolve.rs).
use mathlib.Core.List.{append-nil, map-append}
use kube_frontend_forge_cont.Common.{
  Bool, true, false, String, Option, none, some, ◌≡◌, refl, sym, ap, ◌∙◌, List, [], ◌∷◌, map, All,
  All-append, All-split, BTreeMap, get, is_empty,
}
use kube_frontend_forge_cont.Common.Distinct.{Fresh, after, Fresh-append}
use kube_frontend_forge_cont.Api.Spec.{MenuPlacement, MenuNodeType}
use kube_frontend_forge_cont.Api.Integration.{as_str}
use kube_frontend_forge_cont.Manifest.Error.{ok, ◌>>=◌}
use kube_frontend_forge_cont.Manifest.Error.Decides.{
  Decides, accepts, of_iff, weaken_by, unless, provided, test_not, ◌⟫◌, ◌⟫>◌,
}
use kube_frontend_forge_cont.Manifest.Input.{
  FrontendSecondaryMenuSpec, FrontendMenuSpec, FrontendPageSpec, FrontendRenderInput,
}
use kube_frontend_forge_cont.Manifest.Checks.{
  Pairs, same_pair, contains_pair, contains_text, route_suffix_for_menu, route_suffix_for_child,
  referenced_page_key, add_key, child_page_keys, menu_page_keys, keys_of_menus, page_id_suffix,
}
use kube_frontend_forge_cont.Manifest.Resolve.{
  ResolvedPageBinding, ResolvedTopMenu, page_accepts_placement, bind_page, resolve_page_key,
  page_menu_binding, child_binding, resolve_page_menu, resolve_child, resolve_children,
  resolve_organization, resolve_typed, resolve_menus, bindings_of, has_page_key,
}
use kube_frontend_forge_cont.Manifest.Resolve.Keys.{IsKey, validate_key-Decides}
use kube_frontend_forge_cont.Manifest.Resolve.PagesOf.{IsPage}
use kube_frontend_forge_cont.Manifest.Resolve.Placed.{
  shown_key, HasPageKey, Accepts, resolve_page_key-Decides, bind_page-Decides, route_of, bound_key,
  IsBound, IsLeaf, IsChild, IsMenuBody, IsMenu, child_routes, menu_routes, routes_of, menu_keys,
  child_shown_keys, menu_shown_keys, shown_keys, IsKey-HasNoUnderscore, child_route-HasNoUnderscore,
  suffix-HasNoUnderscore, bindings_of-cons, ap2,
}

module _ (spec : FrontendRenderInput) (fi_name route_namespace : String)
    (pages : BTreeMap FrontendPageSpec) (keys : List String)
    (look : String → Option FrontendPageSpec)
    (found : (k : String) → contains_text keys k ≡ true → get pages k ≡ look k)
    (good : (k : String) (p : FrontendPageSpec)
      → get pages k ≡ some p
      → IsPage p × (p.key ≡ k)) where
  -- The key of a leaf is one of those that menus refer to.
  referred :
      (menu_key : String) (page_key : Option String) (require_page_key : Bool)
      → All
          (λ k. contains_text keys k ≡ true)
          (add_key (referenced_page_key page_key menu_key require_page_key) [])
      → HasPageKey require_page_key page_key
      → contains_text keys (shown_key menu_key page_key) ≡ true
  unfolding add_key referenced_page_key
  referred menu_key (some page_key) require_page_key (h, _) k = h
  referred menu_key none false (h, _) e = h
  referred menu_key none true h e = cc

  Accepts-found :
      (placement : MenuPlacement) (k : String) (o : Option FrontendPageSpec)
      → get pages k ≡ o
      → Accepts (get pages k) placement
      → Accepts o placement
  Accepts-found placement k o e h = rw (← e) h

  Accepts-given :
      (placement : MenuPlacement) (k : String) (o : Option FrontendPageSpec)
      → get pages k ≡ o
      → Accepts o placement
      → Accepts (get pages k) placement
  Accepts-given placement k o e h = rw e h

  module _ {B : Type 0} (f : String → FrontendPageSpec → B) where
    -- What comes of a leaf's key and page, with the routes bound then.
    abbrev LeafResult : MenuPlacement → String → String → Pairs → B × Pairs → Type 0
    LeafResult placement suffix shown routes (x, bound) =
        (k : String) × (p : FrontendPageSpec) × (x ≡ f k p)
        × (look k ≡ some p)
        × IsPage p
        × (p.key ≡ k)
        × (p.key ≡ shown)
        × (page_accepts_placement p placement ≡ true)
        × (bound ≡ (as_str placement, suffix) ∷ routes)

    -- The page of a leaf: its key, then the route and the page.
    IsLeaf-Decides :
        (placement : MenuPlacement) (menu_key suffix : String) (page_key : Option String)
        (routes : Pairs)
        → All
            (λ k. contains_text keys k ≡ true)
            (add_key (referenced_page_key page_key menu_key spec.require_page_key) [])
        → Decides
            (IsLeaf spec.require_page_key look placement menu_key page_key
              × Fresh same_pair routes ((as_str placement, suffix) ∷ []))
            (LeafResult placement suffix (shown_key menu_key page_key) routes)
            (do
              k ← resolve_page_key fi_name menu_key page_key spec.require_page_key
              (p, bound) ← bind_page fi_name placement k suffix pages routes
              ok (f k p, bound))
    IsLeaf-Decides placement menu_key suffix page_key routes ref =
        of_iff (λ (h, (r, a)). ((h, a), (r, tt))) (λ ((h, a), (r, _)). (h, (r, a)))
          (resolve_page_key-Decides fi_name menu_key page_key spec.require_page_key ⟫ λ k has e.
            let same : get pages k ≡ look (shown_key menu_key page_key) =
              ap (get pages) e
              ∙ found _ (referred menu_key page_key spec.require_page_key ref has) in
            of_iff (λ ((r, a), _). (r, Accepts-found placement k _ same a))
              (λ (r, a). ((r, Accepts-given placement k _ same a), tt))
              (bind_page-Decides fi_name placement k suffix pages routes ⟫ λ (p, bound) _ (g, a, b).
                accepts tt (
                  k,
                  p,
                  refl,
                  ap look e ∙ sym same ∙ g,
                  (good k p g).0,
                  (good k p g).1,
                  (good k p g).1 ∙ e,
                  a,
                  b,
                )))

  split_keys :
      (o : Option String) (rest : List String)
      → All (λ k. contains_text keys k ≡ true) (add_key o rest)
      → All (λ k. contains_text keys k ≡ true) (add_key o [])
        × All (λ k. contains_text keys k ≡ true) rest
  unfolding add_key
  split_keys none rest h = (tt, h)
  split_keys (some k) rest (h, hs) = ((h, tt), hs)

  IsChild-Decides :
      (menu : FrontendMenuSpec) (child : FrontendSecondaryMenuSpec) (routes : Pairs)
      → IsKey menu.key
      → All
          (λ k. contains_text keys k ≡ true)
          (add_key (referenced_page_key child.page_key child.key spec.require_page_key) [])
      → Decides
          (IsChild spec.require_page_key look menu.placement child
            × Fresh same_pair routes (child_routes menu (child ∷ [])))
          (λ (b, bound).
            IsBound spec.require_page_key look b
            × (route_of b ≡ (as_str menu.placement, route_suffix_for_child menu.key child.key))
            × (bound ≡ (as_str menu.placement, route_suffix_for_child menu.key child.key) ∷ routes)
            × (bound_key b ≡ shown_key child.key child.page_key))
          (resolve_child spec fi_name route_namespace pages menu child routes)
  unfolding resolve_child child_binding
  IsChild-Decides menu child routes key ref =
      of_iff (λ (k, (l, r)). ((k, l), r)) (λ ((k, l), r). (k, (l, r)))
        (validate_key-Decides fi_name child.key true ⟫> λ child_key.
          weaken_by
            (λ (b, bound) _ (k, p, e, l, g, pk, sh, a, bd).
              let route = route_suffix_for_child menu.key child.key in
              rw e (
                (
                  ap look pk ∙ l,
                  g,
                  a,
                  ap (λ x. page_id_suffix route x spec.require_page_key) (sym pk),
                  suffix-HasNoUnderscore route k spec.require_page_key
                      (child_route-HasNoUnderscore menu.key child.key
                        (IsKey-HasNoUnderscore menu.key key)
                        (IsKey-HasNoUnderscore child.key child_key))
                      (rw (← pk) (IsKey-HasNoUnderscore p.key g.0)),
                ),
                refl,
                bd,
                sh,
              ))
            (IsLeaf-Decides (λ k p. child_binding spec fi_name route_namespace pages menu child k p)
              menu.placement child.key (route_suffix_for_child menu.key child.key) child.page_key
              routes ref))

  abbrev ChildrenResult :
      FrontendMenuSpec
      → List FrontendSecondaryMenuSpec
      → Pairs
      → List ResolvedPageBinding × Pairs
      → Type 0
  ChildrenResult menu children routes (bs, bound) =
      All (IsBound spec.require_page_key look) bs
      × (map route_of bs ≡ child_routes menu children)
      × (bound ≡ after same_pair routes (child_routes menu children))
      × (map bound_key bs ≡ child_shown_keys children)

  children-Decides :
      (menu : FrontendMenuSpec) (children : List FrontendSecondaryMenuSpec) (routes : Pairs)
      → IsKey menu.key
      → All (λ k. contains_text keys k ≡ true) (child_page_keys spec.require_page_key children)
      → Decides
          (All (IsChild spec.require_page_key look menu.placement) children
            × Fresh same_pair routes (child_routes menu children))
          (ChildrenResult menu children routes)
          (resolve_children spec fi_name route_namespace pages menu children routes)
  unfolding resolve_children child_page_keys
  children-Decides menu [] routes key ref = accepts (tt, tt) (tt, refl, refl, refl)
  children-Decides menu (child ∷ children) routes key ref =
      let (first, others) = split_keys _ _ ref in
      of_iff (λ ((c, (f, _)), ((cs, fs), _)). ((c, cs), (f, fs)))
        (λ ((c, cs), (f, fs)). ((c, (f, tt)), ((cs, fs), tt)))
        (IsChild-Decides menu child routes key first ⟫ λ (b, bound) _ (ib, rb, eb, kb).
          let next : Pairs =
            (as_str menu.placement, route_suffix_for_child menu.key child.key) ∷ routes in
          let rest : Decides
              (All (IsChild spec.require_page_key look menu.placement) children
                × Fresh same_pair next (child_routes menu children))
              (ChildrenResult menu children next)
              (resolve_children spec fi_name route_namespace pages menu children bound) =
            rw eb (children-Decides menu children next key others) in
          rest ⟫ λ (bs, all_bound) _ (ibs, rbs, ebs, kbs).
          accepts tt ((ib, ibs), ap2 rb rbs, ebs, ap2 kb kbs))

  abbrev TopResult : MenuNodeType → FrontendMenuSpec → Pairs → ResolvedTopMenu × Pairs → Type 0
  TopResult type menu routes (top, bound) =
      All (IsBound spec.require_page_key look) (bindings_of (top ∷ []))
      × (map route_of (bindings_of (top ∷ [])) ≡ menu_routes type menu)
      × (bound ≡ after same_pair routes (menu_routes type menu))
      × (map bound_key (bindings_of (top ∷ [])) ≡ menu_shown_keys type menu)

  page_menu-Decides :
      (menu : FrontendMenuSpec) (routes : Pairs)
      → IsKey menu.key
      → All
          (λ k. contains_text keys k ≡ true)
          (menu_page_keys spec.require_page_key MenuNodeType.page menu)
      → Decides
          (IsMenuBody spec.require_page_key look MenuNodeType.page menu
            × Fresh same_pair routes (menu_routes MenuNodeType.page menu))
          (TopResult MenuNodeType.page menu routes)
          (resolve_page_menu spec fi_name route_namespace pages menu routes)
  unfolding resolve_page_menu page_menu_binding route_suffix_for_menu bindings_of menu_page_keys
  page_menu-Decides menu routes key ref =
      of_iff (λ (e, (l, f)). ((e, l), f)) (λ ((e, l), f). (e, (l, f)))
        (provided (is_empty menu.children) _ (
          weaken_by
            (λ (top, bound) _ (k, p, e, l, g, pk, sh, a, bd). rw e (
              (
                (
                  ap look pk ∙ l,
                  g,
                  a,
                  ap (λ x. page_id_suffix menu.key x spec.require_page_key) (sym pk),
                  suffix-HasNoUnderscore menu.key k spec.require_page_key
                      (IsKey-HasNoUnderscore menu.key key)
                      (rw (← pk) (IsKey-HasNoUnderscore p.key g.0)),
                ),
                tt,
              ),
              refl,
              bd,
              ap2 sh refl,
            ))
            (IsLeaf-Decides
              (λ k p.
                ResolvedTopMenu.page
                  (page_menu_binding spec fi_name route_namespace pages menu k p))
              menu.placement menu.key menu.key menu.page_key routes ref)))

  organization-Decides :
      (menu : FrontendMenuSpec) (routes : Pairs)
      → IsKey menu.key
      → All
          (λ k. contains_text keys k ≡ true)
          (menu_page_keys spec.require_page_key MenuNodeType.organization menu)
      → Decides
          (IsMenuBody spec.require_page_key look MenuNodeType.organization menu
            × Fresh same_pair routes (menu_routes MenuNodeType.organization menu))
          (TopResult MenuNodeType.organization menu routes)
          (resolve_organization spec fi_name route_namespace pages menu routes)
  unfolding resolve_organization bindings_of menu_page_keys
  organization-Decides menu routes key ref =
      of_iff (λ (e, (n, ((c, f), _))). ((e, n, c), f)) (λ ((e, n, c), f). (e, (n, ((c, f), tt))))
        (unless (is_empty menu.children) _ (
          unless (has_page_key menu.page_key) _ (
            children-Decides menu menu.children routes key ref
            ⟫ λ (bs, bound) _ (ibs, rbs, ebs, kbs).
                accepts tt (rw append-nil ibs, rw append-nil rbs, ebs, rw append-nil kbs))))

  typed-Decides :
      (type : MenuNodeType) (menu : FrontendMenuSpec) (routes : Pairs)
      → IsKey menu.key
      → All (λ k. contains_text keys k ≡ true) (menu_page_keys spec.require_page_key type menu)
      → Decides
          (IsMenuBody spec.require_page_key look type menu
            × Fresh same_pair routes (menu_routes type menu))
          (TopResult type menu routes)
          (resolve_typed spec fi_name route_namespace pages type menu routes)
  unfolding resolve_typed
  typed-Decides MenuNodeType.page menu routes key ref = page_menu-Decides menu routes key ref
  typed-Decides MenuNodeType.organization menu routes key ref =
      organization-Decides menu routes key ref

  abbrev MenusResult : List FrontendMenuSpec → List ResolvedTopMenu → Type 0
  MenusResult menus tops =
      All (IsBound spec.require_page_key look) (bindings_of tops)
      × (map route_of (bindings_of tops) ≡ routes_of menus)
      × (map bound_key (bindings_of tops) ≡ shown_keys menus)

  -- The menus are accepted exactly where each is a menu, and neither a key nor a route comes twice
  -- at one placement.
  pub resolve_menus-Decides :
      (menus : List FrontendMenuSpec) (top_keys routes : Pairs)
      → All (λ k. contains_text keys k ≡ true) (keys_of_menus spec.require_page_key menus)
      → Decides
          (All (IsMenu spec.require_page_key look) menus
            × Fresh same_pair top_keys (menu_keys menus)
            × Fresh same_pair routes (routes_of menus))
          (MenusResult menus)
          (resolve_menus spec fi_name route_namespace pages menus top_keys routes)
  unfolding resolve_menus keys_of_menus bindings_of
  resolve_menus-Decides [] top_keys routes ref = accepts (tt, tt, tt) (tt, refl, refl)
  resolve_menus-Decides (menu ∷ menus) top_keys routes ref =
      let (own, others) = All-split _ (menu_page_keys spec.require_page_key menu.type menu) _ ref in
      of_iff
        (λ (k, (n, ((b, f), ((a, fk, fr), _)))). (
          ((k, b), a),
          (n, fk),
          (Fresh-append same_pair routes (menu_routes menu.type menu) (routes_of menus)).1 (f, fr),
        ))
        (λ (((k, b), a), (n, fk), r).
          let (f, fr) =
            (Fresh-append same_pair routes (menu_routes menu.type menu) (routes_of menus)).0 r in
          (k, (n, ((b, f), ((a, fk, fr), tt)))))
        (validate_key-Decides fi_name menu.key true ⟫> λ key.
          test_not (contains_pair top_keys (as_str menu.placement) menu.key) _ ⟫> λ new.
          typed-Decides menu.type menu routes key own ⟫ λ (top, bound) _ (ib, rb, eb, kb).
          let rest : Decides
              (All (IsMenu spec.require_page_key look) menus
                × Fresh same_pair ((as_str menu.placement, menu.key) ∷ top_keys) (menu_keys menus)
                × Fresh same_pair (after same_pair routes (menu_routes menu.type menu))
                    (routes_of menus))
              (MenusResult menus)
              (resolve_menus spec fi_name route_namespace pages menus
                ((as_str menu.placement, menu.key) ∷ top_keys) bound) =
            rw eb (resolve_menus-Decides menus _ _ others) in
          rest ⟫ λ tops _ (ibs, rbs, kbs). accepts tt (
            rw (bindings_of-cons top tops)
                (All-append (IsBound spec.require_page_key look) _ (bindings_of tops) ib ibs),
            rw (bindings_of-cons top tops, map-append, rb, rbs) refl,
            rw (bindings_of-cons top tops, map-append, kb, kbs) refl,
          ))
