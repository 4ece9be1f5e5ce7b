-- ===== src/Manifest/Resolve/Placed.antt =====
-- What the menus of an input are to be, and what they are bound to
-- (crates/manifest/src/v1/resolve.rs).
use mathlib.Core.List.{append-nil}
use kube_frontend_forge_cont.Common.{
  Bool, true, false, String, Option, none, some, ◌≡◌, refl, sym, ap, List, [], ◌∷◌, ◌++◌, arith,
  All, All-append, All-imp, chars-append, BTreeMap, get, is_empty, ◌&◌, code, chars, ◌≢◌,
}
use kube_frontend_forge_cont.Api.Spec.{MenuPlacement, MenuNodeType}
use kube_frontend_forge_cont.Api.Integration.{as_str}
use kube_frontend_forge_cont.Names.Shape.{IsNameChar}
use kube_frontend_forge_cont.Manifest.Error.{◌>>◌}
use kube_frontend_forge_cont.Manifest.Error.Decides.{
  Decides, accepts, rejects, of_iff, weaken_by, unless, test, ◌⟫◌, ◌⟫>◌,
}
use kube_frontend_forge_cont.Manifest.Input.{
  FrontendSecondaryMenuSpec, FrontendMenuSpec, FrontendPageSpec,
}
use kube_frontend_forge_cont.Manifest.Checks.{
  Pairs, contains_pair, route_suffix_for_child, page_id_suffix,
}
use kube_frontend_forge_cont.Manifest.Resolve.{
  ResolvedPageBinding, ResolvedTopMenu, organization, page_accepts_placement, accepted_page,
  bind_page, missing_page, resolve_page_key, bindings_of, has_page_key,
}
use kube_frontend_forge_cont.Manifest.Resolve.Keys.{IsKey, validate_key-Decides}
use kube_frontend_forge_cont.Manifest.Resolve.PagesOf.{IsPage}

-- The key of the page that a menu shows.
abbrev pub shown_key : String → Option String → String
shown_key menu_key none = menu_key
shown_key menu_key (some page_key) = page_key

-- The page's key is written out and a key, or it may be the menu's.
abbrev pub HasPageKey : Bool → Option String → Type 0
HasPageKey require_page_key none = require_page_key ≡ false
HasPageKey require_page_key (some page_key) = IsKey page_key

-- There is a page, and it accepts the placement.
abbrev pub Accepts : Option FrontendPageSpec → MenuPlacement → Type 0
Accepts none placement = ⊥
Accepts (some p) placement = page_accepts_placement p placement ≡ true

pub resolve_page_key-Decides :
    (fi_name menu_key : String) (page_key : Option String) (require_page_key : Bool)
    → Decides
        (HasPageKey require_page_key page_key)
        (λ k. k ≡ shown_key menu_key page_key)
        (resolve_page_key fi_name menu_key page_key require_page_key)
unfolding resolve_page_key ◌>>◌
resolve_page_key-Decides fi menu_key (some page_key) require_page_key =
    of_iff (λ (k, _). k) (λ k. (k, tt))
      (validate_key-Decides fi page_key false ⟫> λ _. accepts tt refl)
resolve_page_key-Decides fi menu_key none false = accepts refl refl
resolve_page_key-Decides fi menu_key none true = rejects (λ e. cc)

accepted_page-Decides :
    (fi_name : String) (placement : MenuPlacement) (key : String) (o : Option FrontendPageSpec)
    → Decides
        (Accepts o placement)
        (λ p. (o ≡ some p) × (page_accepts_placement p placement ≡ true))
        (accepted_page fi_name placement key o)
unfolding accepted_page missing_page
accepted_page-Decides fi placement key none = rejects (λ h. h)
accepted_page-Decides fi placement key (some p) =
    weaken_by (λ q e f. (ap some (sym f), rw f e)) (test (page_accepts_placement p placement) _ p)

pub bind_page-Decides :
    (fi_name : String) (placement : MenuPlacement) (key suffix : String)
    (pages : BTreeMap FrontendPageSpec) (routes : Pairs)
    → Decides
        ((contains_pair routes (as_str placement) suffix ≡ false)
          × Accepts (get pages key) placement)
        (λ (p, bound).
          (get pages key ≡ some p)
          × (page_accepts_placement p placement ≡ true)
          × (bound ≡ (as_str placement, suffix) ∷ routes))
        (bind_page fi_name placement key suffix pages routes)
unfolding bind_page
bind_page-Decides fi placement key suffix pages routes =
    unless (contains_pair routes (as_str placement) suffix) _ (
      of_iff (λ (h, _). h) (λ h. (h, tt))
        (accepted_page-Decides fi placement key (get pages key) ⟫ λ p _ (e, h).
          accepts tt (e, h, refl)))

-- A text without the character that stands for a slash in the id of a page.
abbrev pub HasNoUnderscore : String → Type 0
HasNoUnderscore s = All (λ c. code c ≢ b'_') (chars s)

abbrev pub route_of : ResolvedPageBinding → String × String
route_of b = (as_str b.placement, b.route_suffix)

abbrev pub bound_key : ResolvedPageBinding → String
bound_key b = b.page.key

-- A menu is bound to a page of a key, which accepts the menu's placement.
abbrev pub IsBound : Bool → (String → Option FrontendPageSpec) → ResolvedPageBinding → Type 0
IsBound require_page_key look b =
    (look b.page.key ≡ some b.page)
    × IsPage b.page
    × (page_accepts_placement b.page b.placement ≡ true)
    × (b.page_id_suffix ≡ page_id_suffix b.route_suffix b.page.key require_page_key)
    × HasNoUnderscore b.page_id_suffix

-- What the menus of an input are to be, where `look` finds a page by its key.
module _ (require_page_key : Bool) (look : String → Option FrontendPageSpec) where
  abbrev pub IsLeaf : MenuPlacement → String → Option String → Type 0
  IsLeaf placement menu_key page_key =
      HasPageKey require_page_key page_key × Accepts (look (shown_key menu_key page_key)) placement

  abbrev pub IsChild : MenuPlacement → FrontendSecondaryMenuSpec → Type 0
  IsChild placement child = IsKey child.key × IsLeaf placement child.key child.page_key

  abbrev pub IsMenuBody : MenuNodeType → FrontendMenuSpec → Type 0
  IsMenuBody MenuNodeType.page menu =
      (is_empty menu.children ≡ true) × IsLeaf menu.placement menu.key menu.page_key
  IsMenuBody MenuNodeType.organization menu =
      (is_empty menu.children ≡ false)
      × (has_page_key menu.page_key ≡ false)
      × All (IsChild menu.placement) menu.children

  abbrev pub IsMenu : FrontendMenuSpec → Type 0
  IsMenu menu = IsKey menu.key × IsMenuBody menu.type menu

-- The routes of a menu and of its children.
abbrev pub child_routes : FrontendMenuSpec → List FrontendSecondaryMenuSpec → Pairs
child_routes menu [] = []
child_routes menu (child ∷ children) =
    (as_str menu.placement, route_suffix_for_child menu.key child.key) ∷ child_routes menu children

abbrev pub menu_routes : MenuNodeType → FrontendMenuSpec → Pairs
menu_routes MenuNodeType.page menu = (as_str menu.placement, menu.key) ∷ []
menu_routes MenuNodeType.organization menu = child_routes menu menu.children

abbrev pub routes_of : List FrontendMenuSpec → Pairs
routes_of [] = []
routes_of (menu ∷ menus) = menu_routes menu.type menu ++ routes_of menus

-- The keys of the pages that a menu and its children show.
abbrev pub child_shown_keys : List FrontendSecondaryMenuSpec → List String
child_shown_keys [] = []
child_shown_keys (child ∷ children) = shown_key child.key child.page_key ∷ child_shown_keys children

abbrev pub menu_shown_keys : MenuNodeType → FrontendMenuSpec → List String
menu_shown_keys MenuNodeType.page menu = shown_key menu.key menu.page_key ∷ []
menu_shown_keys MenuNodeType.organization menu = child_shown_keys menu.children

abbrev pub shown_keys : List FrontendMenuSpec → List String
shown_keys [] = []
shown_keys (menu ∷ menus) = menu_shown_keys menu.type menu ++ shown_keys menus

abbrev pub menu_keys : List FrontendMenuSpec → Pairs
menu_keys [] = []
menu_keys (menu ∷ menus) = (as_str menu.placement, menu.key) ∷ menu_keys menus

pub IsKey-HasNoUnderscore : (key : String) → IsKey key → HasNoUnderscore key
IsKey-HasNoUnderscore key (_, _, h) =
    All-imp IsNameChar (λ c. code c ≢ b'_') (chars key) (λ c n e. ground (arith, n, e)) h

pub child_route-HasNoUnderscore :
    (a b : String)
    → HasNoUnderscore a
    → HasNoUnderscore b
    → HasNoUnderscore (route_suffix_for_child a b)
unfolding route_suffix_for_child
child_route-HasNoUnderscore a b ha hb =
    rw (chars-append a ("/" & b), chars-append "/" b)
      (All-append (λ c. code c ≢ b'_') (chars a) (chars "/" ++ chars b) ha
        (λ e. ground (arith, e), hb))

pub suffix-HasNoUnderscore :
    (route key : String) (use_page_key : Bool)
    → HasNoUnderscore route
    → HasNoUnderscore key
    → HasNoUnderscore (page_id_suffix route key use_page_key)
unfolding page_id_suffix
suffix-HasNoUnderscore route key true h k = k
suffix-HasNoUnderscore route key false h k = h

pub bindings_of-cons :
    (top : ResolvedTopMenu) (tops : List ResolvedTopMenu)
    → bindings_of (top ∷ tops) ≡ bindings_of (top ∷ []) ++ bindings_of tops
unfolding bindings_of
bindings_of-cons (ResolvedTopMenu.page b) tops = refl
bindings_of-cons (organization menu children) tops = rw append-nil refl

pub ap2 :
    {A : Type 0} {x y : A} {xs ys : List A} → x ≡ y → xs ≡ ys → ◌≡◌ {A = List A} (x ∷ xs) (y ∷ ys)
ap2 p q = rw (p, q) refl
