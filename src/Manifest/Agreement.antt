-- ===== src/Manifest/Agreement.antt =====
-- The pages that resolve_v1_pages lists, beside those that render_v1_manifest renders
-- (crates/manifest/src/v1).
use mathlib.Core.Path.{subst}
use kube_frontend_forge_cont.Common.{
  Bool, true, false, String, Option, some, ◌≡◌, ◌≢◌, refl, sym, ap, ◌∙◌, ◌↔◌, List, [], ◌∷◌, map,
  All, Bool-cases, inl, inr, ==_iff, ◌&◌, chars, collect,
}
use kube_frontend_forge_cont.Common.Distinct.{holds}
use kube_frontend_forge_cont.Common.Firsts.{firsts, firsts-All, firsts-agree}
use kube_frontend_forge_cont.Api.Integration.{as_str}
use kube_frontend_forge_cont.Manifest.Error.{ManifestRenderError, Result, ok, err, ◌>>=◌}
use kube_frontend_forge_cont.Manifest.Error.Decides.{IsOk, of_ok, of_condition}
use kube_frontend_forge_cont.Manifest.Json.{Value, string, arr, get_key}
use kube_frontend_forge_cont.Manifest.Input.{
  FrontendRenderInput, FrontendPageSpec, ResolvedFrontendPage,
}
use kube_frontend_forge_cont.Manifest.Checks.{same_pair, same_text, page_id_suffix}
use kube_frontend_forge_cont.Manifest.Resolve.{
  ResolvedPageBinding, ResolvedTopMenu, bindings_of, push_resolved, resolved_frontend_page,
  resolve_spec, resolve_v1_pages,
}
use kube_frontend_forge_cont.Manifest.Resolve.Placed.{IsBound, HasNoUnderscore}
use kube_frontend_forge_cont.Manifest.Resolve.PagesOf.{page_of}
use kube_frontend_forge_cont.Manifest.Resolve.Accepted.{
  IsResolved, resolve_spec-Decides, same_pair_iff,
}
use kube_frontend_forge_cont.Manifest.Render.{
  nothing_rendered, replace_slash, page_id_for_suffix, page_id_of, manifest_value,
  render_v1_manifest,
}
use kube_frontend_forge_cont.Manifest.Render.Loop.{
  page_value, menu_values, extended, render_menus-eq-ok,
}
use kube_frontend_forge_cont.Manifest.Render.Ids.{page_id_for_suffix-injective}
use kube_frontend_forge_cont.Manifest.Render.Accepted.{
  all_pages, parts, ids_of_values, render_v1_manifest_iff,
}

abbrev pair_of : ResolvedPageBinding → String × String
pair_of b = (as_str b.placement, b.page_id_suffix)

push_resolved-eq-map :
    (bs : List ResolvedPageBinding) (seen : List (String × String))
    → push_resolved bs seen ≡ map resolved_frontend_page (firsts same_pair pair_of seen bs)
unfolding push_resolved firsts
push_resolved-eq-map [] seen = refl
push_resolved-eq-map (b ∷ bs) seen = elim (Bool-cases (holds same_pair seen (pair_of b))) [
  | inl e ↦ rw e (push_resolved-eq-map bs seen)
  | inr e ↦
      rw e (ap (λ r. resolved_frontend_page b ∷ r) (push_resolved-eq-map bs (pair_of b ∷ seen)))
]

same_bool : (a b : Bool) → (a ≡ true → b ≡ true) → (b ≡ true → a ≡ true) → a ≡ b
same_bool true b f g = sym (f refl)
same_bool false true f g = g refl
same_bool false false f g = refl

-- For suffixes without underscores, pairs and page ids are equal together.
tell_apart :
    (fi_name : String) (x y : ResolvedPageBinding)
    → HasNoUnderscore x.page_id_suffix
    → HasNoUnderscore y.page_id_suffix
    → same_pair (pair_of x) (pair_of y) ≡ same_text (page_id_of fi_name x) (page_id_of fi_name y)
unfolding page_id_of page_id_for_suffix
tell_apart fi x y hx hy =
    same_bool _ _
      (λ e.
        let same = (same_pair_iff (pair_of x) (pair_of y)).0 e in
        (==_iff _ _).1 (ap (λ (a, s). fi & "-" & a & "-" & collect (replace_slash (chars s))) same))
      (λ e.
        let (p, s) =
          page_id_for_suffix-injective fi x.placement y.placement x.page_id_suffix y.page_id_suffix
            hx hy ((==_iff _ _).0 e) in
        (same_pair_iff (pair_of x) (pair_of y)).1 (λ i. (as_str (p i), s i)))

-- The id of a listed page in the manifest.
abbrev pub listed_id : FrontendRenderInput → ResolvedFrontendPage → String
listed_id input p =
    page_id_for_suffix input.name p.placement
      (page_id_suffix p.route_suffix p.action_key input.require_page_key)

listed_ids :
    (input : FrontendRenderInput) (bs : List ResolvedPageBinding)
    → All (IsBound input.require_page_key (page_of input.pages)) bs
    → map (page_id_of input.name) bs ≡ map (listed_id input) (map resolved_frontend_page bs)
unfolding page_id_of resolved_frontend_page
listed_ids input [] h = refl
listed_ids input (b ∷ bs) ((_, _, _, s, _), h) = rw (s, listed_ids input bs h) refl

no_underscores :
    (require_page_key : Bool) (look : String → Option FrontendPageSpec)
    (bs : List ResolvedPageBinding)
    → All (IsBound require_page_key look) bs
    → All (λ b. HasNoUnderscore b.page_id_suffix) bs
no_underscores r look [] h = tt
no_underscores r look (b ∷ bs) ((_, _, _, _, n), h) = (n, no_underscores r look bs h)

-- The first bindings by their pairs are the first by their ids.
same_firsts :
    (input : FrontendRenderInput) (bs : List ResolvedPageBinding)
    → All (IsBound input.require_page_key (page_of input.pages)) bs
    → firsts same_pair pair_of [] bs ≡ firsts same_text (page_id_of input.name) [] bs
same_firsts input bs h =
    firsts-agree same_pair same_text pair_of (page_id_of input.name)
      (λ b. HasNoUnderscore b.page_id_suffix) (tell_apart input.name) [] bs tt
      (no_underscores _ _ bs h)

module _ (input : FrontendRenderInput) (tops : List ResolvedTopMenu)
    (resolved : resolve_spec input input.name input.route_namespace ≡ ok tops)
    (good : IsResolved input tops) where
  listed :
      resolve_v1_pages input
      ≡ ok (
          map resolved_frontend_page
            (firsts same_text (page_id_of input.name) [] (bindings_of tops)))
  unfolding resolve_v1_pages ◌>>=◌
  listed =
      rw
        (
          resolved,
          push_resolved-eq-map (bindings_of tops) [],
          same_firsts input (bindings_of tops) good.bound,
        )
        refl

  pub rendered :
      render_v1_manifest input
      ≡ ok (
          manifest_value input (
            extended input.route_namespace input.name input.extension_module nothing_rendered
              (bindings_of tops)
              (menu_values input.route_namespace input.name input.extension_module tops)))
  unfolding render_v1_manifest ◌>>=◌
  rendered =
      rw
        (
          resolved,
          render_menus-eq-ok input.route_namespace input.name input.extension_module tops
              nothing_rendered (all_pages _ _ _ good.bound),
        )
        refl

map-map :
    {A B C : Type 0} (g : B → C) (f : A → B) (xs : List A)
    → map (λ x. g (f x)) xs ≡ map g (map f xs)
map-map g f [] = refl
map-map g f (x ∷ xs) = ap (λ r. g (f x) ∷ r) (map-map g f xs)

pub ok_injective : {A : Type 0} {x y : A} → ok x ≡ ok y → x ≡ y
ok_injective e = cc

-- A manifest's pages are the listed ones, in their order.
abbrev pub PagesAgree : FrontendRenderInput → Value → List ResolvedFrontendPage → Type 0
PagesAgree input manifest listed_pages =
    (pages : List Value) × (get_key "pages" manifest ≡ some (arr pages))
    × (map (get_key "id") pages ≡ map (λ p. some (string (listed_id input p))) listed_pages)

agree :
    (input : FrontendRenderInput) (tops : List ResolvedTopMenu)
    → IsResolved input tops
    → PagesAgree input
        (manifest_value input (
          extended input.route_namespace input.name input.extension_module nothing_rendered
            (bindings_of tops)
            (menu_values input.route_namespace input.name input.extension_module tops)))
        (map resolved_frontend_page
          (firsts same_text (page_id_of input.name) [] (bindings_of tops)))
agree input tops good =
    let fi = input.name in
    let bs = bindings_of tops in
    let fs = firsts same_text (page_id_of fi) [] bs in
    let bound = firsts-All same_text (page_id_of fi) (IsBound _ _) [] bs good.bound in
    (
      map (page_value fi input.extension_module) fs,
      (parts input _).1,
      ids_of_values input.route_namespace fi input.extension_module fs (all_pages _ _ fs bound)
          ∙ ap (map (λ s. some (string s))) (listed_ids input fs bound)
          ∙ sym (map-map (λ s. some (string s)) (listed_id input) (map resolved_frontend_page fs)),
    )

-- The pages that are listed for an input are the pages of its manifest, one for one and in the same
-- order: a listed page's placement, and its key or route, give the id of the rendered page.
pub render_v1_manifest-agrees :
    (input : FrontendRenderInput) {manifest : Value} {listed_pages : List ResolvedFrontendPage}
    → render_v1_manifest input ≡ ok manifest
    → resolve_v1_pages input ≡ ok listed_pages
    → PagesAgree input manifest listed_pages
render_v1_manifest-agrees input {manifest} {listed_pages} e l =
    let well = (render_v1_manifest_iff input).0 (subst IsOk (sym e) tt) in
    let (tops, resolved, good) =
      of_condition (resolve_spec-Decides input input.name input.route_namespace) well in
    let same_manifest = ok_injective (sym (rendered input tops resolved good) ∙ e) in
    let same_pages = ok_injective (sym (listed input tops resolved good) ∙ l) in
    subst (λ ps. PagesAgree input manifest ps) same_pages
      (subst
        (λ m. PagesAgree input m (
          map resolved_frontend_page
            (firsts same_text (page_id_of input.name) [] (bindings_of tops))))
        same_manifest (agree input tops good))

failed_render :
    (input : FrontendRenderInput) (e : ManifestRenderError)
    → resolve_spec input input.name input.route_namespace ≡ err e
    → (render_v1_manifest input ≡ err e) × (resolve_v1_pages input ≡ err e)
unfolding render_v1_manifest resolve_v1_pages ◌>>=◌
failed_render input e h = (rw h refl, rw h refl)

err_injective :
    {A : Type 0} {x y : ManifestRenderError} → ◌≡◌ {A = Result A} (err x) (err y) → x ≡ y
err_injective e = cc

ok_not_err : {A : Type 0} {x : A} {e : ManifestRenderError} → ok x ≢ err e
ok_not_err h = cc

same_error :
    (input : FrontendRenderInput) (e : ManifestRenderError) (r : Result (List ResolvedTopMenu))
    → resolve_spec input input.name input.route_namespace ≡ r
    → (render_v1_manifest input ≡ err e) ↔ (resolve_v1_pages input ≡ err e)
same_error input e (err x) h =
    let (a, b) = failed_render input x h in
    (λ q. b ∙ ap err (err_injective (sym a ∙ q)), λ q. a ∙ ap err (err_injective (sym b ∙ q)))
same_error input e (ok tops) h =
    let good = (of_ok (rw h at (resolve_spec-Decides input input.name input.route_namespace))).1 in
    (
      λ q. absurd (ok_not_err (sym (rendered input tops h good) ∙ q)),
      λ q. absurd (ok_not_err (sym (listed input tops h good) ∙ q)),
    )

-- Rendering fails exactly where the listing of the pages fails, and with the same error.
pub render_v1_manifest-error_iff :
    (input : FrontendRenderInput) (e : ManifestRenderError)
    → (render_v1_manifest input ≡ err e) ↔ (resolve_v1_pages input ≡ err e)
render_v1_manifest-error_iff input e =
    same_error input e (resolve_spec input input.name input.route_namespace) refl
