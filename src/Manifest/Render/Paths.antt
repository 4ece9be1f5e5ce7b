-- ===== src/Manifest/Render/Paths.antt =====
-- The paths of a manifest's routes (crates/manifest/src/v1/render.rs).
use mathlib.Core.Path.{subst}
use kube_frontend_forge_cont.Common.{
  String, some, ◌≡◌, ◌≢◌, sym, ◌∙◌, ◌⊎◌, inl, inr, List, [], ◌∷◌, map, arith, All, chars, get,
}
use kube_frontend_forge_cont.Common.Distinct.{IsDistinct}
use kube_frontend_forge_cont.Api.Integration.{as_str}
use kube_frontend_forge_cont.Manifest.Error.{ok}
use kube_frontend_forge_cont.Manifest.Error.Decides.{IsOk, of_condition}
use kube_frontend_forge_cont.Manifest.Json.{Value, string, arr, get_key}
use kube_frontend_forge_cont.Manifest.Input.{FrontendRenderInput}
use kube_frontend_forge_cont.Manifest.Resolve.{ResolvedPageBinding, bindings_of}
use kube_frontend_forge_cont.Manifest.Resolve.Placed.{route_of}
use kube_frontend_forge_cont.Manifest.Render.{render_route, render_v1_manifest}
use kube_frontend_forge_cont.Manifest.Resolve.Accepted.{resolve_spec-Decides}
use kube_frontend_forge_cont.Manifest.Render.Accepted.{parts, render_v1_manifest_iff}
use kube_frontend_forge_cont.Manifest.Agreement.{ok_injective, rendered}
use kube_frontend_forge_cont.Manifest.Render.Ids.{HeadsDiffer, path_of-injective}

some_string : {s t : String} → some (string s) ≡ some (string t) → s ≡ t
some_string e = cc

module _ (route_namespace fi_name : String)
    (not_c : HeadsDiffer (chars route_namespace) (chars "clusters/:cluster"))
    (not_w : HeadsDiffer (chars route_namespace) (chars "workspaces/:workspace")) where
  path_differs :
      (b c : ResolvedPageBinding)
      → route_of c ≢ route_of b
      → get_key "path" (render_route route_namespace fi_name c)
        ≢ get_key "path" (render_route route_namespace fi_name b)
  unfolding render_route get_key get
  path_differs b c n e =
      let (p, s) =
        path_of-injective route_namespace fi_name c.route_suffix b.route_suffix not_c not_w
          c.placement b.placement (some_string e) in
      n (λ i. (as_str (p i), s i))

  paths_differ :
      (b : ResolvedPageBinding) (bs : List ResolvedPageBinding)
      → All (λ r. r ≢ route_of b) (map route_of bs)
      → All
          (λ p. p ≢ get_key "path" (render_route route_namespace fi_name b))
          (map (get_key "path") (map (render_route route_namespace fi_name) bs))
  paths_differ b [] h = tt
  paths_differ b (c ∷ bs) (n, h) = (path_differs b c n, paths_differ b bs h)

  pub render_route-IsDistinct :
      (bs : List ResolvedPageBinding)
      → IsDistinct (map route_of bs)
      → IsDistinct (map (get_key "path") (map (render_route route_namespace fi_name) bs))
  render_route-IsDistinct [] d = tt
  render_route-IsDistinct (b ∷ bs) (n, d) = (paths_differ b bs n, render_route-IsDistinct bs d)

-- The namespaces that integrations and extensions are rendered in.
abbrev pub IsRouteNamespace : String → Type 0
IsRouteNamespace s = (s ≡ "frontendextensions") ⊎ (s ≡ "frontendintegrations")

namespace_paths :
    (ns fi_name : String) (bs : List ResolvedPageBinding)
    → IsRouteNamespace ns
    → IsDistinct (map route_of bs)
    → IsDistinct (map (get_key "path") (map (render_route ns fi_name) bs))
namespace_paths ns fi bs (inl e) d =
    rw e (render_route-IsDistinct "frontendextensions" fi (omega arith) (omega arith) bs d)
namespace_paths ns fi bs (inr e) d =
    rw e (render_route-IsDistinct "frontendintegrations" fi (omega arith) (omega arith) bs d)

-- No two routes of a manifest have one path.
pub render_v1_manifest-paths :
    (input : FrontendRenderInput) {manifest : Value}
    → IsRouteNamespace input.route_namespace
    → render_v1_manifest input ≡ ok manifest
    → (routes : List Value) × (get_key "routes" manifest ≡ some (arr routes))
      × IsDistinct (map (get_key "path") routes)
render_v1_manifest-paths input {manifest} ns e =
    let well = (render_v1_manifest_iff input).0 (subst IsOk (sym e) tt) in
    let (tops, resolved, good) =
      of_condition (resolve_spec-Decides input input.name input.route_namespace) well in
    let same = ok_injective (sym (rendered input tops resolved good) ∙ e) in
    (
      map (render_route input.route_namespace input.name) (bindings_of tops),
      subst
          (λ m.
            get_key "routes" m
            ≡ some (arr (map (render_route input.route_namespace input.name) (bindings_of tops))))
          same (parts input _).0,
      namespace_paths input.route_namespace input.name (bindings_of tops) ns good.distinct,
    )
