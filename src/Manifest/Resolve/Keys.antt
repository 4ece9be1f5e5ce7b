-- ===== src/Manifest/Resolve/Keys.antt =====
-- Which keys validate_key accepts (crates/manifest/src/v1/resolve.rs).
use kube_frontend_forge_cont.Common.{
  Char, Bool, true, false, not, ◌&&◌, is_empty, if◌then◌else◌, String, ◌≡◌, refl, ◌↔◌, List, [],
  ◌∷◌, chars, arith, All,
}
use kube_frontend_forge_cont.Names.Shape.{IsNameChar, StartsPlain, EndsPlain}
use kube_frontend_forge_cont.Manifest.Checks.{
  starts_with_dash, ends_with_dash, all_key_chars, is_valid_key, validate_key,
}
use kube_frontend_forge_cont.Manifest.Error.{ManifestRenderError, ok, err}
use kube_frontend_forge_cont.Manifest.Error.Decides.{Decides, accepts, rejects}

-- Lower case letters, digits and dashes, at least one, with no dash at either end.
abbrev pub IsKey : String → Type 0
IsKey key = StartsPlain (chars key) × EndsPlain (chars key) × All IsNameChar (chars key)

all_key_chars_iff : (cs : List Char) → (all_key_chars cs ≡ true) ↔ All IsNameChar cs
unfolding all_key_chars
all_key_chars_iff [] = ground arith
all_key_chars_iff (c ∷ cs) = ground (arith, all_key_chars_iff cs)

ends_with_dash_iff : (cs : List Char) → (ends_with_dash cs ≡ false) ↔ EndsPlain cs
unfolding ends_with_dash
ends_with_dash_iff [] = ground arith
ends_with_dash_iff (c ∷ []) = ground arith
ends_with_dash_iff (c ∷ d ∷ cs) = ends_with_dash_iff (d ∷ cs)

key_chars_iff :
    (cs : List Char)
    → ((not (is_empty cs)
          && not (starts_with_dash cs)
          && not (ends_with_dash cs)
          && all_key_chars cs)
        ≡ true)
      ↔ (StartsPlain cs × EndsPlain cs × All IsNameChar cs)
unfolding starts_with_dash
key_chars_iff [] = ground arith
key_chars_iff (c ∷ cs) = ground (arith, all_key_chars_iff (c ∷ cs), ends_with_dash_iff (c ∷ cs))

validated :
    {P : Type 0} (b is_menu_key : Bool) (e f : ManifestRenderError)
    → (b ≡ true) ↔ P
    → Decides P
        (λ (_ : Unit {0}). Unit {0})
        (if b then ok tt else if is_menu_key then err e else err f)
validated true m e f c = accepts (c.0 refl) tt
validated false true e f c = rejects (λ h. cc (c.1 h))
validated false false e f c = rejects (λ h. cc (c.1 h))

-- A key is valid exactly when it is one or more lower case letters, digits and dashes, with no dash
-- at either end.
pub is_valid_key_iff : (key : String) → (is_valid_key key ≡ true) ↔ IsKey key
unfolding is_valid_key
is_valid_key_iff key = key_chars_iff (chars key)

pub validate_key-Decides :
    (fi_name key : String) (is_menu_key : Bool)
    → Decides (IsKey key) (λ _. Unit) (validate_key fi_name key is_menu_key)
unfolding validate_key
validate_key-Decides fi_name key is_menu_key =
    validated (is_valid_key key) is_menu_key _ _ (is_valid_key_iff key)
