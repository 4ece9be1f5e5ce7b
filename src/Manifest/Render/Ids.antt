-- ===== src/Manifest/Render/Ids.antt =====
-- The ids of pages tell placements and suffixes apart (crates/manifest/src/v1/render.rs).
use text.Mathlib.TextEquality.{Char-path}
use text.Mathlib.TextLemmas.{append_assoc, append_cancel_left, nil-append}
use kube_frontend_forge_cont.Common.{
  Char, code, String, ◌≡◌, ◌≢◌, refl, sym, ap, ◌∙◌, List, [], ◌∷◌, ◌++◌, arith, All, chars, collect,
  chars-collect, collect-chars, chars-append, eqb, ◌&◌, if◌then◌else◌,
}
use kube_frontend_forge_cont.Api.Spec.{MenuPlacement, global, workspace, cluster}
use kube_frontend_forge_cont.Api.Integration.{as_str, route_prefix}
use kube_frontend_forge_cont.Decimal.{ascii, code-ascii}
use kube_frontend_forge_cont.Manifest.Resolve.Placed.{HasNoUnderscore}
use kube_frontend_forge_cont.Manifest.Render.{replace_slash, page_id_for_suffix, route_tail}

cons_parts : {c d : Char} {cs ds : List Char} → c ∷ cs ≡ d ∷ ds → (c ≡ d) × (cs ≡ ds)
cons_parts e = (cc, cc)

abbrev replaced : Char → Char
replaced c = if eqb (code c) b'/' then ascii b'_' else c

replaced-injective : (c d : Char) → code c ≢ b'_' → code d ≢ b'_' → replaced c ≡ replaced d → c ≡ d
replaced-injective c d nc nd e =
    let same : code (replaced c) ≡ code (replaced d) = ap code e in
    Char-path c d (ground (arith, same, code-ascii b'_'))

replace_slash-injective :
    (cs ds : List Char)
    → All (λ c. code c ≢ b'_') cs
    → All (λ c. code c ≢ b'_') ds
    → replace_slash cs ≡ replace_slash ds
    → cs ≡ ds
unfolding replace_slash
replace_slash-injective [] [] hc hd e = refl
replace_slash-injective [] (d ∷ ds) hc hd e = cc
replace_slash-injective (c ∷ cs) [] hc hd e = cc
replace_slash-injective (c ∷ cs) (d ∷ ds) (nc, hc) (nd, hd) e =
    let (p, q) = cons_parts e in
    rw (replaced-injective c d nc nd p, replace_slash-injective cs ds hc hd q) refl

-- The first characters differ.
abbrev pub HeadsDiffer : List Char → List Char → Type 0
HeadsDiffer (c ∷ cs) (d ∷ ds) = code c ≢ code d
HeadsDiffer _ _ = ⊥

lists_differ : (xs ys cs ds : List Char) → HeadsDiffer xs ys → xs ++ cs ≢ ys ++ ds
lists_differ (x ∷ xs) (y ∷ ys) cs ds h e = h (ap code (cons_parts e).0)
lists_differ [] ys cs ds h e = h
lists_differ (x ∷ xs) [] cs ds h e = h

pub texts_differ : (a b s t : String) → HeadsDiffer (chars a) (chars b) → a & s ≢ b & t
texts_differ a b s t h e =
    lists_differ (chars a) (chars b) (chars s) (chars t) h
      (sym (chars-append a s) ∙ ap chars e ∙ chars-append b t)

module _ (s t : String) where
  same_word : (w : String) → w & "-" & s ≡ w & "-" & t → s ≡ t
  same_word w e = append_cancel_left "-" s t (append_cancel_left w ("-" & s) ("-" & t) e)

  other_word :
      {P : Type 0} (v w : String) → HeadsDiffer (chars v) (chars w) → v & "-" & s ≡ w & "-" & t → P
  other_word v w h e = absurd (texts_differ v w ("-" & s) ("-" & t) h e)

  words_apart : (p q : MenuPlacement) → as_str p & "-" & s ≡ as_str q & "-" & t → (p ≡ q) × (s ≡ t)
  unfolding as_str
  words_apart global global e = (refl, same_word "global" e)
  words_apart global workspace e = other_word "global" "workspace" (omega arith) e
  words_apart global cluster e = other_word "global" "cluster" (omega arith) e
  words_apart workspace workspace e = (refl, same_word "workspace" e)
  words_apart workspace global e = other_word "workspace" "global" (omega arith) e
  words_apart workspace cluster e = other_word "workspace" "cluster" (omega arith) e
  words_apart cluster cluster e = (refl, same_word "cluster" e)
  words_apart cluster workspace e = other_word "cluster" "workspace" (omega arith) e
  words_apart cluster global e = other_word "cluster" "global" (omega arith) e

-- Two suffixes without underscores have one page id only if they are one suffix at one placement.
pub page_id_for_suffix-injective :
    (fi_name : String) (p q : MenuPlacement) (s t : String)
    → HasNoUnderscore s
    → HasNoUnderscore t
    → page_id_for_suffix fi_name p s ≡ page_id_for_suffix fi_name q t
    → (p ≡ q) × (s ≡ t)
unfolding page_id_for_suffix
page_id_for_suffix-injective fi p q s t hs ht e =
    let rest = append_cancel_left "-" _ _ (append_cancel_left fi _ _ e) in
    let (same, suffixes) = words_apart _ _ p q rest in
    let cs = sym (chars-collect _) ∙ ap chars suffixes ∙ chars-collect _ in
    (
      same,
      sym (collect-chars s)
          ∙ ap collect (replace_slash-injective (chars s) (chars t) hs ht cs)
          ∙ collect-chars t,
    )

-- The path of a route, as render_route writes it.
abbrev pub path_of : String → String → MenuPlacement → String → String
path_of route_namespace fi_name p suffix =
    route_prefix p & route_tail route_namespace fi_name suffix

-- What follows the slash that every path starts with.
abbrev behind_slash : MenuPlacement → String → String
behind_slash global r = r
behind_slash cluster r = "clusters/:cluster" & "/" & r
behind_slash workspace r = "workspaces/:workspace" & "/" & r

prefixed : (p : MenuPlacement) (r : String) → route_prefix p & "/" & r ≡ "/" & behind_slash p r
unfolding route_prefix
prefixed global r = nil-append ("/" & r)
prefixed cluster r = append_assoc "/" "clusters/:cluster" ("/" & r)
prefixed workspace r = append_assoc "/" "workspaces/:workspace" ("/" & r)

module _ (route_namespace fi_name s t : String)
    (not_c : HeadsDiffer (chars route_namespace) (chars "clusters/:cluster"))
    (not_w : HeadsDiffer (chars route_namespace) (chars "workspaces/:workspace")) where
  cancel_word :
      (w r u : String) → w & "/" & route_namespace & r ≡ w & "/" & route_namespace & u → r ≡ u
  cancel_word w r u e =
      append_cancel_left route_namespace r u
        (append_cancel_left "/" _ _ (append_cancel_left w _ _ e))

  both_prefixed :
      (p q : MenuPlacement) (r u : String)
      → route_prefix p & "/" & r ≡ route_prefix q & "/" & u
      → behind_slash p r ≡ behind_slash q u
  both_prefixed p q r u e = append_cancel_left "/" _ _ (sym (prefixed p r) ∙ e ∙ prefixed q u)

  behind_apart :
      (p q : MenuPlacement) (r u : String)
      → behind_slash p (route_namespace & r) ≡ behind_slash q (route_namespace & u)
      → (p ≡ q) × (r ≡ u)
  behind_apart global global r u e = (refl, append_cancel_left route_namespace r u e)
  behind_apart cluster cluster r u e = (refl, cancel_word "clusters/:cluster" r u e)
  behind_apart workspace workspace r u e = (refl, cancel_word "workspaces/:workspace" r u e)
  behind_apart workspace cluster r u e =
      absurd (texts_differ "workspaces/:workspace" "clusters/:cluster" _ _ (omega arith) e)
  behind_apart cluster workspace r u e =
      absurd (texts_differ "clusters/:cluster" "workspaces/:workspace" _ _ (omega arith) e)
  behind_apart global cluster r u e =
      absurd (texts_differ route_namespace "clusters/:cluster" _ _ not_c e)
  behind_apart cluster global r u e =
      absurd (texts_differ route_namespace "clusters/:cluster" _ _ not_c (sym e))
  behind_apart global workspace r u e =
      absurd (texts_differ route_namespace "workspaces/:workspace" _ _ not_w e)
  behind_apart workspace global r u e =
      absurd (texts_differ route_namespace "workspaces/:workspace" _ _ not_w (sym e))

  -- Two routes have one path only if they have one suffix at one placement.
  pub path_of-injective :
      (p q : MenuPlacement)
      → path_of route_namespace fi_name p s ≡ path_of route_namespace fi_name q t
      → (p ≡ q) × (s ≡ t)
  unfolding route_tail
  path_of-injective p q e =
      let (same, rest) = behind_apart p q _ _ (both_prefixed p q _ _ e) in
      (
        same,
        append_cancel_left "/" _ _
            (append_cancel_left fi_name _ _ (append_cancel_left "/" _ _ rest)),
      )
