-- ===== src/Manifest/Resolve/PagesOf.antt =====
-- Which pages resolve_pages accepts, and what it finds by a key
-- (crates/manifest/src/v1/resolve.rs).
use kube_frontend_forge_cont.Common.{
  Bool, true, false, String, Option, none, some, ◌≡◌, ◌≢◌, refl, sym, ap, ◌∙◌, ◌↔◌, List, [], ◌∷◌,
  map, arith, All, BTreeMap, get, insert, get-insert, retain, find, is_empty, ◌==◌, ==_iff,
  if◌then◌else◌, Bool-cases, inl, inr,
}
use kube_frontend_forge_cont.Common.Distinct.{IsDistinct}
use kube_frontend_forge_cont.Api.Spec.{PageType, CrdTablePageSpec, IframePageSpec}
use kube_frontend_forge_cont.Manifest.Error.{ManifestRenderError, ok, err}
use kube_frontend_forge_cont.Manifest.Error.Decides.{
  Decides, accepts, rejects, of_iff, weaken_by, unless, ◌⟫>◌,
}
use kube_frontend_forge_cont.Manifest.Input.{FrontendPageSpec, FrontendRenderInput}
use kube_frontend_forge_cont.Manifest.Checks.{
  contains_text, no_placements, validate_page_config, validate_page_shape, is_bound, insert_pages,
  resolve_pages,
}
use kube_frontend_forge_cont.Manifest.Resolve.Keys.{IsKey, validate_key-Decides}

abbrev pub IsGiven : Option IframePageSpec → Type 0
IsGiven none = ⊥
IsGiven (some i) = Unit

abbrev pub HasColumns : Option CrdTablePageSpec → Type 0
HasColumns none = ⊥
HasColumns (some c) = is_empty c.columns ≡ false

-- Exactly the configuration that belongs to the type, and a table with columns.
abbrev pub IsConfigured : PageType → Option CrdTablePageSpec → Option IframePageSpec → Type 0
IsConfigured PageType.iframe crd iframe = (crd ≡ none) × IsGiven iframe
IsConfigured PageType.crd_table crd iframe = HasColumns crd × (iframe ≡ none)

abbrev pub IsPage : FrontendPageSpec → Type 0
IsPage p =
    IsKey p.key × (no_placements p.placements ≡ false) × IsConfigured p.type p.crd_table p.iframe

columns_decided :
    (b : Bool) (e : ManifestRenderError)
    → Decides
        ((b ≡ false) × (◌≡◌ {A = Option IframePageSpec} none none))
        (λ (_ : Unit {0}). Unit {0})
        (if b then err e else ok tt)
columns_decided true e = rejects (λ (h, _). cc)
columns_decided false e = accepts (refl, refl) tt

validate_page_config-Decides :
    (fi_name key : String) (type : PageType) (crd : Option CrdTablePageSpec)
    (iframe : Option IframePageSpec)
    → Decides
        (IsConfigured type crd iframe)
        (λ _. Unit)
        (validate_page_config fi_name key type crd iframe)
unfolding validate_page_config
validate_page_config-Decides fi key PageType.iframe crd none = rejects (λ (a, b). b)
validate_page_config-Decides fi key PageType.iframe (some c) (some i) = rejects (λ (a, b). cc)
validate_page_config-Decides fi key PageType.iframe none (some i) = accepts (refl, tt) tt
validate_page_config-Decides fi key PageType.crd_table none iframe = rejects (λ (a, b). a)
validate_page_config-Decides fi key PageType.crd_table (some c) (some i) = rejects (λ (a, b). cc)
validate_page_config-Decides fi key PageType.crd_table (some c) none =
    columns_decided (is_empty c.columns) _

validate_page_shape-Decides :
    (fi_name : String) (p : FrontendPageSpec)
    → Decides
        ((no_placements p.placements ≡ false) × IsConfigured p.type p.crd_table p.iframe)
        (λ _. Unit)
        (validate_page_shape fi_name p)
unfolding validate_page_shape
validate_page_shape-Decides fi p =
    unless (no_placements p.placements) _
      (validate_page_config-Decides fi p.key p.type p.crd_table p.iframe)

-- No page comes whose key is there already.
abbrev FreshKeys : BTreeMap FrontendPageSpec → List FrontendPageSpec → Type 0
FreshKeys pages [] = Unit
FreshKeys pages (p ∷ ps) = (get pages p.key ≡ none) × FreshKeys (insert p.key p pages) ps

abbrev insert_all : List FrontendPageSpec → BTreeMap FrontendPageSpec → BTreeMap FrontendPageSpec
insert_all [] pages = pages
insert_all (p ∷ ps) pages = insert_all ps (insert p.key p pages)

abbrev pub referenced_pages : List String → List FrontendPageSpec → List FrontendPageSpec
referenced_pages keys ps = retain (λ (p : FrontendPageSpec). contains_text keys p.key) ps

free : (o : Option FrontendPageSpec) → (is_bound o ≡ false) ↔ (o ≡ none)
unfolding is_bound
free none = ground arith
free (some p) = ground arith

insert_pages-Decides :
    (fi_name : String) (keys : List String) (ps : List FrontendPageSpec)
    (pages : BTreeMap FrontendPageSpec)
    → Decides
        (All IsPage (referenced_pages keys ps) × FreshKeys pages (referenced_pages keys ps))
        (λ result. result ≡ insert_all (referenced_pages keys ps) pages)
        (insert_pages fi_name keys ps pages)
unfolding insert_pages
insert_pages-Decides fi keys [] pages = accepts (tt, tt) refl
insert_pages-Decides fi keys (p ∷ ps) pages = elim (Bool-cases (contains_text keys p.key)) [
  | inl e ↦ rw e (
      of_iff (λ (k, ((s, c), (f, (a, fs)))). (((k, s, c), a), ((free _).0 f, fs)))
        (λ (((k, s, c), a), (f, fs)). (k, ((s, c), ((free _).1 f, (a, fs)))))
        (validate_key-Decides fi p.key false ⟫> λ _. validate_page_shape-Decides fi p ⟫> λ _.
          unless (is_bound (get pages p.key)) _
            (insert_pages-Decides fi keys ps (insert p.key p pages))))
  | inr e ↦ rw e (insert_pages-Decides fi keys ps pages)
]

fresh_head :
    (x key : String) (p : FrontendPageSpec) (pages : BTreeMap FrontendPageSpec)
    → (get (insert x p pages) key ≡ none) ↔ ((get pages key ≡ none) × (key ≢ x))
fresh_head x key p pages = rw (get-insert x key p pages) (
  λ h. (ground (arith, h), λ e. ground (arith, h, e, (==_iff x key).1 (sym e))),
  λ (h, n). elim (Bool-cases (x == key)) [
    | inl e ↦ absurd (n (sym ((==_iff x key).0 e)))
    | inr e ↦ rw e h
  ],
)

fresh_for :
    (x : String) (p : FrontendPageSpec) (pages : BTreeMap FrontendPageSpec)
    (ps : List FrontendPageSpec)
    → All (λ (q : FrontendPageSpec). get (insert x p pages) q.key ≡ none) ps ↔ (
        All (λ (q : FrontendPageSpec). get pages q.key ≡ none) ps
        × All (λ k. k ≢ x) (map (λ (q : FrontendPageSpec). q.key) ps))
fresh_for x p pages [] = (λ h. (tt, tt), λ h. tt)
fresh_for x p pages (q ∷ qs) = (
  λ (h, hs).
      let (a, n) = (fresh_head x q.key p pages).0 h in
      let (as', ns) = (fresh_for x p pages qs).0 hs in ((a, as'), (n, ns)),
  λ ((a, as'), (n, ns)).
      ((fresh_head x q.key p pages).1 (a, n), (fresh_for x p pages qs).1 (as', ns)),
)

FreshKeys-iff :
    (pages : BTreeMap FrontendPageSpec) (ps : List FrontendPageSpec)
    → FreshKeys pages ps ↔ (
        All (λ (q : FrontendPageSpec). get pages q.key ≡ none) ps
        × IsDistinct (map (λ (q : FrontendPageSpec). q.key) ps))
FreshKeys-iff pages [] = (λ h. (tt, tt), λ h. tt)
FreshKeys-iff pages (p ∷ ps) = (
  λ (h, hs).
      let (a, d) = (FreshKeys-iff (insert p.key p pages) ps).0 hs in
      let (b, n) = (fresh_for p.key p pages ps).0 a in ((h, b), (n, d)),
  λ ((h, a), (n, d)).
      (h, (FreshKeys-iff (insert p.key p pages) ps).1 ((fresh_for p.key p pages ps).1 (a, n), d)),
)

all_absent :
    (ps : List FrontendPageSpec)
    → All (λ (q : FrontendPageSpec). get {V = FrontendPageSpec} [] q.key ≡ none) ps
unfolding get
all_absent [] = tt
all_absent (p ∷ ps) = (refl, all_absent ps)

or_page : Option FrontendPageSpec → Option FrontendPageSpec → Option FrontendPageSpec
or_page none o = o
or_page (some p) o = some p

-- The page of a key.
abbrev pub page_of : List FrontendPageSpec → String → Option FrontendPageSpec
page_of ps key = find (λ (p : FrontendPageSpec). p.key == key) ps

or_page-none : (o : Option FrontendPageSpec) → o ≡ or_page o none
unfolding or_page
or_page-none none = refl
or_page-none (some p) = refl

shifted :
    (b : Bool) (p : FrontendPageSpec) (o r : Option FrontendPageSpec)
    → (b ≡ true → o ≡ none)
    → or_page (if b then some p else o) r ≡ or_page o (if b then some p else r)
unfolding or_page
shifted true p o r h = rw (h refl) refl
shifted false p o r h = refl

get-insert_all :
    (ps : List FrontendPageSpec) (pages : BTreeMap FrontendPageSpec) (key : String)
    → FreshKeys pages ps
    → get (insert_all ps pages) key ≡ or_page (get pages key) (page_of ps key)
get-insert_all [] pages key h = or_page-none (get pages key)
get-insert_all (p ∷ ps) pages key (h, hs) =
    get-insert_all ps (insert p.key p pages) key hs
    ∙ (ap (λ o. or_page o (page_of ps key)) (get-insert p.key key p pages)
        ∙ shifted (p.key == key) p (get pages key) (page_of ps key)
            (λ e. rw (← (==_iff p.key key).0 e) h))

-- resolve_pages succeeds exactly where the pages that menus refer to are pages, and no two of them
-- have one key; a key then gets the page that has it.
pub resolve_pages-Decides :
    (spec : FrontendRenderInput) (fi_name : String) (keys : List String)
    → Decides
        (All IsPage (referenced_pages keys spec.pages)
          × IsDistinct (map (λ (p : FrontendPageSpec). p.key) (referenced_pages keys spec.pages)))
        (λ pages. (key : String) → get pages key ≡ page_of (referenced_pages keys spec.pages) key)
        (resolve_pages spec fi_name keys)
unfolding resolve_pages or_page get
resolve_pages-Decides spec fi keys =
    let ps = referenced_pages keys spec.pages in
    of_iff (λ (a, f). (a, ((FreshKeys-iff [] ps).0 f).1))
      (λ (a, d). (a, (FreshKeys-iff [] ps).1 (all_absent ps, d)))
      (weaken_by (λ m (a, f) e key. ap (λ r. get r key) e ∙ get-insert_all ps [] key f)
        (insert_pages-Decides fi keys spec.pages []))
