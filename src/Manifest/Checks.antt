-- ===== src/Manifest/Checks.antt =====
-- Keys and pages, checked before menus are bound to them (crates/manifest/src/v1/resolve.rs).
use kube_frontend_forge_cont.Common.{
  Char, Bool, true, false, not, ◌&&◌, ◌||◌, String, Option, none, some, List, [], ◌∷◌, ◌++◌,
  BTreeMap, get, insert, chars, ◌==◌, ◌&◌, is_empty, if◌then◌else◌,
}
use kube_frontend_forge_cont.Common.Distinct.{holds}
use kube_frontend_forge_cont.Api.Spec.{
  MenuPlacement, MenuNodeType, PageType, CrdTablePageSpec, IframePageSpec,
}
use kube_frontend_forge_cont.Api.Integration.{as_str}
use kube_frontend_forge_cont.Names.{is_lower, is_digit, is_dash}
use kube_frontend_forge_cont.Manifest.Error.{
  Result, ok, err, ◌>>◌, duplicate_page_key, invalid_menu_key, missing_crd_columns,
  invalid_page_shape,
}
use kube_frontend_forge_cont.Manifest.Input.{
  FrontendSecondaryMenuSpec, FrontendMenuSpec, FrontendPageSpec, FrontendRenderInput,
}

-- A `HashSet<(String, String)>`, and one of texts, of which only membership shows.
abbrev pub Pairs : Type 0
Pairs = List (String × String)

abbrev pub same_pair : String × String → String × String → Bool
same_pair (a, b) (c, d) = a == c && b == d

abbrev pub contains_pair : Pairs → String → String → Bool
contains_pair pairs a b = holds same_pair pairs (a, b)

abbrev pub same_text : String → String → Bool
same_text s t = s == t

abbrev pub contains_text : List String → String → Bool
contains_text texts s = holds same_text texts s

unfoldable pub starts_with_dash : List Char → Bool
starts_with_dash [] = false
starts_with_dash (c ∷ cs) = is_dash c

unfoldable pub ends_with_dash : List Char → Bool
ends_with_dash [] = false
ends_with_dash (c ∷ []) = is_dash c
ends_with_dash (c ∷ d ∷ cs) = ends_with_dash (d ∷ cs)

unfoldable pub all_key_chars : List Char → Bool
all_key_chars [] = true
all_key_chars (c ∷ cs) = (is_lower c || is_digit c || is_dash c) && all_key_chars cs

unfoldable pub is_valid_key : String → Bool
is_valid_key key =
    not (is_empty (chars key))
    && not (starts_with_dash (chars key))
    && not (ends_with_dash (chars key))
    && all_key_chars (chars key)

unfoldable pub validate_key : String → String → Bool → Result (Unit {0})
validate_key fi_name key is_menu_key =
    if is_valid_key key
    then ok tt
    else if is_menu_key
    then err (invalid_menu_key fi_name key)
    else err (invalid_page_shape fi_name key "page keys must be kebab-case route fragments")

unfoldable pub no_placements : Option (List MenuPlacement) → Bool
no_placements none = false
no_placements (some placements) = is_empty placements

-- The `match` on the page's type.
unfoldable pub validate_page_config :
    String → String → PageType → Option CrdTablePageSpec → Option IframePageSpec → Result (Unit {0})
validate_page_config fi_name key PageType.iframe crd_table none =
    err (invalid_page_shape fi_name key "type=iframe requires iframe config")
validate_page_config fi_name key PageType.iframe (some c) (some i) =
    err (invalid_page_shape fi_name key "type=iframe cannot define crdTable config")
validate_page_config fi_name key PageType.iframe none (some i) = ok tt
validate_page_config fi_name key PageType.crd_table none iframe =
    err (invalid_page_shape fi_name key "type=crdTable requires crdTable config")
validate_page_config fi_name key PageType.crd_table (some c) (some i) =
    err (invalid_page_shape fi_name key "type=crdTable cannot define iframe config")
validate_page_config fi_name key PageType.crd_table (some c) none =
    if is_empty c.columns then err (missing_crd_columns fi_name key) else ok tt

unfoldable pub validate_page_shape : String → FrontendPageSpec → Result (Unit {0})
validate_page_shape fi_name p =
    if no_placements p.placements
    then err (invalid_page_shape fi_name p.key "pages must define at least one placement")
    else validate_page_config fi_name p.key p.type p.crd_table p.iframe

unfoldable pub route_suffix_for_menu : String → String
route_suffix_for_menu key = key

unfoldable pub route_suffix_for_child : String → String → String
route_suffix_for_child parent_key child_key = parent_key & "/" & child_key

unfoldable pub page_id_suffix : String → String → Bool → String
page_id_suffix route_suffix page_key use_page_key = if use_page_key then page_key else route_suffix

-- Of v1/render.rs, used here first.
unfoldable pub menu_name_for_suffix : String → String → String → String
menu_name_for_suffix route_namespace fi_name suffix = route_namespace & "/" & fi_name & "/" & suffix

unfoldable pub nested_menu_parent : MenuPlacement → String → String
nested_menu_parent placement menu_name = as_str placement & "." & menu_name

unfoldable pub title_or : Option String → String → String
title_or none menu_display_name = menu_display_name
title_or (some title) menu_display_name = title

unfoldable pub page_title : FrontendPageSpec → String → String
page_title p menu_display_name = title_or p.display_name menu_display_name

unfoldable pub referenced_page_key : Option String → String → Bool → Option String
referenced_page_key (some page_key) menu_key require_page_key = some page_key
referenced_page_key none menu_key require_page_key =
    if require_page_key then none else some menu_key

unfoldable pub add_key : Option String → List String → List String
add_key none keys = keys
add_key (some key) keys = key ∷ keys

unfoldable pub child_page_keys : Bool → List FrontendSecondaryMenuSpec → List String
child_page_keys require_page_key [] = []
child_page_keys require_page_key (child ∷ children) =
    add_key (referenced_page_key child.page_key child.key require_page_key)
      (child_page_keys require_page_key children)

unfoldable pub menu_page_keys : Bool → MenuNodeType → FrontendMenuSpec → List String
menu_page_keys require_page_key MenuNodeType.page menu =
    add_key (referenced_page_key menu.page_key menu.key require_page_key) []
menu_page_keys require_page_key MenuNodeType.organization menu =
    child_page_keys require_page_key menu.children

unfoldable pub keys_of_menus : Bool → List FrontendMenuSpec → List String
keys_of_menus require_page_key [] = []
keys_of_menus require_page_key (menu ∷ menus) =
    menu_page_keys require_page_key menu.type menu ++ keys_of_menus require_page_key menus

unfoldable pub referenced_page_keys : FrontendRenderInput → List String
referenced_page_keys spec = keys_of_menus spec.require_page_key spec.menus

unfoldable pub is_bound : Option FrontendPageSpec → Bool
is_bound none = false
is_bound (some p) = true

-- The loop of `resolve_pages`, with the pages inserted so far.
unfoldable pub insert_pages :
    String
    → List String
    → List FrontendPageSpec
    → BTreeMap FrontendPageSpec
    → Result (BTreeMap FrontendPageSpec)
unfolding ◌>>◌ is_bound
insert_pages fi_name referenced [] pages = ok pages
insert_pages fi_name referenced (p ∷ ps) pages =
    let skip = insert_pages fi_name referenced ps pages in
    let more = insert_pages fi_name referenced ps (insert p.key p pages) in
    if contains_text referenced p.key
    then (validate_key fi_name p.key false
        >> (validate_page_shape fi_name p
            >> (if is_bound (get pages p.key)
                then err (duplicate_page_key fi_name p.key)
                else more)))
    else skip

unfoldable pub resolve_pages :
    FrontendRenderInput → String → List String → Result (BTreeMap FrontendPageSpec)
resolve_pages spec fi_name referenced = insert_pages fi_name referenced spec.pages []
