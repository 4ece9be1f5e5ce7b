-- ===== src/Manifest/Pages.antt =====
-- The page of an iframe, and the page of a table (crates/manifest/src/v1/pages.rs).
use kube_frontend_forge_cont.Common.{
  true, false, String, Option, none, some, List, [], ◌∷◌, ◌++◌, ◌&◌,
}
use kube_frontend_forge_cont.Api.Spec.{
  MenuPlacement, workspace, CrdScope, CrdTablePageSpec, ColumnSpec,
}
use kube_frontend_forge_cont.Manifest.Json.{Value, bool, string, Map, obj, arr}
use kube_frontend_forge_cont.Manifest.Columns.{insert_text, transform_columns}

unfoldable pub page_meta : String → String → Value
page_meta page_id title = obj (
    ("id", string page_id)
    ∷ ("name", string page_id)
    ∷ ("title", string title)
    ∷ ("path", string ("/" & page_id))
    ∷ [])

unfoldable pub iframe_page : String → String → String → Value
iframe_page page_id display_name frame_src = obj (
    ("id", string page_id)
    ∷ ("entryComponent", string page_id)
    ∷ (
      "componentsTree",
      obj (
          ("meta", page_meta page_id display_name)
          ∷ ("context", obj [])
          ∷ (
            "root",
            obj (
                ("id", string (page_id & "-root"))
                ∷ ("type", string "Iframe")
                ∷ ("props", obj (("FRAME_URL", string frame_src) ∷ []))
                ∷ ("meta", obj (("title", string "Iframe") ∷ ("scope", bool true) ∷ []))
                ∷ []),
          )
          ∷ []),
    )
    ∷ [])

unfoldable pub namespace_entry : CrdScope → Map
namespace_entry CrdScope.namespaced = ("namespace", string "") ∷ []
namespace_entry CrdScope.cluster = []

unfoldable pub crd_create_initial_value : CrdTablePageSpec → Value
crd_create_initial_value crd = obj (
    (insert_text "kind" crd.names.kind
      (("apiVersion", string (crd.group & "/" & crd.version)) ∷ []))
    ++ ((
      "metadata",
      obj (
          (("name", string "") ∷ ("labels", obj []) ∷ ("annotations", obj []) ∷ [])
          ++ namespace_entry crd.scope),
    )
        ∷ ("spec", obj [])
        ∷ []))

unfoldable pub crd_page_state_type : MenuPlacement → String
crd_page_state_type workspace = "workspace-crd-page-state"
crd_page_state_type _ = "crd-page-state"

unfoldable pub crd_page_scope : CrdScope → String
crd_page_scope CrdScope.namespaced = "namespace"
crd_page_scope CrdScope.cluster = "cluster"

unfoldable pub crd_page_config : CrdTablePageSpec → Value
crd_page_config crd = obj (
    insert_text "kind" crd.names.kind (
      ("apiVersion", string crd.version)
      ∷ ("plural", string crd.names.plural)
      ∷ ("group", string crd.group)
      ∷ ("kapi", bool true)
      ∷ []))

-- A workspace's table is limited to clusters that have the module; another has a scope.
unfoldable pub state_limits : MenuPlacement → Option String → CrdTablePageSpec → Map
state_limits workspace module_name crd = insert_text "CLUSTER_MODULE" module_name []
state_limits _ module_name crd = ("SCOPE", string (crd_page_scope crd.scope)) ∷ []

unfoldable pub crd_page_state_config :
    String → MenuPlacement → Option String → CrdTablePageSpec → Value
crd_page_state_config page_id placement module_name crd = obj (
    (("PAGE_ID", string page_id) ∷ ("CRD_CONFIG", crd_page_config crd) ∷ [])
    ++ (state_limits placement module_name crd ++ (("HOOK_NAME", string "useCrdPageState") ∷ [])))

unfoldable pub binding : String → String → Value
binding source bind =
    obj (("type", string "binding") ∷ ("source", string source) ∷ ("bind", string bind) ∷ [])

or_blank : Option String → String
or_blank none = ""
or_blank (some s) = s

unfoldable pub crd_page :
    String → String → MenuPlacement → Option String → CrdTablePageSpec → List ColumnSpec → Value
unfolding or_blank
crd_page page_id display_name placement module_name crd columns = obj (
    ("id", string page_id)
    ∷ ("entryComponent", string page_id)
    ∷ (
      "componentsTree",
      obj (
          ("meta", page_meta page_id display_name)
          ∷ ("context", obj [])
          ∷ (
            "dataSources",
            arr (
                obj (
                  ("id", string "columns")
                  ∷ ("type", string "crd-columns")
                  ∷ (
                    "config",
                    obj (
                        ("COLUMNS_CONFIG", arr (transform_columns columns))
                        ∷ ("HOOK_NAME", string "useCrdColumns")
                        ∷ []),
                  )
                  ∷ [])
                ∷ obj (
                    ("id", string "pageState")
                    ∷ ("type", string (crd_page_state_type placement))
                    ∷ ("args", arr (binding "columns" "columns" ∷ []))
                    ∷ ("config", crd_page_state_config page_id placement module_name crd)
                    ∷ [])
                ∷ []),
          )
          ∷ (
            "root",
            obj (
                ("id", string (page_id & "-root"))
                ∷ ("type", string "CrdTable")
                ∷ (
                  "props",
                  obj (
                      ("TABLE_KEY", string page_id)
                      ∷ ("TITLE", string display_name)
                      ∷ ("PARAMS", binding "pageState" "params")
                      ∷ ("REFETCH", binding "pageState" "refetch")
                      ∷ ("TOOLBAR_LEFT", binding "pageState" "toolbarLeft")
                      ∷ ("PAGE_CONTEXT", binding "pageState" "pageContext")
                      ∷ ("COLUMNS", binding "columns" "columns")
                      ∷ ("DATA", binding "pageState" "data")
                      ∷ (
                        "IS_LOADING",
                        obj (
                            ("type", string "binding")
                            ∷ ("source", string "pageState")
                            ∷ ("bind", string "loading")
                            ∷ ("defaultValue", bool false)
                            ∷ []),
                      )
                      ∷ ("UPDATE", binding "pageState" "update")
                      ∷ ("DEL", binding "pageState" "del")
                      ∷ ("CREATE", binding "pageState" "create")
                      ∷ ("CREATE_INITIAL_VALUE", crd_create_initial_value crd)
                      ∷ ("AUTH_KEY", string (or_blank crd.auth_key))
                      ∷ []),
                )
                ∷ ("meta", obj (("title", string "CrdTable") ∷ ("scope", bool true) ∷ []))
                ∷ []),
          )
          ∷ []),
    )
    ∷ [])
