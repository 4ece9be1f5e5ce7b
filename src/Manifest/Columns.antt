-- ===== src/Manifest/Columns.antt =====
-- The columns of a table page (crates/manifest/src/v1/columns.rs).
use kube_frontend_forge_cont.Common.{
  Bool, String, Option, none, some, List, [], ◌∷◌, BTreeMap, insert, map,
}
use kube_frontend_forge_cont.Api.Spec.{ColumnRenderType, ColumnRenderSpec, ColumnSpec}
use kube_frontend_forge_cont.Manifest.Json.{Value, bool, string, raw, Map, obj}

unfoldable pub render_type_str : ColumnRenderType → String
render_type_str ColumnRenderType.text = "text"
render_type_str ColumnRenderType.time = "time"
render_type_str ColumnRenderType.link = "link"

raw_entries : BTreeMap String → Map
raw_entries [] = []
raw_entries ((k, v) ∷ m) = (k, raw v) ∷ raw_entries m

unfoldable pub payload_object : Option (BTreeMap String) → Map
unfolding raw_entries
payload_object none = []
payload_object (some payload) = raw_entries payload

-- `if let Some(text) = text { map.insert(key, json!(text)) }`
unfoldable pub insert_text : String → Option String → Map → Map
insert_text key none m = m
insert_text key (some text) m = insert key (string text) m

unfoldable pub insert_bool : String → Option Bool → Map → Map
insert_bool key none m = m
insert_bool key (some b) m = insert key (bool b) m

unfoldable pub column_payload : ColumnRenderSpec → Map
column_payload render = insert_text "link" render.link (
    insert_text "pattern" render.pattern_text
      (insert_text "format" render.format (payload_object render.payload)))

unfoldable pub transform_column : ColumnSpec → Value
transform_column col = obj (
    insert_bool "enableHiding" col.enable_hiding (
      insert_bool "enableSorting" col.enable_sorting (
        ("key", string col.key)
        ∷ ("title", string col.title)
        ∷ (
          "render",
          obj (
              ("type", string (render_type_str col.render.type))
              ∷ ("path", string col.render.path)
              ∷ ("payload", obj (column_payload col.render))
              ∷ []),
        )
        ∷ [])))

unfoldable pub transform_columns : List ColumnSpec → List Value
transform_columns columns = map transform_column columns
