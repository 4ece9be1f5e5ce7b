-- ===== src/Manifest/Json.antt =====
-- `serde_json::Value` as far as the renderer builds one.
use kube_frontend_forge_cont.Common.{
  ℕ, Bool, String, Option, none, List, [], ◌∷◌, BTreeMap, insert, get,
}

-- `raw` is a value that the user gives, kept as its text.
mutual
  pub data Value : Type 0 where
    null : Value
    bool : Bool → Value
    number : ℕ → Value
    string : String → Value
    raw : String → Value
    array : Values → Value
    object : Fields → Value

  pub data Values : Type 0 where
    nil : Values
    cons : Value → Values → Values

  pub data Fields : Type 0 where
    end : Fields
    field : String → Value → Fields → Fields

-- `serde_json::Map`
abbrev pub Map : Type 0
Map = BTreeMap Value

abbrev pub values : List Value → Values
values [] = nil
values (v ∷ vs) = cons v (values vs)

abbrev pub items : Values → List Value
items nil = []
items (cons v vs) = v ∷ items vs

abbrev pub fields : Map → Fields
fields [] = end
fields ((k, v) ∷ m) = field k v (fields m)

abbrev pub entries : Fields → Map
entries end = []
entries (field k v fs) = (k, v) ∷ entries fs

-- `Value::Array` and `Value::Object`
abbrev pub arr : List Value → Value
arr vs = array (values vs)

abbrev pub obj : Map → Value
obj m = object (fields m)

-- `value[key] = v`; only objects are written to.
unfoldable pub set_key : String → Value → Value → Value
set_key k v (object fs) = obj (insert k v (entries fs))
set_key k v null = obj ((k, v) ∷ [])
set_key k v other = other

-- `value.get(key)`
unfoldable pub get_key : String → Value → Option Value
get_key k (object fs) = get (entries fs) k
get_key k _ = none
