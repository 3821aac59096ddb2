-- ===== src/Proxy/Json.antt =====
-- Decoded JSON, as `encoding/json` fills an `interface{}`, with the code's type assertions and reads.
use prometheus_multi_tenant.Shared.{
  String, Bool, Option, none, some, List, [], ◌∷◌, if◌then◌else◌, str_eq,
}
use prometheus_multi_tenant.Shared.Float.{Float64}
use prometheus_multi_tenant.Shared.Map.{Map, insert}

-- A `[]interface{}` is a value with its successors, a `map[string]interface{}` its entries.
mutual
  pub data Json : Type 0 where
    null : Json
    boolean : Bool → Json
    number : Float64 → Json
    text : String → Json
    array : Items → Json
    object : Fields → Json

  pub data Items : Type 0 where
    end : Items
    item : Json → Items → Items

  pub data Fields : Type 0 where
    end_of : Fields
    field : String → Json → Fields → Fields

-- `m[key]`
unfoldable pub get : String → Fields → Option Json
get key end_of = none
get key (field k v rest) = if str_eq k key then some v else get key rest

unfoldable pub to_list : Items → List Json
to_list end = []
to_list (item v rest) = v ∷ to_list rest

unfoldable pub to_items : List Json → Items
to_items [] = end
to_items (v ∷ vs) = item v (to_items vs)

-- `v.(string)`, `v.([]interface{})` and `v.(map[string]interface{})`; the missing key is the nil
-- interface, which no assertion accepts.
abbrev pub as_text : Option Json → Option String
as_text (some (text s)) = some s
as_text _ = none

abbrev pub as_array : Option Json → Option (List Json)
as_array (some (array vs)) = some (to_list vs)
as_array _ = none

abbrev pub as_object : Option Json → Option Fields
as_object (some (object fields)) = some fields
as_object _ = none

-- `for key, value := range metric { if s, ok := value.(string); ok { labels[key] = s } }`
abbrev pub put_text : String → Option String → Map String → Map String
put_text key none labels = labels
put_text key (some s) labels = insert key s labels

unfoldable pub string_labels : Map String → Fields → Map String
string_labels labels end_of = labels
string_labels labels (field key value rest) =
    string_labels (put_text key (as_text (some value)) labels) rest
