-- ===== src/Json.antt =====
-- `serde_json::Value`. A number is kept as its printed form; the entries of an object stand in the
-- order in which the map iterates.
use musts.Base.{Bool, Option, none, some, List, [], ◌∷◌, if◌then◌else◌}
use musts.Base.Order.{◌==◌, nat_ord, list_ord}
use musts.Base.Text.{Text}

mutual
  pub data Json : Type 0 where
    null : Json
    boolean : Bool → Json
    number : Text → Json
    string : Text → Json
    array : Items → Json
    object : Fields → Json

  pub data Items : Type 0 where
    nil : Items
    cons : Json → Items → Items

  pub data Fields : Type 0 where
    end : Fields
    field : Text → Json → Fields → Fields

unfoldable pub field_in : Text → Fields → Option Json
field_in key Fields.end = none
field_in key (Fields.field k v fs) = if k == key then some v else field_in key fs

-- `value.get(key)`
unfoldable pub get : Text → Json → Option Json
unfolding field_in
get key (Json.object fields) = field_in key fields
get key _ = none

-- `value[key]`, which is `Null` where there is no such field
unfoldable pub at : Text → Json → Json
unfolding get
at key value = elim (get key value) [ none ↦ Json.null | some v ↦ v ]

unfoldable pub as_str : Json → Option Text
as_str (Json.string t) = some t
as_str _ = none

unfoldable pub as_bool : Json → Option Bool
as_bool (Json.boolean b) = some b
as_bool _ = none

unfoldable pub as_array : Json → Option Items
as_array (Json.array items) = some items
as_array _ = none

-- `as_object().and_then(|o| o.iter().next())`
unfoldable pub first_field : Json → Option (Text × Json)
first_field (Json.object (Fields.field k v fs)) = some (k, v)
first_field _ = none

-- `items.iter().filter_map(Value::as_str).collect()`
unfoldable pub strings_in : Items → List Text
strings_in Items.nil = []
strings_in (Items.cons (Json.string t) vs) = t ∷ strings_in vs
strings_in (Items.cons _ vs) = strings_in vs

-- `value.as_str().unwrap_or(default)`
unfoldable pub str_or : Text → Option Json → Text
unfolding as_str
str_or default none = default
str_or default (some v) = elim (as_str v) [ none ↦ default | some t ↦ t ]
