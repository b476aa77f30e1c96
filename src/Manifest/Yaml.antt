-- ===== src/Manifest/Yaml.antt =====
-- `serde_yaml::Value`, and its conversion to JSON.
use musts.Base.{Bool, Option, none, some, ◌⊎◌, inl, inr}
use Prim.Native.Nat.Ordering.{lt, eq, gt}
use musts.Base.Order.{nat_ord, list_ord}
use musts.Base.Text.{Text}
use musts.Json.{Json, Items, Fields}

-- A number, by what its accessors return: the printed form, or for a float that is not finite no form.
pub record Number : Type 0 where
  pub as_i64 : Option Text
  pub as_u64 : Option Text
  pub as_f64 : Option (Option Text)

mutual
  pub data Yaml : Type 0 where
    null : Yaml
    boolean : Bool → Yaml
    number : Number → Yaml
    string : Text → Yaml
    sequence : Values → Yaml
    mapping : Mapping → Yaml
    tagged : Text → Yaml → Yaml

  pub data Values : Type 0 where
    nil : Values
    cons : Yaml → Values → Values

  pub data Mapping : Type 0 where
    end : Mapping
    entry : Yaml → Yaml → Mapping → Mapping

unfoldable pub as_str : Yaml → Option Text
as_str (Yaml.string s) = some s
as_str _ = none

-- the messages of `yaml_to_json`
pub data YamlProblem : Type 0 where
  non_finite unsupported_number key_not_string : YamlProblem

unfoldable pub number_to_json : Number → YamlProblem ⊎ Json
number_to_json n = elim n.as_i64 [
  | some i ↦ inr (Json.number i)
  | none ↦ elim n.as_u64 [
    | some u ↦ inr (Json.number u)
    | none ↦ elim n.as_f64 [
      | some (some f) ↦ inr (Json.number f)
      | some none ↦ inl YamlProblem.non_finite
      | none ↦ inl YamlProblem.unsupported_number
    ]
  ]
]

-- `map.insert(key, value)` of `serde_json::Map`, which keeps its keys in order
unfoldable pub insert_field : Text → Json → Fields → Fields
unfolding list_ord
insert_field k v Fields.end = Fields.field k v Fields.end
insert_field k v (Fields.field j w fs) = elim (list_ord.cmp k j) [
  | lt ↦ Fields.field k v (Fields.field j w fs)
  | eq ↦ Fields.field k v fs
  | gt ↦ Fields.field j w (insert_field k v fs)
]

unfoldable mutual
  unfolding number_to_json as_str insert_field

  pub yaml_to_json : Yaml → YamlProblem ⊎ Json
  yaml_to_json Yaml.null = inr Json.null
  yaml_to_json (Yaml.boolean b) = inr (Json.boolean b)
  yaml_to_json (Yaml.number n) = number_to_json n
  yaml_to_json (Yaml.string s) = inr (Json.string s)
  yaml_to_json (Yaml.sequence items) = elim (items_to_json items) [
    | inl e ↦ inl e
    | inr js ↦ inr (Json.array js)
  ]
  yaml_to_json (Yaml.mapping map) = elim (fields_to_json Fields.end map) [
    | inl e ↦ inl e
    | inr fs ↦ inr (Json.object fs)
  ]
  yaml_to_json (Yaml.tagged tag value) = yaml_to_json value

  pub items_to_json : Values → YamlProblem ⊎ Items
  items_to_json Values.nil = inr Items.nil
  items_to_json (Values.cons v vs) = elim (yaml_to_json v) [
    | inl e ↦ inl e
    | inr j ↦ elim (items_to_json vs) [ inl e ↦ inl e | inr js ↦ inr (Items.cons j js) ]
  ]

  -- the loop over the entries, with the object `out`
  pub fields_to_json : Fields → Mapping → YamlProblem ⊎ Fields
  fields_to_json out Mapping.end = inr out
  fields_to_json out (Mapping.entry k v m) = elim (as_str k) [
    | none ↦ inl YamlProblem.key_not_string
    | some key ↦ elim (yaml_to_json v) [
      | inl e ↦ inl e
      | inr j ↦ fields_to_json (insert_field key j out) m
    ]
  ]
