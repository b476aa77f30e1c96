-- ===== src/Validate/Declaration.antt =====
-- What a scope hash takes from the declaration of a check and from the extension that implements it.
pub mod Order
use musts.Base.{ℕ, Bool, true, false, Option, none, some, List, [], ◌∷◌, ◌++◌, map}
use musts.Base.Order.{nat_ord, pair_ord, list_ord}
use musts.Base.Text.{Text, text, join}
use musts.Base.Map.{BTreeMap, insert, get}
use musts.Json
use musts.Json.{Json, Items, Fields}
use musts.Snapshot.{sort, field_bytes, fields_bytes}
use musts.Extension.{Capability, ExtensionDescriptor}
use musts.Validate.Scope.{Check}

-- `CapabilityIndex`: the extension of a capability, and its entry for it
abbrev pub CapabilityIndex : Type 0
CapabilityIndex = BTreeMap Text (ExtensionDescriptor × Capability)

unfoldable pub index_capabilities :
    ExtensionDescriptor → BTreeMap Text Capability → CapabilityIndex → CapabilityIndex
unfolding insert
index_capabilities d [] idx = idx
index_capabilities d ((_, cap) ∷ caps) idx =
    index_capabilities d caps (insert cap.uses (d, cap) idx)

unfoldable pub index_from : List ExtensionDescriptor → CapabilityIndex → CapabilityIndex
unfolding index_capabilities
index_from [] idx = idx
index_from (d ∷ ds) idx = index_from ds (index_capabilities d d.capabilities idx)

unfoldable pub build_capability_index : List ExtensionDescriptor → CapabilityIndex
unfolding index_from
build_capability_index descriptors = index_from descriptors []

-- What is printed of values: `{:?}` of a `str`, and `serde_json`'s string literal.
pub record Printer : Type 0 where
  pub debug : Text → Text
  pub literal : Text → Text

module _ (printer : Printer) where
  -- `write_canonical`: the fields are printed one by one, sorted by their keys, which differ
  unfoldable mutual
    pub canonical_json : Json → Text
    canonical_json Json.null = 110 ∷ 117 ∷ 108 ∷ 108 ∷ []
    canonical_json (Json.boolean true) = 116 ∷ 114 ∷ 117 ∷ 101 ∷ []
    canonical_json (Json.boolean false) = 102 ∷ 97 ∷ 108 ∷ 115 ∷ 101 ∷ []
    canonical_json (Json.number n) = n
    canonical_json (Json.string s) = printer.literal s
    canonical_json (Json.array items) = 91 ∷ join (44 ∷ []) (canonical_items items) ++ 93 ∷ []
    canonical_json (Json.object fields) =
        123 ∷ join (44 ∷ []) (map (λ f. f.1) (sort (canonical_fields fields))) ++ 125 ∷ []

    pub canonical_items : Items → List Text
    canonical_items Items.nil = []
    canonical_items (Items.cons v vs) = canonical_json v ∷ canonical_items vs

    pub canonical_fields : Fields → List (Text × Text)
    canonical_fields Fields.end = []
    canonical_fields (Fields.field k v fs) =
        (k, printer.debug k ++ 58 ∷ canonical_json v) ∷ canonical_fields fs

  unfoldable pub declaration_bytes : Check → Text
  declaration_bytes check =
      fields_bytes (check.local_id ∷ check.uses ∷ canonical_json check.with_payload ∷ [])
      ++ fields_bytes check.paths
      ++ 1 ∷ fields_bytes check.exclude_paths
      ++ 1 ∷ []

  unfoldable pub check_declaration_hash : (Text → Text) → Check → Text
  check_declaration_hash digest check = digest (declaration_bytes check)

descriptor_bytes_of : Option (ExtensionDescriptor × Capability) → Text
unfolding text
descriptor_bytes_of none = text "builtin"
descriptor_bytes_of (some (d, _)) = d.name ++ 0 ∷ d.descriptor_bytes

unfoldable pub capability_descriptor_hash : (Text → Text) → Text → CapabilityIndex → Text
unfolding descriptor_bytes_of get
capability_descriptor_hash digest capability index =
    digest (descriptor_bytes_of (get capability index))
