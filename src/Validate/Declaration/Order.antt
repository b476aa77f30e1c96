-- ===== src/Validate/Declaration/Order.antt =====
-- The order in which the author of a manifest writes the keys of a `with` payload does not matter.
use mathlib.Core.List.{Perm}
use mathlib.Core.List.Perm
use native.Mathlib.Decide.{ℕ_discrete}
use musts.Base.{◌≡◌, refl, ap, List, [], ◌∷◌, ◌++◌, map}
use musts.Base.Order.{nat_ord, pair_ord, list_ord}
use musts.Base.Text.{Text}
use musts.Json.{Json, Fields}
use musts.Snapshot.Sorting.{sort-perm}
use musts.Validate.Scope.{Check}
use musts.Validate.Declaration.{
  Printer, canonical_json, canonical_fields, declaration_bytes, check_declaration_hash,
}

-- an object with these entries, in this order
abbrev pub fields_of : List (Text × Json) → Fields
fields_of [] = Fields.end
fields_of ((k, v) ∷ fs) = Fields.field k v (fields_of fs)

pair_discrete : Discrete (Text × Text)
pair_discrete = hlevel ℕ_discrete

module _ (printer : Printer) where
  abbrev printed : Text × Json → Text × Text
  printed f = (f.0, printer.debug f.0 ++ 58 ∷ canonical_json printer f.1)

  canonical_fields-of :
      (fs : List (Text × Json)) → canonical_fields printer (fields_of fs) ≡ map printed fs
  unfolding canonical_json
  canonical_fields-of [] = refl
  canonical_fields-of ((k, v) ∷ fs) = ap (λ r. printed (k, v) ∷ r) (canonical_fields-of fs)

  -- Payloads that list the same entries in another order print alike, and so does every declaration
  -- with them: its hash stays.
  pub check_declaration_hash-perm :
      (digest : Text → Text) (check : Check) (fs gs : List (Text × Json))
      → Perm fs gs
      → check_declaration_hash printer digest
          (record check { with_payload = Json.object (fields_of fs) })
        ≡ check_declaration_hash printer digest
            (record check { with_payload = Json.object (fields_of gs) })
  unfolding check_declaration_hash declaration_bytes canonical_json
  check_declaration_hash-perm digest check fs gs p = rw (
    canonical_fields-of fs,
    canonical_fields-of gs,
    sort-perm pair_discrete (map printed fs) (map printed gs) (Perm.map printed p),
  )
