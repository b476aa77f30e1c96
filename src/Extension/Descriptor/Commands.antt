-- ===== src/Extension/Descriptor/Commands.antt =====
-- What the commands of a capability that could be loaded are.
use mathlib.Core.List.{Memᴰ}
use musts.Base.{
  ◌≡◌, refl, ap, sym, ◌∙◌, subst, false, ◌⊎◌, inl, inr, Option, none, List, [], ◌∷◌, Bool-cases,
  Option-cases, arith,
}
use musts.Base.Order.{nat_ord, list_ord}
use musts.Base.Text.{Text, text}
use musts.Base.Lists.{is_empty, contains, find, All}
use musts.Base.Map.{BTreeMap}
use musts.Base.Result.{ok, Result-cases}
use musts.Json.{Json}
use musts.Extension.{Command, Capability}
use musts.Extension.Descriptor.{
  RawCommand, RawCapability, DescriptorLibraries, problem, argv_is_empty, parsed_to_empty,
  forbidden, reject_shell_metacharacters, not_empty, split_result, parse_command, key_problem,
  load_schema, load_capability,
}

-- where the arguments of a command come from
abbrev pub IsFrom : (Text → Text ⊎ List Text) → RawCommand → Command → Type 0
IsFrom split (RawCommand.argv items) command = items ≡ command
IsFrom split (RawCommand.string s) command =
    All (λ c. contains c forbidden ≡ false) s × (split s ≡ inr command)

-- The command has a program, and its arguments are the array of the raw command, or its text, without
-- shell metacharacters, split.
abbrev pub IsCommand : (Text → Text ⊎ List Text) → RawCommand → Command → Type 0
IsCommand split raw command = (is_empty command ≡ false) × IsFrom split raw command

none-forbidden :
    (s : Text)
    → find (λ c. contains c forbidden) s ≡ none
    → All (λ c. contains c forbidden ≡ false) s
unfolding find
none-forbidden [] h = tt
none-forbidden (c ∷ s) h = elim (Bool-cases (contains c forbidden)) [
  | inl e ↦ ground (arith, e, h)
  | inr e ↦ (e, none-forbidden s (ground (arith, e, h)))
]

not_empty_lem :
    (path message : Text) (items : List Text) (command : Command)
    → not_empty path message items ≡ ok command
    → (items ≡ command) × (is_empty command ≡ false)
unfolding not_empty problem
not_empty_lem path message [] command h = absurd (ground (arith, h))
not_empty_lem path message (program ∷ args) command h =
    let same : Path (List Text) (program ∷ args) command = ground (arith, h) in
    (same, ap is_empty (sym same))

pub Sum-cases {ℓ κ} :
    {A : Type ℓ} {B : Type κ} (x : A ⊎ B) → ((a : A) × (x ≡ inl a)) ⊎ ((b : B) × (x ≡ inr b))
Sum-cases (inl a) = inl (a, refl)
Sum-cases (inr b) = inr (b, refl)

parse_command-IsCommand :
    (path : Text) (split : Text → Text ⊎ List Text) (capability kind : Text) (raw : RawCommand)
    (command : Command)
    → parse_command path split capability kind raw ≡ ok command
    → IsCommand split raw command
unfolding parse_command reject_shell_metacharacters split_result problem
parse_command-IsCommand path split capability kind (RawCommand.argv items) command h =
    let (same, full) = not_empty_lem path (argv_is_empty capability kind) items command h in
    (full, same)
parse_command-IsCommand path split capability kind (RawCommand.string s) command h =
    elim (Option-cases (find (λ c. contains c forbidden) s)) [
      | inr (c, e) ↦ absurd (ground (arith, e, h))
      | inl e ↦ elim (Sum-cases (split s)) [
        | inl (error, f) ↦ absurd (ground (arith, e, f, h))
        | inr (args, f) ↦
            let (same, full) =
              not_empty_lem path (parsed_to_empty capability kind) args command
                (ground (arith, e, f, h)) in
            (full, (none-forbidden s e, f ∙ ap inr same))
      ]
    ]

module _ (libraries : DescriptorLibraries) where
  -- A capability under its key is one that the descriptor declares under the key, with its commands.
  abbrev pub IsUsable : BTreeMap Text RawCapability → Text × Capability → Type 0
  IsUsable raws e =
      (is_empty e.0 ≡ false)
      × (raw : RawCapability) × Memᴰ (e.0, raw) raws
      × (e.1.uses ≡ raw.uses)
      × IsCommand libraries.split raw.resolve e.1.resolve
      × IsCommand libraries.split raw.evidence e.1.evidence

  pub load_capability-IsUsable :
      (path root local : Text) (raw : RawCapability) (raws : BTreeMap Text RawCapability)
      (capability : Capability)
      → Memᴰ (local, raw) raws
      → load_capability libraries path root local raw ≡ ok capability
      → IsUsable raws (local, capability)
  unfolding load_capability key_problem problem
  load_capability-IsUsable path root [] raw raws capability m h = absurd (ground (arith, h))
  load_capability-IsUsable path root (c ∷ local) raw raws capability m h =
      elim (Result-cases
        (parse_command path libraries.split (c ∷ local) (text "resolve") raw.resolve)) [
          | inr (x, e) ↦ absurd (ground (arith, e, h))
          | inl (resolve, e) ↦
              elim (Result-cases
                (parse_command path libraries.split (c ∷ local) (text "evidence") raw.evidence)) [
                  | inr (x, f) ↦ absurd (ground (arith, e, f, h))
                  | inl (evidence, f) ↦
                      elim (Result-cases (load_schema libraries path root raw.schema)) [
                        | inr (x, g) ↦ absurd (ground (arith, e, f, g, h))
                        | inl (schema, g) ↦
                            let same : built schema resolve evidence ≡ capability =
                              ground (arith, e, f, g, h) in
                            subst (λ (k : Capability). IsUsable raws (c ∷ local, k)) same
                              (
                                refl,
                                raw,
                                m,
                                refl,
                                parse_command-IsCommand path libraries.split (c ∷ local)
                                    (text "resolve") raw.resolve resolve e,
                                parse_command-IsCommand path libraries.split (c ∷ local)
                                    (text "evidence") raw.evidence evidence f,
                              )
                      ]
                ]
        ]
    where
      built : Option Json → Command → Command → Capability
      built schema resolve evidence = record {
        uses = raw.uses;
        schema = schema;
        resolve = resolve;
        evidence = evidence;
      }
