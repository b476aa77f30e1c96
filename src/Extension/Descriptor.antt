-- ===== src/Extension/Descriptor.antt =====
-- crates/musts-core/src/extension/descriptor.rs: reading `extension.yml`, and the program of a command. The
-- libraries serde_yaml, serde_json and shell-words, and the reading of a file, are parameters.
pub mod Commands
pub mod Loaded
mod Examples
use Prim.Native.Nat.Ordering.{lt, eq, gt}
use musts.Base.{
  ℕ, Bool, true, false, not, ◌&&◌, ◌||◌, ◌⊎◌, inl, inr, Option, none, some, List, [], ◌∷◌, ◌++◌,
  if◌then◌else◌,
}
use musts.Base.Order.{nat_ord, list_ord}
use musts.Base.Text.{Text, text, starts_with, ends_with_byte}
use musts.Base.Lists.{is_empty, contains, find}
use musts.Base.Map.{BTreeMap, insert}
use musts.Base.Result.{Error, Result, ok, err, ◌>>=◌}
use musts.Json.{Json}
use musts.Extension.{Command, Capability, ExtensionDescriptor}

pub data RawCommand : Type 0 where
  argv : List Text → RawCommand
  string : Text → RawCommand

pub record RawCapability : Type 0 where
  pub uses : Text
  pub schema : Option Text
  pub resolve : RawCommand
  pub evidence : RawCommand

pub record RawDescriptor : Type 0 where
  pub name : Text
  pub version : Text
  pub capabilities : BTreeMap Text RawCapability

-- `root.join(path)`
unfoldable pub join_path : Text → Text → Text
unfolding starts_with text ends_with_byte
join_path root path =
    if starts_with (text "/") path
    then path
    else if is_empty root || ends_with_byte 47 root
    then root ++ path
    else root ++ 47 ∷ path

-- `Command::program_path`, of the program that `argv[0]` is
unfoldable pub program_path : Text → Text → Text
unfolding starts_with text contains join_path
program_path descriptor_root program =
    if starts_with (text "/") program
    then program
    else if not (is_empty program) && not (contains 47 program)
    then program
    else join_path descriptor_root program

-- `FORBIDDEN`
abbrev pub forbidden : List ℕ
forbidden = 124 ∷ 59 ∷ 38 ∷ 60 ∷ 62 ∷ 36 ∷ 96 ∷ []

unfoldable pub argv_is_empty : Text → Text → Text
unfolding text
argv_is_empty capability kind =
    text "capability `" ++ capability ++ text "` " ++ kind ++ text ".command argv is empty"

unfoldable pub parsed_to_empty : Text → Text → Text
unfolding text
parsed_to_empty capability kind =
    text "capability `"
    ++ capability
    ++ text "` "
    ++ kind
    ++ text ".command parsed to an empty argv"

module _ (path : Text) where
  unfoldable pub problem {ℓ} : {A : Type ℓ} → Text → Result A
  problem message = err (Error.extension_descriptor path message)

  unfoldable pub reject_shell_metacharacters : Text → Text → Text → Result (Unit {0})
  unfolding find contains problem text
  reject_shell_metacharacters capability kind s = elim (find (λ c. contains c forbidden) s) [
    | none ↦ ok tt
    | some ch ↦ problem (
        text "capability `"
        ++ capability
        ++ text "` "
        ++ kind
        ++ text ".command contains forbidden shell metacharacter `"
        ++ (ch ∷ [])
        ++ text "` "
        ++ (0xe2 ∷ 0x80 ∷ 0x94 ∷ [])
        ++ text " use the argv array form for intentional special characters")
  ]

  unfoldable pub not_empty : Text → List Text → Result Command
  unfolding problem
  not_empty message [] = problem message
  not_empty message (program ∷ args) = ok (program ∷ args)

  -- what `shell_words::split` gives: the words of an error, or the arguments
  unfoldable pub split_result : Text → Text → Text ⊎ List Text → Result (List Text)
  unfolding problem text
  split_result capability kind (inl error) = problem (
      text "capability `"
      ++ capability
      ++ text "` "
      ++ kind
      ++ text ".command failed shell-words parse: "
      ++ error)
  split_result capability kind (inr args) = ok args

  unfoldable pub parse_command :
      (Text → Text ⊎ List Text) → Text → Text → RawCommand → Result Command
  unfolding not_empty reject_shell_metacharacters split_result argv_is_empty parsed_to_empty
  parse_command split capability kind (RawCommand.argv items) =
      not_empty (argv_is_empty capability kind) items
  parse_command split capability kind (RawCommand.string s) =
      reject_shell_metacharacters capability kind s >>= λ checked.
      split_result capability kind (split s) >>= λ parsed.
      not_empty (parsed_to_empty capability kind) parsed

-- `std::fs::read`, `serde_json::from_slice`, `shell_words::split` and `serde_yaml::from_slice`
pub record DescriptorLibraries : Type 0 where
  pub read : Text → Option Text
  pub json_from_slice : Text → Text ⊎ Json
  pub split : Text → Text ⊎ List Text
  pub yaml_from_slice : Text → Text ⊎ RawDescriptor

-- `.map_err(|source| Error::Io { .. })`
abbrev pub or_io {ℓ} : {A : Type ℓ} → Option A → Result A
or_io none = err Error.io
or_io (some a) = ok a

module _ (libraries : DescriptorLibraries) (path root : Text) where
  unfoldable pub parsed_schema : Text → Text ⊎ Json → Result (Option Json)
  unfolding problem text
  parsed_schema schema_path (inl error) =
      problem path (text "schema at " ++ schema_path ++ text " is not valid JSON: " ++ error)
  parsed_schema schema_path (inr schema) = ok (some schema)

  unfoldable pub load_schema : Option Text → Result (Option Json)
  unfolding join_path parsed_schema
  load_schema none = ok none
  load_schema (some rel) = or_io (libraries.read (join_path root rel)) >>= λ bytes.
      parsed_schema (join_path root rel) (libraries.json_from_slice bytes)

  unfoldable pub key_problem : Text → Result (Unit {0})
  unfolding problem text
  key_problem [] = problem path (text "capability key must not be empty")
  key_problem (c ∷ local) = ok tt

  -- one turn of the loop
  unfoldable pub load_capability : Text → RawCapability → Result Capability
  unfolding key_problem parse_command load_schema text
  load_capability local raw = key_problem local >>= λ named.
      parse_command path libraries.split local (text "resolve") raw.resolve >>= λ resolve.
      parse_command path libraries.split local (text "evidence") raw.evidence >>= λ evidence.
      load_schema raw.schema >>= λ schema.
      ok (record { uses = raw.uses; schema = schema; resolve = resolve; evidence = evidence })

  unfoldable pub load_capabilities :
      BTreeMap Text RawCapability → BTreeMap Text Capability → Result (BTreeMap Text Capability)
  unfolding load_capability insert
  load_capabilities [] out = ok out
  load_capabilities ((local, raw) ∷ raws) out = load_capability local raw >>= λ capability.
      load_capabilities raws (insert local capability out)

-- what `serde_yaml::from_slice` gives
unfoldable pub parsed_descriptor : Text → Text ⊎ RawDescriptor → Result RawDescriptor
unfolding problem text
parsed_descriptor path (inl error) = problem path (text "invalid YAML: " ++ error)
parsed_descriptor path (inr raw) = ok raw

-- `path.parent()`
unfoldable pub parent_of : Text → Option Text → Result Text
unfolding problem text
parent_of path none = problem path (text "descriptor path has no parent directory")
parent_of path (some root) = ok root

unfoldable pub load_descriptor :
    DescriptorLibraries → Text → Option Text → Result ExtensionDescriptor
unfolding parsed_descriptor parent_of load_capabilities
load_descriptor libraries path parent = or_io (libraries.read path) >>= λ bytes.
    parsed_descriptor path (libraries.yaml_from_slice bytes) >>= λ raw.
    parent_of path parent >>= λ root.
    load_capabilities libraries path root raw.capabilities [] >>= λ capabilities. ok (record {
      root = root;
      name = raw.name;
      version = raw.version;
      capabilities = capabilities;
      descriptor_bytes = bytes;
    })

-- the stable sort by name
unfoldable pub insert_named :
    ExtensionDescriptor → List ExtensionDescriptor → List ExtensionDescriptor
unfolding list_ord
insert_named d [] = d ∷ []
insert_named d (e ∷ es) = elim (list_ord.cmp d.name e.name) [
  | gt ↦ e ∷ insert_named d es
  | _ ↦ d ∷ e ∷ es
]

unfoldable pub sort_named : List ExtensionDescriptor → List ExtensionDescriptor
unfolding insert_named
sort_named [] = []
sort_named (d ∷ ds) = insert_named d (sort_named ds)

-- the loop over the directories that have an `extension.yml`: its path, and their own
unfoldable pub load_all :
    DescriptorLibraries → List (Text × Text) → Result (List ExtensionDescriptor)
unfolding load_descriptor
load_all libraries [] = ok []
load_all libraries ((path, dir) ∷ dirs) =
    load_descriptor libraries path (some dir) >>= λ d. load_all libraries dirs >>= λ ds. ok (d ∷ ds)

-- `discover_descriptors`: without the folder, or with the entries of the folder if it can be read
unfoldable pub discover_descriptors :
    DescriptorLibraries → Bool → Option (List (Text × Text)) → Result (List ExtensionDescriptor)
unfolding load_all sort_named
discover_descriptors libraries false entries = ok []
discover_descriptors libraries true entries =
    or_io entries >>= λ dirs. load_all libraries dirs >>= λ out. ok (sort_named out)
