-- ===== src/Extension/Descriptor/Examples.antt =====
-- A folder with one descriptor, and the theorem at it.
use musts.Base.{◌≡◌, refl, inr, none, true, some, [], ◌∷◌}
use musts.Base.Order.{list_ord}
use musts.Base.Lists.{All, contains, find}
use musts.Base.Map.{insert}
use musts.Base.Result.{ok}
use musts.Json.{Json}
use musts.Extension.{ExtensionDescriptor}
use musts.Extension.Descriptor.{
  RawCommand, RawDescriptor, DescriptorLibraries, parse_command, not_empty,
  reject_shell_metacharacters, split_result, key_problem, load_schema, load_capability,
  load_capabilities, parsed_descriptor, parent_of, load_descriptor, load_all, insert_named,
  sort_named, discover_descriptors,
}
use musts.Extension.Descriptor.Loaded.{IsLoaded, IsByName, discover_descriptors-IsLoaded}

-- one capability, with an array and a text
abbrev raw : RawDescriptor
raw = record {
  name = 98 ∷ [];
  version = [];
  capabilities =
      (
        99 ∷ [],
        record {
          uses = 98 ∷ 47 ∷ 99 ∷ [];
          schema = none;
          resolve = RawCommand.argv ((112 ∷ []) ∷ []);
          evidence = RawCommand.string (112 ∷ []);
        },
      )
      ∷ [];
}

abbrev libraries : DescriptorLibraries
libraries = record {
  read = λ path. some [];
  json_from_slice = λ bytes. inr Json.null;
  split = λ s. inr (s ∷ []);
  yaml_from_slice = λ bytes. inr raw;
}

abbrev loaded : ExtensionDescriptor
loaded = record {
  root = 120 ∷ [];
  name = 98 ∷ [];
  version = [];
  capabilities =
      (
        99 ∷ [],
        record {
          uses = 98 ∷ 47 ∷ 99 ∷ [];
          schema = none;
          resolve = (112 ∷ []) ∷ [];
          evidence = (112 ∷ []) ∷ [];
        },
      )
      ∷ [];
  descriptor_bytes = [];
}

discovers : discover_descriptors libraries true (some (([], 120 ∷ []) ∷ [])) ≡ ok (loaded ∷ [])
unfolding discover_descriptors load_all load_descriptor parsed_descriptor parent_of
    load_capabilities load_capability key_problem parse_command not_empty
    reject_shell_metacharacters split_result load_schema find contains insert insert_named
    sort_named
discovers = refl

discover_descriptors-IsLoaded_example :
    All (IsLoaded libraries (([], 120 ∷ []) ∷ [])) (loaded ∷ []) × IsByName libraries (loaded ∷ [])
discover_descriptors-IsLoaded_example =
    discover_descriptors-IsLoaded libraries true (some (([], 120 ∷ []) ∷ [])) (loaded ∷ [])
      discovers
