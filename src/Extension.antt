-- ===== src/Extension.antt =====
-- crates/musts-core/src/extension/descriptor.rs and builtin/mod.rs: who implements a capability.
pub mod Descriptor
use musts.Base.{Option, none, some, List, [], ◌∷◌, if◌then◌else◌}
use musts.Base.Order.{◌==◌, nat_ord, list_ord}
use musts.Base.Text.{Text}
use musts.Base.Lists.{find}
use musts.Base.Map.{BTreeMap}
use musts.Base.Result.{Result}
use musts.Json.{Json}
use musts.Protocol.{
  ResolveRequest, ResolveResponse, EvidenceValidationRequest, EvidenceValidationResponse,
}

-- `argv` of a `Command`
abbrev pub Command : Type 0
Command = List Text

pub record Capability : Type 0 where
  pub uses : Text
  pub schema : Option Json
  pub resolve : Command
  pub evidence : Command

pub record ExtensionDescriptor : Type 0 where
  pub root : Text
  pub name : Text
  pub version : Text
  pub capabilities : BTreeMap Text Capability
  pub descriptor_bytes : Text

-- `BuiltinCapability`: its functions are those of the module that implements it.
pub record BuiltinCapability : Type 0 where
  pub uses : Text
  pub schema : Json
  pub resolve : ResolveRequest → Result ResolveResponse
  pub evidence : EvidenceValidationRequest → Result EvidenceValidationResponse

-- `builtin::lookup` in the registry
unfoldable pub lookup : List BuiltinCapability → Text → Option BuiltinCapability
unfolding find
lookup registry uses = find (λ c. c.uses == uses) registry

find_in : Text → BTreeMap Text Capability → Option Capability
find_in uses [] = none
find_in uses ((name, c) ∷ cs) = if c.uses == uses then some c else find_in uses cs

first_capability :
    ExtensionDescriptor
    → Option Capability
    → Option (ExtensionDescriptor × Capability)
    → Option (ExtensionDescriptor × Capability)
first_capability d none rest = rest
first_capability d (some c) rest = some (d, c)

-- `find_capability`: the first capability that `uses` names, in the order of the descriptors
unfoldable pub find_capability :
    List ExtensionDescriptor → Text → Option (ExtensionDescriptor × Capability)
unfolding find_in first_capability
find_capability [] uses = none
find_capability (d ∷ ds) uses =
    first_capability d (find_in uses d.capabilities) (find_capability ds uses)
