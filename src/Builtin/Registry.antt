-- ===== src/Builtin/Registry.antt =====
-- crates/musts-core/src/builtin/mod.rs: the registry of the built-in capabilities. The schemas, which are
-- constants, are a parameter.
use musts.Base.{◌⊎◌, Option, none, some, List, [], ◌∷◌, ◌++◌, map}
use musts.Base.Text.{Text, text}
use musts.Base.Result.{Error, Result, ok, err}
use musts.Json.{Json}
use musts.Protocol.{
  ResolveRequest, ResolveResponse, EvidenceValidationRequest, EvidenceValidationResponse,
}
use musts.Extension.{BuiltinCapability}
use musts.Builtin.Agent
use musts.Builtin.Jev
use musts.Builtin.Jev.{JevEnv}
use musts.Builtin.Cargo
use musts.Builtin.BazelBuild
use musts.Builtin.BazelTest
use musts.Builtin.Mav
use musts.Builtin.Mav.{ExpectWith}
use musts.Builtin.Mav.Judgement
use musts.Builtin.Mav.Judgement.{JsonFile}

-- the parameters of the capabilities
pub record BuiltinEnv : Type 0 where
  pub schema : Text → Json
  pub to_lowercase : Text → Text
  pub read_to_string : Text → Text → Text ⊎ Text
  pub open_json : Text → Text → JsonFile
  pub agent_with : Json → Option (List Text)
  pub build_with : Json → Option Text
  pub test_with : Json → Option (List Text)
  pub expect_with : Json → Option ExpectWith
  pub jev : JevEnv

-- the errors of cargo.rs, on an id that it does not know
abbrev pub or_unknown {ℓ} : {A : Type ℓ} → Text → Text → Option A → Result A
or_unknown capability message none = err (Error.extension_failure capability message)
or_unknown capability message (some a) = ok a

module _ (env : BuiltinEnv) where
  unfoldable pub cargo_resolve : ResolveRequest → Result ResolveResponse
  unfolding Cargo.resolve text
  cargo_resolve request =
      or_unknown request.capability
        (text "built-in cargo capability dispatched with unknown id `"
          ++ request.capability
          ++ text "` (expected cargo/fmt, cargo/clippy or cargo/test)")
        (Cargo.resolve env.to_lowercase request)

  unfoldable pub cargo_evidence : EvidenceValidationRequest → Result EvidenceValidationResponse
  unfolding Cargo.evidence text
  cargo_evidence request =
      or_unknown request.task.extension
        (text "built-in cargo capability invoked with unknown id `"
          ++ request.task.extension
          ++ text "` in task.extension")
        (Cargo.evidence env.read_to_string request)

  unfoldable pub cargo_capability : Text → BuiltinCapability
  unfolding cargo_resolve cargo_evidence
  cargo_capability uses = record {
    uses = uses;
    schema = env.schema uses;
    resolve = cargo_resolve;
    evidence = cargo_evidence;
  }

  -- `REGISTRY`
  unfoldable pub registry : List BuiltinCapability
  unfolding cargo_capability Jev.resolve Jev.evidence Agent.resolve Agent.evidence
      BazelBuild.resolve BazelBuild.evidence BazelTest.resolve BazelTest.evidence Mav.resolve
      Judgement.evidence text
  registry =
      record {
        uses = text "jev";
        schema = env.schema (text "jev");
        resolve = λ r. ok (Jev.resolve env.jev r);
        evidence = λ r. ok (Jev.evidence r);
      }
      ∷ record {
        uses = text "agent";
        schema = env.schema (text "agent");
        resolve = λ r. ok (Agent.resolve env.to_lowercase env.agent_with r);
        evidence = λ r. ok (Agent.evidence r);
      }
      ∷ cargo_capability (text "cargo/fmt")
      ∷ cargo_capability (text "cargo/clippy")
      ∷ cargo_capability (text "cargo/test")
      ∷ record {
        uses = text "bazel/build";
        schema = env.schema (text "bazel/build");
        resolve = λ r. ok (BazelBuild.resolve env.to_lowercase env.build_with r);
        evidence = λ r. ok (BazelBuild.evidence env.read_to_string r);
      }
      ∷ record {
        uses = text "bazel/test";
        schema = env.schema (text "bazel/test");
        resolve = λ r. ok (BazelTest.resolve env.to_lowercase env.test_with r);
        evidence = λ r. ok (BazelTest.evidence env.read_to_string r);
      }
      ∷ record {
        uses = text "mav/expect";
        schema = env.schema (text "mav/expect");
        resolve = λ r. ok (Mav.resolve env.to_lowercase env.expect_with r);
        evidence = λ r. ok (Judgement.evidence env.open_json r);
      }
      ∷ []

-- `registered_capabilities`
unfoldable pub registered_capabilities : List BuiltinCapability → List Text
registered_capabilities registry = map (λ c. c.uses) registry
