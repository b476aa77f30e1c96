-- ===== src/Protocol.antt =====
-- crates/musts-protocol/src/lib.rs: the values that the core and the implementors of a capability
-- exchange. Payloads (`with`) are `serde_json` values.
use musts.Base.{ℕ, Bool, Option, List}
use musts.Base.Text.{Text}
use musts.Json.{Json}

pub record TextContract : Type 0 where
  pub required : Bool
  pub description : Option Text

pub record AssetContract : Type 0 where
  pub kind : Text
  pub required : Bool
  pub description : Option Text

pub record EvidenceContract : Type 0 where
  pub text : TextContract
  pub assets : List AssetContract

pub record Task : Type 0 where
  pub id : Text
  pub extension : Text
  pub title : Text
  pub satisfies : List Text
  pub parallelizable : Bool
  pub instructions : List Text
  pub evidence_contract : EvidenceContract
  pub command : Option (List Text)

pub record ResolveCheck : Type 0 where
  pub id : Text
  pub local_id : Text
  pub manifest_path : Text
  pub scope_path : Text
  pub depth : ℕ
  pub with_payload : Json

pub record SnapshotHandle : Type 0 where
  pub handle : Text
  pub dirty_scopes : List Text

pub record ResolveRequest : Type 0 where
  pub protocol_version : ℕ
  pub workspace_root : Text
  pub capability : Text
  pub changed_files : List Text
  pub checks : List ResolveCheck
  pub snapshot : SnapshotHandle

pub record IgnoredCheck : Type 0 where
  pub id : Text
  pub reason : Text

pub record ResolveResponse : Type 0 where
  pub protocol_version : ℕ
  pub tasks : List Task
  pub ignored_checks : List IgnoredCheck
  pub notes : List Text

pub record EvidenceTaskRef : Type 0 where
  pub id : Text
  pub extension : Text
  pub satisfies : List Text
  pub evidence_contract : EvidenceContract

pub record EvidenceAsset : Type 0 where
  pub path : Text
  pub mime : Text
  pub size : ℕ

pub record EvidenceSubmission : Type 0 where
  pub text : Option Text
  pub assets : List EvidenceAsset

pub record EvidenceValidationRequest : Type 0 where
  pub protocol_version : ℕ
  pub workspace_root : Text
  pub task : EvidenceTaskRef
  pub submission : EvidenceSubmission
  pub snapshot : SnapshotHandle

pub record NormalizedAsset : Type 0 where
  pub kind : Text
  pub path : Text

pub record MissingEvidence : Type 0 where
  pub kind : Text
  pub message : Text

pub record EvidenceValidationResponse : Type 0 where
  pub protocol_version : ℕ
  pub accepted : Bool
  pub satisfies : List Text
  pub summary : Option Text
  pub normalized_assets : List NormalizedAsset
  pub missing : List MissingEvidence
  pub message : Option Text

-- `PROTOCOL_VERSION`
abbrev pub protocol_version : ℕ
protocol_version = 1
