-- ===== src/Lib.antt =====
-- musts keeps a ledger of what has been validated in a repository. A manifest (`MUSTS.yml`) declares
-- checks; `musts validate` hashes the scope of each check, and asks the implementor of a capability (a
-- built-in, or an extension) for tasks where no evidence is on record for that hash; `musts evidence`
-- has the implementor judge what was submitted for a task, and records each check as satisfied, in a
-- local database and in a ledger that is committed. This library models that loop and proves what
-- makes its answers right.
--
-- The files, and the code that each is about:
--   Base        `str`, `BTreeMap`, `Ord`, sequences, and `Result` with the errors (error.rs)
--   Json, Protocol
--               serde_json's values, and the records of crates/musts-protocol/src/lib.rs
--   Ledger      crates/musts-core/src/state/lock.rs: the committed ledger. Ledger.Disk has the directory
--               `.musts/`, Ledger.Reader an independent reader of the format
--   Snapshot    crates/musts-core/src/snapshot/: scope hashes and fingerprints
--   Database    crates/musts-core/src/state/{db,schema}.rs and evidence/ledger.rs
--   Session     `StateSession` of bootstrap.rs, as the state of what runs on it
--   Extension   the lookup of a capability (extension/descriptor.rs, builtin/mod.rs); Extension.Descriptor
--               reads `extension.yml`
--   Evidence    crates/musts-core/src/evidence/submit.rs: `submit` and `persist_accepted`
--   Validate    crates/musts-core/src/validate.rs and manifest/ids.rs. Validate.Scope has the scopes,
--               Validate.Files the inputs of the hashes, Validate.Declaration what a declaration adds,
--               Validate.Checks the steps for one check, Validate.Tasks what is asked and stored,
--               Validate.Run the run
--   Execute     crates/musts-core/src/run.rs: the execution of a task's command, and the submission of its
--               output
--   Bootstrap   crates/musts-core/src/bootstrap.rs: the loop that waits for the lock of a workspace, and in
--               Bootstrap.Processes the processes that share it
--   Stats       crates/musts-core/src/stats.rs: what the checks have cost, from the ledger and the database
--   Record      crates/musts-core/src/record.rs: evidence from a bazel invocation that has already run
--   Bazel       crates/musts-core/src/builtin/bazel_bep.rs: target patterns. Bazel.Events has the parser
--               of the build events, Bazel.Problem what disqualifies an invocation, Bazel.Targets whether
--               it proves the targets of a check
--   Builtin     crates/musts-core/src/builtin/: the capabilities of cargo.rs, bazel_build.rs, bazel_test.rs,
--               agent.rs, jev.rs and mav_expect.rs, and what they share: util.rs, and the judgement of a
--               captured log. Builtin.Registry lists them (mod.rs)
--   Manifest    crates/musts-core/src/manifest/parser.rs: Manifest.Yaml has the values and their
--               conversion, Manifest.Keys the unknown keys, Manifest.Parser `parse`
--
-- How the code is modelled. A text is the list of its UTF-8 bytes. A table is the sequence of its
-- rows, or a map by its primary key. An operation on the session takes it and returns a result with
-- the new session, so that what was written before an error stays written. A file is absent,
-- unreadable, or has contents. Integers are natural numbers: they are sizes, times and versions, on
-- which the code does no arithmetic; the start of an invocation and the time of a fingerprint, which
-- the database keeps as an `i64` that wraps around, have a sign (Base.Int). Every loop is
-- structural, but for two: `decimal`, whose fuel is one more than the number, and a number has no
-- more digits than that; and `acquire_lock`, whose fuel is `rounds`, one round for each 20
-- milliseconds of the wait and two more, since each round ends with a sleep of that length.
--
-- Parameters, for code that is not in the repository: blake3 (`digest`), serde_yaml on the ledger
-- (`from_slice`; the record IsLedgerParser says what is relied on of it, for texts of printable ASCII
-- only) and on a manifest (`Libraries`), serde_json
-- (`Serde`, `Printer`, `EventLibrary`), Unicode normalisation and lowercasing (`normalise`,
-- `to_lowercase`), globset (`glob_set`), jsonschema (`schema_error`), the libraries that read a
-- descriptor (`DescriptorLibraries`), the reading of a captured log or a report (`read_to_string`,
-- `open_json`), the walk of the file system and its metadata, the processes of extensions, the
-- kernel's file lock, the process that a run spawns, the answers of git (`JevEnv`), and the clock.
-- The run takes its manifests parsed.
--
-- Not modelled: discovery of manifests, the wording of reports and warnings, linting, calibration
-- and the command line. SQLite fails on constraints only.
pub mod Base
pub mod Json
pub mod Protocol
pub mod Ledger
pub mod Snapshot
pub mod Database
pub mod Session
pub mod Extension
pub mod Evidence
pub mod Validate
pub mod Manifest
pub mod Builtin
pub mod Execute
pub mod Stats
pub mod Record
pub mod Bootstrap
pub mod Bazel
