-- ===== src/Validate/Files.antt =====
-- `compute_scope_file_inputs`: the hashes of the files of the workspace, by normalised path, with the
-- cache of fingerprints. The walk of the file system is not modelled: its result is a list.
pub mod Collision
pub mod Contents
use musts.Base.{ℕ, Bool, true, false, not, Option, none, some, List, [], ◌∷◌, if◌then◌else◌}
use musts.Base.Order.{◌==◌, nat_ord, list_ord}
use musts.Base.Text.{Text}
use musts.Base.Int.{as_i64}
use musts.Base.Map.{BTreeMap, insert, get}
use musts.Base.Result.{Result, ok, err, case_path_collision}
use musts.Database.{FingerprintRow, Db, fingerprint_for, upsert_fingerprint}
use musts.Snapshot.{FileFingerprint, cached_hash}
use musts.Session.{Session, Exec, pure, raise, lift, gets, ◌>>=◌, ◌>>◌}
use musts.Validate.Scope.{RelPath, joined, normalise_rel_path}

pub record Metadata : Type 0 where
  pub mtime_ns : ℕ
  pub size_bytes : ℕ

-- a file that the walk finds: `metadata` and `hash_file` as the machine answers them
pub record WalkedFile : Type 0 where
  pub rel_path : RelPath
  pub metadata : Result Metadata
  pub hash_file : Result Text

-- the three maps of the loop
pub record Inputs : Type 0 where
  pub out : BTreeMap Text Text
  pub meta : BTreeMap Text (Text × ℕ)
  pub origin_of_normalised : BTreeMap Text Text

-- `hash_file(..).map(|f| f.content_hash).unwrap_or_default()`
abbrev pub hash_or_default : Result Text → Text
hash_or_default (ok h) = h
hash_or_default (err e) = []

abbrev pub or_refresh : Option Text → Result Text → Text
or_refresh none fresh = hash_or_default fresh
or_refresh (some h) fresh = h

-- the hash of a file, from its cached fingerprint where that is current
unfoldable pub content_hash : Option FingerprintRow → Metadata → Result Text → Result Text
unfolding cached_hash
content_hash none m fresh = fresh
content_hash (some row) m fresh = ok (
    or_refresh
      (cached_hash
        (record {
          size_bytes = row.size_bytes;
          mtime_ns = row.mtime_ns;
          content_hash = row.content_hash;
        })
        m.size_bytes m.mtime_ns)
      fresh)

abbrev upsert : Text → FingerprintRow → Exec (Unit {0})
upsert rel row s = (ok tt, record s { db = upsert_fingerprint rel row s.db })

-- a path that came from another file already
abbrev pub collides : Option Text → Text → Bool
collides none raw = false
collides (some prior) raw = not (prior == raw)

abbrev pub prior_of : Option Text → Text
prior_of none = []
prior_of (some prior) = prior

module _ (normalise : Text → Text) (now : ℕ) where
  -- one turn of the loop
  unfoldable pub add_file : WalkedFile → Inputs → Exec Inputs
  unfolding as_i64
  add_file f inputs =
      let raw = joined f.rel_path in
      let normalised = normalise_rel_path normalise f.rel_path in
      let prior = get normalised inputs.origin_of_normalised in
      if collides prior raw then raise (case_path_collision (prior_of prior) raw) else do
        m ← lift f.metadata
        row ← gets (λ s. fingerprint_for raw s.db)
        hash ← lift (content_hash row m f.hash_file)
        upsert raw (record {
          mtime_ns = as_i64 m.mtime_ns;
          size_bytes = m.size_bytes;
          content_hash = hash;
          last_seen_at = now;
        })
        pure (record {
          out = insert normalised hash inputs.out;
          meta = insert normalised (raw, m.mtime_ns) inputs.meta;
          origin_of_normalised = insert normalised raw inputs.origin_of_normalised;
        })

  unfoldable pub add_files : List WalkedFile → Inputs → Exec Inputs
  add_files [] inputs = pure inputs
  add_files (f ∷ fs) inputs = add_file f inputs >>= λ more. add_files fs more

  unfoldable pub compute_scope_file_inputs :
      List WalkedFile → Exec (BTreeMap Text Text × BTreeMap Text (Text × ℕ))
  compute_scope_file_inputs files = do
    inputs ← add_files files (record { out = []; meta = []; origin_of_normalised = [] })
    pure (inputs.out, inputs.meta)
