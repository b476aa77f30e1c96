-- ===== src/Base/Result.antt =====
-- `crate::error::Error`, as far as the modelled code raises it, and `crate::error::Result`.
use Prim.Native.Nat.{ℕ}
use mathlib.Core.List.{List}
use mathlib.Core.Path.{◌≡◌, refl}
use mathlib.Core.Logic.{◌⊎◌, inl, inr}
use musts.Base.Text.{Text}

-- the three messages of `Error::LedgerLock`
pub data LockProblem : Type 0 where
  merge_conflict invalid_yaml : LockProblem
  unsupported_version : ℕ → LockProblem

pub data Error : Type 0 where
  io db : Error
  manifest : Text → Error
  with_schema : Text → Text → Error
  extension_descriptor : Text → Text → Error
  extension_failure : Text → Text → Error
  missing_extension : Text → Text → Error
  task_not_found evidence_stale : Text → Error
  evidence_overclaim : Text → Text → List Text → Error
  evidence_rejected : Text → Text → Text → Error
  record_unsupported : Text → Error
  ledger_lock : LockProblem → Error
  case_path_collision : Text → Text → Error

-- `exit_code`
unfoldable pub exit_code : Error → ℕ
exit_code Error.io = 70
exit_code Error.db = 70
exit_code (Error.evidence_rejected task capability message) = 1
exit_code _ = 2

pub data Result {ℓ} (A : Type ℓ) : Type ℓ where
  ok : A → Result A
  err : Error → Result A

-- the operator `?`
infixl 5 ◌>>=◌
abbrev pub ◌>>=◌ {ℓ κ} : {A : Type ℓ} {B : Type κ} → Result A → (A → Result B) → Result B
err x >>= next = err x
ok value >>= next = next value

infixl 5 ◌>>◌
abbrev pub ◌>>◌ {ℓ} : {B : Type ℓ} → Result (Unit {0}) → Result B → Result B
first >> second = first >>= λ done. second

pub Result-cases {ℓ} :
    {A : Type ℓ} (r : Result A) → ((a : A) × (r ≡ ok a)) ⊎ ((e : Error) × (r ≡ err e))
Result-cases (ok a) = inl (a, refl)
Result-cases (err e) = inr (e, refl)
