-- ===== src/Session.antt =====
-- crates/musts-core/src/bootstrap.rs `StateSession`, as the code below it uses it, and the functions
-- that change it and may fail. What was written before an error stays written.
use musts.Base.{Bool, true, false, Option, none, some}
use musts.Base.Result.{Error, Result, ok, err}
use musts.Database.{Db}
use musts.Ledger.Disk.{MustsDir}

pub record Session : Type 0 where
  pub db : Db
  pub musts_dir : MustsDir

abbrev pub Exec {ℓ} : Type ℓ → Type ℓ
Exec A = Session → Result A × Session

module _ {ℓ} {A : Type ℓ} where
  abbrev pub pure : A → Exec A
  pure a s = (ok a, s)

  abbrev pub raise : Error → Exec A
  raise e s = (err e, s)

  abbrev pub lift : Result A → Exec A
  lift r s = (r, s)

  -- `option.ok_or(e)?`
  abbrev pub ok_or : Option A → Error → Exec A
  ok_or none e s = (err e, s)
  ok_or (some a) e s = (ok a, s)

abbrev pub gets {ℓ} : {A : Type ℓ} → (Session → A) → Exec A
gets f s = (ok (f s), s)

abbrev pub ensure : Bool → Error → Exec (Unit {0})
ensure true e s = (ok tt, s)
ensure false e s = (err e, s)

-- a statement on the database
abbrev pub on_db : (Db → Result (Unit {0}) × Db) → Exec (Unit {0})
on_db f s = let (r, d) = f s.db in (r, record s { db = d })

abbrev pub on_dir : (MustsDir → Result (Unit {0}) × MustsDir) → Exec (Unit {0})
on_dir f s = let (r, d) = f s.musts_dir in (r, record s { musts_dir = d })

module _ {ℓ κ} {A : Type ℓ} {B : Type κ} where
  abbrev pub continue : Result A → (A → Session → Result B × Session) → Session → Result B × Session
  continue (ok a) f s = f a s
  continue (err e) f s = (err e, s)

  infixl 5 ◌>>=◌
  abbrev pub ◌>>=◌ :
      (Session → Result A × Session)
      → (A → Session → Result B × Session)
      → Session
      → Result B × Session
  ◌>>=◌ m f s = let (r, s') = m s in continue r f s'

infixl 5 ◌>>◌
abbrev pub ◌>>◌ {κ} :
    {B : Type κ}
    → (Session → Result (Unit {0}) × Session)
    → (Session → Result B × Session)
    → Session
    → Result B × Session
m >> k = m >>= λ _. k
