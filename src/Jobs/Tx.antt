-- ===== src/Jobs/Tx.antt =====
-- A call of the runner: it reads and writes the database and may raise. `engine.begin()` and the
-- explicit BEGIN IMMEDIATE blocks roll back when an exception leaves them.
use truyenaudio_studio.Prelude.{ℕ, Bool, true, false, Option, none, some}
use truyenaudio_studio.Jobs.Schema.{Db}

-- LeaseLost and InvalidJobTransition of the runner, ValueError of `_require_aware`, and what the
-- database layer raises: a constraint that an INSERT breaks, and a row that `.one()` misses.
pub data Error : Type 0 where
  lease_lost invalid_job_transition naive_datetime integrity_error no_result_found : Error

pub data Result {ℓ} (A : Type ℓ) : Type ℓ where
  ok : A → Result A
  err : Error → Result A

abbrev pub Tx : Type 0 → Type 0
Tx A = Db → Result A × Db

module _ {A : Type 0} where
  abbrev pub pure : A → Tx A
  pure a db = (ok a, db)

  abbrev pub raise : Error → Tx A
  raise e db = (err e, db)

  abbrev pub or_raise : Option A → Error → Tx A
  or_raise none e = raise e
  or_raise (some a) e = pure a

  abbrev pub gets : (Db → A) → Tx A
  gets f db = (ok (f db), db)

  -- with engine.begin() as connection: …
  abbrev pub rollback_to : Db → Result A × Db → Result A × Db
  rollback_to before (ok a, after) = (ok a, after)
  rollback_to before (err e, after) = (err e, before)

  abbrev pub begin : Tx A → Tx A
  begin m db = rollback_to db (m db)

infixl 5 ◌>>=◌ ◌>>◌
abbrev pub ◌>>=◌ : {A B : Type 0} → Tx A → (A → Tx B) → Tx B
◌>>=◌ m f db = let (r, db') = m db in elim r [ ok a ↦ f a db' | err e ↦ raise e db' ]

abbrev pub ◌>>◌ : {A B : Type 0} → Tx A → Tx B → Tx B
m >> k = m >>= λ _. k

abbrev pub raise_unless : Bool → Error → Tx (Unit {0})
raise_unless c e db = (elim c [ true ↦ ok tt | false ↦ err e ], db)

abbrev pub modify : (Db → Db) → Tx (Unit {0})
modify f db = (ok tt, f db)

-- A datetime with or without a time zone.
pub data Datetime : Type 0 where
  aware naive : ℕ → Datetime

-- `_require_aware(now)` before anything else.
abbrev pub require_aware : {A : Type 0} → Datetime → (ℕ → Tx A) → Tx A
require_aware (aware t) k = k t
require_aware (naive t) k = raise naive_datetime
