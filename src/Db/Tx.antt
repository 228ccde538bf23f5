-- ===== src/Db/Tx.antt =====
-- Statements in sequence, exceptions, and the transaction of `async with db.begin()`.
use puppytalk_be.Base.{Bool, true, false, Result, ok, err}
use puppytalk_be.Errors.{AppError}
use puppytalk_be.Db.Rows.{Db}

abbrev pub Tx : Type 0 → Type 0
Tx A = Db → Result AppError A × Db

module _ {A : Type 0} where
  abbrev pub pure : A → Tx A
  pure a db = (ok a, db)

  abbrev pub raise : AppError → Tx A
  raise e db = (err e, db)

  -- A SELECT.
  abbrev pub query : (Db → A) → Tx A
  query f db = (ok (f db), db)

  -- `async with db.begin(): m`: what `m` raises rolls its writes back.
  abbrev pub begin : Tx A → Tx A
  begin m db = let (r, db') = m db in elim r [ ok a ↦ (ok a, db') | err e ↦ (err e, db) ]

infixl 5 ◌>>=◌ ◌>>◌
abbrev pub ◌>>=◌ : {A B : Type 0} → Tx A → (A → Tx B) → Tx B
◌>>=◌ m f db = let (r, db') = m db in elim r [ ok a ↦ f a db' | err e ↦ (err e, db') ]

abbrev pub ◌>>◌ : {A B : Type 0} → Tx A → Tx B → Tx B
m >> k = m >>= λ _. k

abbrev pub raise_if : Bool → AppError → Tx (Unit {0})
raise_if true e = raise e
raise_if false e = pure tt
