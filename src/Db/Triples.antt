-- ===== src/Db/Triples.antt =====
-- What holds after the statements of a transaction, when they raise nothing.
use puppytalk_be.Base.{Result, ok, err, List, map, some}
use puppytalk_be.Db.Statements.{select_one_or_none, scalar_one_or_none}
use puppytalk_be.Errors.{AppError}
use puppytalk_be.Db.Rows.{Db}
use puppytalk_be.Db.Tx.{Tx, pure, query, begin, ◌>>=◌}

-- Of a result and the database it leaves: an exception promises nothing of the database.
abbrev pub Ends : {A : Type 0} → (A → Db → Type 0) → Result AppError A × Db → Type 0
Ends Q (ok a, db) = Q a db
Ends Q (err e, db) = Unit

pub record Triple {A : Type 0} (P : Db → Type 0) (m : Tx A) (Q : A → Db → Type 0) : Type 0 where
  pub run : (db : Db) → P db → Ends Q (m db)

module _ {A : Type 0} (P : Db → Type 0) where
  ends_commit :
      (Q : A → Db → Type 0) (db : Db) (x : Result AppError A × Db)
      → P db
      → ((a : A) (db' : Db) → Q a db' → P db')
      → Ends Q x
      → P (begin (λ d. x) db).1
  ends_commit Q db (ok a, db') h keep e = keep a db' e
  ends_commit Q db (err x, db') h keep e = h

  -- A transaction keeps what its statements end with, and what held before it when it rolls back.
  pub begin_keeps : (m : Tx A) (db : Db) → Triple P m (λ a. P) → P db → P (begin m db).1
  begin_keeps m db t h = ends_commit (λ a. P) db (m db) h (λ a db' q. q) (t.run db h)

module _ {A B : Type 0} where
  bind-Ends :
      (Q : A → Db → Type 0) (R : B → Db → Type 0) (f : A → Tx B) (db : Db)
      (x : Result AppError A × Db)
      → ((a : A) → Triple (Q a) (f a) R)
      → Ends Q x
      → Ends R (((λ (d : Db). x) >>= f) db)
  bind-Ends Q R f db (ok a, db1) second e = (second a).run db1 e
  bind-Ends Q R f db (err x, db1) second e = tt

  pub bind_triple :
      {P : Db → Type 0} (Q : A → Db → Type 0) {R : B → Db → Type 0} {m : Tx A} {f : A → Tx B}
      → Triple P m Q
      → ((a : A) → Triple (Q a) (f a) R)
      → Triple P (m >>= f) R
  bind_triple {P} Q {R} {m} {f} first second = record {
    run = λ db h. bind-Ends Q R f db (m db) second (first.run db h);
  }

module _ {A : Type 0} where
  pub Ends-any :
      (Q : A → Db → Type 0) (r : Result AppError A) (db : Db) → ((a : A) → Q a db) → Ends Q (r, db)
  Ends-any Q (ok a) db h = h a
  Ends-any Q (err e) db h = tt

  -- A SELECT leaves the database alone.
  pub pure_triple : {P : Db → Type 0} (a : A) → Triple P (pure a) (λ v. P)
  pure_triple a = record { run = λ db h. h }

  pub query_triple : {P : Db → Type 0} (f : Db → A) → Triple P (query f) (λ v. P)
  query_triple f = record { run = λ db h. h }

pub select_triple :
    {V : Type 0} {P : Db → Type 0} (f : Db → List V) → Triple P (select_one_or_none f) (λ v. P)
unfolding select_one_or_none
select_triple {V} {P} f = record {
  run = λ db h. Ends-any (λ v. P) (scalar_one_or_none (map some (f db))) db (λ v. h);
}
