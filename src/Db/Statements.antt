-- ===== src/Db/Statements.antt =====
-- app/db/statements.py: statements by their SQL meaning on the list of a table's rows. The order of
-- the list carries no meaning, and a new row is put in front.
use puppytalk_be.Base.{
  ℕ, Bool, true, false, ◌&&◌, not, Option, none, some, List, [], ◌∷◌, map, Result, ok, err,
  where_rows, count_rows, exists_row, ◌==◌, if◌then◌else◌, ltb,
}
use puppytalk_be.Errors.{AppError}
use puppytalk_be.Db.Rows.{Db}
use puppytalk_be.Db.Tx.{Tx}

-- One table of the database.
pub record Table (R : Type 0) : Type 0 where
  pub rows : Db → List R
  pub with_rows : List R → Db → Db

-- `UPDATE ... SET f WHERE cond`
abbrev pub update_where {ℓ} : {R : Type ℓ} → (R → Bool) → (R → R) → List R → List R
update_where cond f [] = []
update_where cond f (r ∷ rows) = (if cond r then f r else r) ∷ update_where cond f rows

-- `Result.scalar_one_or_none()` on the values that RETURNING gave; NULL is `none` too.
unfoldable pub scalar_one_or_none : {V : Type 0} → List (Option V) → Result AppError (Option V)
scalar_one_or_none [] = ok none
scalar_one_or_none (v ∷ []) = ok v
scalar_one_or_none (v ∷ w ∷ vs) = err AppError.multiple_results

-- `(await db.execute(select(...))).one_or_none()`
unfoldable pub select_one_or_none : {V : Type 0} → (Db → List V) → Tx (Option V)
unfolding scalar_one_or_none
select_one_or_none f db = (scalar_one_or_none (map some (f db)), db)

module _ {R : Type 0} (table : Table R) where
  -- RETURNING reads the row as the UPDATE left it.
  unfoldable pub update_one_returning :
      {V : Type 0} → (R → Bool) → (R → R) → (R → Option V) → Tx (Option V)
  unfolding scalar_one_or_none
  update_one_returning conds values returning db =
      let rows = table.rows db in
      (
        scalar_one_or_none (map (λ r. returning (values r)) (where_rows conds rows)),
        table.with_rows (update_where conds values rows) db,
      )

  -- `INSERT ... ON CONFLICT DO NOTHING RETURNING 1`; `conflicts` tells the rows with the same key.
  unfoldable pub insert_ignore : R → (R → Bool) → Tx Bool
  insert_ignore row conflicts db =
      let rows = table.rows db in
      if exists_row conflicts rows
      then (ok false, db)
      else (ok true, table.with_rows (row ∷ rows) db)

  -- `db.add(row); await db.flush()`: a key that is taken raises IntegrityError.
  unfoldable pub add_row : R → (R → Bool) → Tx (Unit {0})
  add_row row conflicts db =
      let rows = table.rows db in
      if exists_row conflicts rows
      then (err AppError.integrity_error, db)
      else (ok tt, table.with_rows (row ∷ rows) db)

  -- `DELETE ... WHERE conds`, with the number of deleted rows.
  unfoldable pub delete_rows : (R → Bool) → Tx ℕ
  delete_rows conds db =
      let rows = table.rows db in
      (ok (count_rows conds rows), table.with_rows (where_rows (λ r. not (conds r)) rows) db)

  -- `UPDATE ... WHERE conds`, for any number of rows.
  unfoldable pub update_rows : (R → Bool) → (R → R) → Tx (Unit {0})
  update_rows conds values db =
      (ok tt, table.with_rows (update_where conds values (table.rows db)) db)

-- `column IN (ids)`
abbrev pub is_in : ℕ → List ℕ → Bool
is_in k ids = exists_row (λ j. j == k) ids

-- The subquery of `decrement_counter_by_link_owner` at one target: how many links to it these owners
-- have. A target without any is not in it.
abbrev pub owned_links : {L : Type 0} → (L → ℕ) → (L → ℕ) → List ℕ → List L → ℕ → ℕ
owned_links link_target link_owner owner_ids links t =
    count_rows (λ l. is_in (link_owner l) owner_ids && link_target l == t) links

-- GREATEST(counter - n, 0) is the subtraction of ℕ.
unfoldable pub decrement_counter_by_link_owner :
    {R L : Type 0}
    → Table R
    → (R → ℕ)
    → (ℕ → R → R)
    → Table L
    → (L → ℕ)
    → (L → ℕ)
    → List ℕ
    → Tx (Unit {0})
decrement_counter_by_link_owner target id subtract links link_target link_owner [] db = (ok tt, db)
decrement_counter_by_link_owner target id subtract links link_target link_owner (o ∷ owners) db = (
  ok tt,
  target.with_rows
      (update_where
        (λ r. ltb 0 (owned_links link_target link_owner (o ∷ owners) (links.rows db) (id r)))
        (λ r. subtract (owned_links link_target link_owner (o ∷ owners) (links.rows db) (id r)) r)
        (target.rows db))
      db,
)
