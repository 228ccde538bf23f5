-- ===== src/Db/Laws.antt =====
-- What the statements of app/db/statements.py keep, row by row.
use mathlib.Core.List.{map-map}
use mathlib.Core.Path.{subst}
use puppytalk_be.Base.{
  ◌≡◌, refl, Bool, true, false, Option, none, some, List, [], ◌∷◌, map, ok, arith, where_rows,
  exists_row, All, if◌then◌else◌, Bool-cases, inl, inr, ◌≢◌,
}
use puppytalk_be.Db.Statements.{update_where, scalar_one_or_none}

module _ {ℓ κ} {R : Type ℓ} (P Q : R → Type κ) (cond : R → Bool) (f : R → R) where
  -- A property of every row after an UPDATE, from one before it.
  pub All-update_where :
      ((r : R) → P r → Q (if cond r then f r else r))
      → (rows : List R) → All P rows
      → All Q (update_where cond f rows)
  All-update_where keep [] h = tt
  All-update_where keep (r ∷ rows) h = (keep r h.0, All-update_where keep rows h.1)

module _ {ℓ κ} {R : Type ℓ} (P : R → Type κ) where
  pub All-imp : (Q : R → Type κ) → ((r : R) → P r → Q r) → (rows : List R) → All P rows → All Q rows
  All-imp Q keep [] h = tt
  All-imp Q keep (r ∷ rows) h = (keep r h.0, All-imp Q keep rows h.1)

  pub All-where_rows : (q : R → Bool) (rows : List R) → All P rows → All P (where_rows q rows)
  All-where_rows q [] h = tt
  All-where_rows q (r ∷ rows) h = elim (Bool-cases (q r)) [
    | inl e ↦ rw e (h.0, All-where_rows q rows h.1)
    | inr e ↦ rw e (All-where_rows q rows h.1)
  ]

pub scalar-head :
    {V : Type 0} (v : Option V) (vs : List (Option V)) (w : Option V)
    → scalar_one_or_none (v ∷ vs) ≡ ok w
    → v ≡ w
unfolding scalar_one_or_none
scalar-head v [] w h = cc
scalar-head v (x ∷ vs) w h = cc

module _ {R V : Type 0} (cond : R → Bool) (f : R → Option V) where
  -- A value that RETURNING gave is that of a row which the WHERE clause took.
  pub scalar-some :
      {P : R → Type 0} (rows : List R) (v : V)
      → All P rows
      → scalar_one_or_none (map f (where_rows cond rows)) ≡ ok (some v)
      → (r : R) × P r × (cond r ≡ true) × (f r ≡ some v)
  unfolding scalar_one_or_none
  scalar-some [] v h e = cc
  scalar-some (r ∷ rows) v h e = elim (Bool-cases (cond r)) [
    | inl here ↦
        (r, h.0, here, scalar-head (f r) (map f (where_rows cond rows)) (some v) (rw here at e))
    | inr later ↦ scalar-some rows v h.1 (rw later at e)
  ]

  -- No value for a column that is never NULL: the WHERE clause took no row.
  pub scalar-none :
      (rows : List R)
      → ((r : R) → f r ≢ none)
      → scalar_one_or_none (map f (where_rows cond rows)) ≡ ok none
      → exists_row cond rows ≡ false
  unfolding scalar_one_or_none
  scalar-none [] total e = refl
  scalar-none (r ∷ rows) total e = elim (Bool-cases (cond r)) [
    | inl here ↦
        absurd (total r (scalar-head (f r) (map f (where_rows cond rows)) none (rw here at e)))
    | inr later ↦ rw later (scalar-none rows total (rw later at e))
  ]

-- The row of a value that RETURNING gave is in the table.
module _ {R V : Type 0} (cond : R → Bool) (f : R → Option V) (v : V) (q : R → Bool)
    (covers : (r : R) → cond r ≡ true → f r ≡ some v → q r ≡ true) where
  pub scalar-exists :
      (rows : List R)
      → scalar_one_or_none (map f (where_rows cond rows)) ≡ ok (some v)
      → exists_row q rows ≡ true
  unfolding scalar_one_or_none
  scalar-exists [] e = cc
  scalar-exists (r ∷ rows) e = elim (Bool-cases (cond r)) [
    | inl here ↦
        rw
          (covers r here (scalar-head (f r) (map f (where_rows cond rows)) (some v) (rw here at e)))
          refl
    | inr later ↦ ground (arith, scalar-exists rows (rw later at e))
  ]

-- The row that a SELECT read is in the table.
pub select-exists :
    {R V : Type 0} (cond : R → Bool) (f : R → V) (v : V) (q : R → Bool)
    → ((r : R) → cond r ≡ true → f r ≡ v → q r ≡ true)
    → (rows : List R) → scalar_one_or_none (map some (map f (where_rows cond rows))) ≡ ok (some v)
    → exists_row q rows ≡ true
select-exists cond f v q covers rows e =
    scalar-exists cond (λ r. some (f r)) v q
      (λ r c same. let value : f r ≡ v = cc in covers r c value) rows
      (subst (λ l. scalar_one_or_none l ≡ ok (some v)) (map-map some f (where_rows cond rows)) e)

pub scalar-tail :
    {V : Type 0} (v : Option V) (vs : List (Option V)) (w : Option V)
    → scalar_one_or_none (v ∷ vs) ≡ ok w
    → vs ≡ []
unfolding scalar_one_or_none
scalar-tail v [] w h = refl
scalar-tail v (x ∷ vs) w h = cc

module _ {R V : Type 0} (cond narrow : R → Bool) (f : R → Option V)
    (narrows : (r : R) → narrow r ≡ true → cond r ≡ true) where
  narrow-none : (rows : List R) → map f (where_rows cond rows) ≡ [] → exists_row narrow rows ≡ false
  narrow-none [] h = refl
  narrow-none (r ∷ rows) h = elim (Bool-cases (cond r)) [
    | inl e ↦ cc (rw e at h)
    | inr e ↦ elim (Bool-cases (narrow r)) [
      | inl n ↦ cc (e, narrows r n)
      | inr n ↦ rw n (narrow-none rows (rw e at h))
    ]
  ]

  -- Where the WHERE clause took one row, and some row meets a narrower condition, it is that row.
  pub scalar-narrow :
      (P : R → Type 0) (rows : List R) (v : V)
      → All P rows
      → scalar_one_or_none (map f (where_rows cond rows)) ≡ ok (some v)
      → exists_row narrow rows ≡ true
      → (r : R) × P r × (narrow r ≡ true) × (f r ≡ some v)
  scalar-narrow P [] v h e n = cc
  scalar-narrow P (r ∷ rows) v h e n = elim (Bool-cases (cond r)) [
    | inl here ↦
        let single = rw here at e in
        let none_left =
          narrow-none rows (scalar-tail (f r) (map f (where_rows cond rows)) (some v) single) in
        (
          r,
          h.0,
          ground (arith, none_left),
          scalar-head (f r) (map f (where_rows cond rows)) (some v) single,
        )
    | inr later ↦ scalar-narrow P rows v h.1 (rw later at e) (ground (arith, narrows r))
  ]

-- A SELECT that found a row.
pub exists-some :
    {R V : Type 0} (cond : R → Bool) (f : R → V) (rows : List R) (v : V)
    → scalar_one_or_none (map some (map f (where_rows cond rows))) ≡ ok (some v)
    → exists_row cond rows ≡ true
unfolding scalar_one_or_none
exists-some cond f [] v e = cc
exists-some cond f (r ∷ rows) v e = elim (Bool-cases (cond r)) [
  | inl here ↦ rw here
  | inr later ↦ rw later (exists-some cond f rows v (rw later at e))
]

-- A SELECT whose condition no row meets.
pub none-select :
    {R V : Type 0} (cond : R → Bool) (f : R → V) (rows : List R)
    → exists_row cond rows ≡ false
    → scalar_one_or_none (map some (map f (where_rows cond rows))) ≡ ok none
unfolding scalar_one_or_none
none-select cond f [] h = refl
none-select cond f (r ∷ rows) h = ground (arith, none-select cond f rows)

pub exists-imp :
    {R : Type 0} (narrow cond : R → Bool) (rows : List R)
    → ((r : R) → narrow r ≡ true → cond r ≡ true)
    → exists_row narrow rows ≡ true
    → exists_row cond rows ≡ true
exists-imp narrow cond [] imp h = cc
exists-imp narrow cond (r ∷ rows) imp h = ground (arith, imp r, exists-imp narrow cond rows imp)
