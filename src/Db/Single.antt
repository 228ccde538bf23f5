-- ===== src/Db/Single.antt =====
-- An UPDATE that took one row at most, as `scalar_one_or_none` of app/db/statements.py makes sure.
use puppytalk_be.Base.{
  ℕ, ◌+◌, ◌≡◌, refl, ap, Bool, true, Option, none, List, [], ◌∷◌, map, ok, arith, where_rows,
  count_rows, if◌then◌else◌, ◌⊎◌, inl, inr, Bool-cases,
}
use puppytalk_be.Db.Statements.{update_where, scalar_one_or_none}
use puppytalk_be.Db.Laws.{scalar-head, scalar-tail}

abbrev pub bit : Bool → ℕ
bit b = if b then 1 else 0

module _ {R V : Type 0} (cond : R → Bool) (f : R → R) (ret : R → Option V) where
  pub untaken :
      (rows : List R) → map ret (where_rows cond rows) ≡ [] → update_where cond f rows ≡ rows
  untaken [] h = refl
  untaken (r ∷ rows) h = elim (Bool-cases (cond r)) [
    | inl e ↦ cc (rw e at h)
    | inr e ↦ rw e (ap (λ rest. r ∷ rest) (untaken rows (rw e at h)))
  ]

  -- The row that the UPDATE took, the value returned of it, and what every count became; or no row,
  -- and an unchanged table.
  pub record Took (rows : List R) (w : Option V) : Type 0 where
    pub row : R
    pub taken : cond row ≡ true
    pub returned : ret row ≡ w
    pub counts :
        (q : R → Bool)
        → count_rows q (update_where cond f rows) + bit (q row)
          ≡ count_rows q rows + bit (q (f row))

  pub single_update :
      (rows : List R) (w : Option V)
      → scalar_one_or_none (map ret (where_rows cond rows)) ≡ ok w
      → Took rows w ⊎ ((w ≡ none) × (update_where cond f rows ≡ rows))
  unfolding scalar_one_or_none
  single_update [] w h = inr (cc, refl)
  single_update (r ∷ rows) w h = elim (Bool-cases (cond r)) [
    | inl e ↦
        let single = rw e at h in
        let rest = untaken rows (scalar-tail (ret r) (map ret (where_rows cond rows)) w single) in
        inl (record {
          row = r;
          taken = e;
          returned = scalar-head (ret r) (map ret (where_rows cond rows)) w single;
          counts = λ q. rw (e, rest) (omega arith);
        })
    | inr e ↦ elim (single_update rows w (rw e at h)) [
      | inl t ↦ inl (record {
        row = t.row;
        taken = t.taken;
        returned = t.returned;
        counts = λ q. rw e (omega (arith, t.counts q));
      })
      | inr (nothing, same) ↦ inr (nothing, rw e (ap (λ rest. r ∷ rest) same))
    ]
  ]
