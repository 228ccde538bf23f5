-- ===== src/Views/Committing.antt =====
-- What the transaction of a flush adds to the counters of the posts.
use puppytalk_be.Base.{
  ℕ, ◌+◌, ◌≡◌, refl, sym, arith, true, Option, some, List, [], ◌∷◌, map, Result, ok, err,
  where_rows, ◌==◌, if◌then◌else◌, Bool-cases, inl, inr, ltb,
}
use mathlib.Core.Path.{subst}
use puppytalk_be.Errors.{AppError}
use puppytalk_be.Db.Rows.{Db, Post}
use puppytalk_be.Db.Tx.{pure, ◌>>=◌}
use puppytalk_be.Db.Triples.{Ends, Triple, bind_triple, pure_triple}
use puppytalk_be.Db.Statements.{update_where, update_one_returning, scalar_one_or_none}
use puppytalk_be.Posts
use puppytalk_be.Redis.Hashes.{field_sum}
use puppytalk_be.Views.{apply_fields}
use puppytalk_be.Views.Sums.{is_alive_at, add_views, Adds, update-Adds}

module _ (g : ℕ) (base : List Post) where
  abbrev pub Added : ℕ → Db → Type 0
  Added k db = Adds g k base db.posts

  Adds-trans :
      (k n : ℕ) (rows after : List Post)
      → Adds g k base rows
      → Adds g n rows after
      → Adds g (k + n) base after
  Adds-trans k n rows after first second = record {
    bound = omega (arith, first.bound, second.bound);
    exact = λ one. omega (arith, first.exact one, second.exact (omega (arith, first.rows)));
    rows = omega (arith, first.rows, second.rows);
  }

  increment-Ends :
      (now t delta k : ℕ) (db : Db) (w : Result AppError (Option ℕ))
      → w ≡ scalar_one_or_none (map (λ p. some p.id) (where_rows (is_alive_at t) db.posts))
      → Added k db
      → Ends
          (λ v. Added (k + (if t == g then delta else 0)))
          (w, record db { posts = update_where (is_alive_at t) (add_views now delta) db.posts })
  increment-Ends now t delta k db (ok v) e h =
      Adds-trans k (if t == g then delta else 0) db.posts _ h
        (update-Adds now t delta g db.posts v (sym e))
  increment-Ends now t delta k db (err x) e h = tt

  update_triple :
      (now t delta k : ℕ)
      → Triple
          (Added k)
          (Posts.update_post_row now t true
            (λ p. record p { view_count = p.view_count + delta })
            (λ p. some p.id))
          (λ v. Added (k + (if t == g then delta else 0)))
  unfolding Posts.update_post_row update_one_returning
  update_triple now t delta k = record { run = λ db h. increment-Ends now t delta k db _ refl h }

  Adds-zero :
      (t delta k : ℕ) (rows : List Post)
      → (delta == 0) ≡ true
      → Adds g k base rows
      → Adds g (k + (if t == g then delta else 0)) base rows
  Adds-zero t delta k rows e h = record {
    bound = ground (arith, e, h.bound);
    exact = λ one. ground (arith, e, h.exact one);
    rows = h.rows;
  }

  increment_triple :
      (now t delta k : ℕ)
      → Triple
          (Added k)
          (Posts.increment_view_count now t delta)
          (λ v. Added (k + (if t == g then delta else 0)))
  unfolding Posts.increment_view_count
  increment_triple now t delta k = elim (Bool-cases (delta == 0)) [
    | inl e ↦ rw e (record { run = λ db h. Adds-zero t delta k db.posts e h })
    | inr e ↦ rw e (
        bind_triple (λ v. Added (k + (if t == g then delta else 0))) (update_triple now t delta k)
          (λ v. pure_triple (Posts.is_some v)))
  ]

  step_triple :
      (now t delta k : ℕ)
      → Triple
          (Added k)
          (if ltb 0 delta
            then Posts.increment_view_count now t delta >>= (λ found. pure delta)
            else pure 0)
          (λ v. Added (k + (if t == g then delta else 0)))
  step_triple now t delta k = elim (Bool-cases (ltb 0 delta)) [
    | inl e ↦ rw e (
        bind_triple (λ v. Added (k + (if t == g then delta else 0)))
          (increment_triple now t delta k) (λ v. pure_triple delta))
    | inr e ↦ rw e (record { run = λ db h. Adds-zero t delta k db.posts (ground (arith, e)) h })
  ]

  -- The loop of a flush adds to a post what the reply of HGETALL counts for it.
  pub apply_triple :
      (now k : ℕ) (fields : List (ℕ × ℕ))
      → Triple (Added k) (apply_fields now fields) (λ v. Added (k + field_sum g fields))
  unfolding apply_fields
  apply_triple now k [] =
      subst (λ (j : ℕ). Triple {A = ℕ} (Added k) (pure 0) (λ v. Added j)) zero_more
        (pure_triple {A = ℕ} 0)
    where
      zero_more : k ≡ k + 0
      zero_more = omega arith
  apply_triple now k ((t, delta) ∷ fields) =
      bind_triple (λ v. Added (k + (if t == g then delta else 0))) (step_triple now t delta k)
        (λ n.
          bind_triple (λ v. Added (k + field_sum g ((t, delta) ∷ fields)))
            (subst
              (λ (j : ℕ).
                Triple (Added (k + (if t == g then delta else 0))) (apply_fields now fields)
                  (λ v. Added j))
              regroup (apply_triple now (k + (if t == g then delta else 0)) fields))
            (λ m. pure_triple (n + m)))
    where
      regroup :
          k + (if t == g then delta else 0) + field_sum g fields
          ≡ k + field_sum g ((t, delta) ∷ fields)
      regroup = omega arith

-- The transaction of a flush that commits.
pub committed-Adds :
    (now g : ℕ) (fields : List (ℕ × ℕ)) (db : Db)
    → Ends (λ v db'. Adds g (field_sum g fields) db.posts db'.posts) (apply_fields now fields db)
committed-Adds now g fields db =
    subst (λ (j : ℕ). Ends (λ v db'. Adds g j db.posts db'.posts) (apply_fields now fields db))
      plain ((apply_triple g db.posts now 0 fields).run db start)
  where
    plain : 0 + field_sum g fields ≡ field_sum g fields
    plain = omega arith

    start : Adds g 0 db.posts db.posts
    start = record { bound = omega arith; exact = λ one. omega arith; rows = refl }
