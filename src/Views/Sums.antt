-- ===== src/Views/Sums.antt =====
-- What `increment_view_count` and the loop of a flush add to the counters of the posts.
use puppytalk_be.Base.{
  ℕ, ◌+◌, ◌≤◌, ◌≡◌, ◌≢◌, refl, ap, arith, Bool, true, ◌&&◌, Option, some, List, [], ◌∷◌, map, ok,
  where_rows, count_rows, ◌==◌, if◌then◌else◌, is_none, Bool-cases, inl, inr, ==_refl, ==_iff,
}
use mathlib.Core.Path.{subst}
use puppytalk_be.Db.Rows.{Db, Post}
use puppytalk_be.Db.Tx.{begin}
use puppytalk_be.Db.Statements.{update_where, update_one_returning, scalar_one_or_none}
use puppytalk_be.Db.Laws.{scalar-tail}
use puppytalk_be.Db.Single.{untaken}
use puppytalk_be.Posts

abbrev pub is_alive_at : ℕ → Post → Bool
is_alive_at t p = p.id == t && is_none p.deleted_at

-- The views that the database shows for a post: the counter of its row, unless it is deleted.
abbrev pub views_at : ℕ → List Post → ℕ
views_at t [] = 0
views_at t (p ∷ rows) = (if is_alive_at t p then p.view_count else 0) + views_at t rows

-- At most `n` views more for `t`, and exactly `n` where `t` has one row.
pub record Adds (t n : ℕ) (before after : List Post) : Type 0 where
  pub bound : views_at t after ≤ views_at t before + n
  pub exact : count_rows (is_alive_at t) before ≡ 1 → views_at t after ≡ views_at t before + n
  pub rows : count_rows (is_alive_at t) after ≡ count_rows (is_alive_at t) before

abbrev pub add_views : ℕ → ℕ → Post → Post
add_views now delta p = record p { updated_at = now; view_count = p.view_count + delta }

module _ (now t delta g : ℕ) where
  added_rows :
      (rows : List Post)
      → count_rows (is_alive_at g) (update_where (is_alive_at t) (add_views now delta) rows)
        ≡ count_rows (is_alive_at g) rows
  added_rows [] = refl
  added_rows (p ∷ rows) = ground (arith, added_rows rows)

  views_elsewhere :
      (rows : List Post)
      → t ≢ g
      → views_at g (update_where (is_alive_at t) (add_views now delta) rows) ≡ views_at g rows
  views_elsewhere [] ne = refl
  views_elsewhere (p ∷ rows) ne = ground (arith, views_elsewhere rows ne)

module _ (now t delta : ℕ) where
  views_untaken :
      (rows : List Post)
      → count_rows (is_alive_at t) rows ≡ 0
      → views_at t (update_where (is_alive_at t) (add_views now delta) rows) ≡ views_at t rows
  views_untaken [] h = refl
  views_untaken (p ∷ rows) h = ground (arith, views_untaken rows)

  views_exact :
      (rows : List Post)
      → count_rows (is_alive_at t) rows ≡ 1
      → views_at t (update_where (is_alive_at t) (add_views now delta) rows)
        ≡ views_at t rows + delta
  views_exact [] h = absurd (omega arith)
  views_exact (p ∷ rows) h = ground (arith, views_exact rows, views_untaken rows)

  views_bound :
      (rows : List Post) (w : Option ℕ)
      → scalar_one_or_none (map (λ p. some p.id) (where_rows (is_alive_at t) rows)) ≡ ok w
      → views_at t (update_where (is_alive_at t) (add_views now delta) rows)
        ≤ views_at t rows + delta
  views_bound [] w h = omega arith
  views_bound (p ∷ rows) w h = elim (Bool-cases (is_alive_at t p)) [
    | inl e ↦
        let single = rw e at h in
        let rest =
          untaken (is_alive_at t) (add_views now delta) (λ p. some p.id) rows
            (scalar-tail (some p.id) (map (λ p. some p.id) (where_rows (is_alive_at t) rows)) w
              single) in
        rw (e, rest) (ground (arith, e))
    | inr e ↦ rw (e, e) (omega (arith, views_bound rows w (rw e at h)))
  ]

  -- What an UPDATE of the views of `t` that raised nothing did.
  pub update-Adds :
      (g : ℕ) (rows : List Post) (w : Option ℕ)
      → scalar_one_or_none (map (λ p. some p.id) (where_rows (is_alive_at t) rows)) ≡ ok w
      → Adds g
          (if t == g then delta else 0)
          rows
          (update_where (is_alive_at t) (add_views now delta) rows)
  update-Adds g rows w h = elim (Bool-cases (t == g)) [
    | inl e ↦
        subst
          (λ (k : ℕ).
            Adds k (if t == k then delta else 0) rows
              (update_where (is_alive_at t) (add_views now delta) rows))
          ((==_iff t g).0 e)
          (rw (==_refl t) (record {
            bound = views_bound rows w h;
            exact = views_exact rows;
            rows = added_rows now t delta t rows;
          }))
    | inr e ↦
        let elsewhere = views_elsewhere now t delta g rows (λ same. ground (arith, e, same)) in
        rw e (record {
          bound = ground (arith, elsewhere);
          exact = λ one. ground (arith, elsewhere);
          rows = added_rows now t delta g rows;
        })
  ]

no_rows :
    (cond : Post → Bool) (rows : List Post) → count_rows cond rows ≡ 0 → where_rows cond rows ≡ []
no_rows cond [] h = refl
no_rows cond (p ∷ rows) h = ground (arith, no_rows cond rows)

single_row :
    (cond : Post → Bool) (rows : List Post)
    → count_rows cond rows ≡ 1
    → (p : Post) × where_rows cond rows ≡ p ∷ []
single_row cond [] h = absurd (omega arith)
single_row cond (p ∷ rows) h = elim (Bool-cases (cond p)) [
  | inl e ↦
      let others : count_rows cond rows ≡ 0 = ground (arith, h, e) in
      (p, rw e (ap (λ rest. p ∷ rest) (no_rows cond rows others)))
  | inr e ↦ let (q, found) = single_row cond rows (ground (arith, h, e)) in (q, rw e found)
]

-- One view that goes to the database directly, where the post has one row.
pub one_view :
    (now t : ℕ) (db : Db)
    → count_rows (is_alive_at t) db.posts ≡ 1
    → (b : Bool) × (begin (Posts.increment_view_count now t 1) db).0 ≡ ok b
      × views_at t (begin (Posts.increment_view_count now t 1) db).1.posts ≡ views_at t db.posts + 1
unfolding Posts.increment_view_count Posts.update_post_row update_one_returning scalar_one_or_none
one_view now t db one =
    let (p, found) = single_row (is_alive_at t) db.posts one in
    let exact = views_exact now t 1 db.posts one in
    (true, ground (arith, found), ground (arith, found, exact))
