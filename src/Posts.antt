-- ===== src/Posts.antt =====
-- The data access of posts that comments, likes and moderation go through:
-- app/domain/posts/repository.py.
use puppytalk_be.Base.{
  ℕ, ◌+◌, ◌-◌, max, Bool, true, false, ◌&&◌, not, Option, none, some, map, where_rows, exists_row,
  ◌==◌, eq_some, is_none, List, or_zero, if◌then◌else◌,
}
use puppytalk_be.Db.Rows.{Db, Post}
use puppytalk_be.Db.Tx.{Tx, pure, query, ◌>>=◌}
use puppytalk_be.Db.Statements.{
  update_one_returning, select_one_or_none, delete_rows, decrement_counter_by_link_owner,
}
use puppytalk_be.Db.Tables

-- `author_not_blocked_clause` of app/domain/users/model.py; no viewer, no clause.
abbrev pub author_not_blocked : Option ℕ → Option ℕ → Db → Bool
author_not_blocked author none db = true
author_not_blocked author (some viewer) db =
    not (exists_row (λ b. b.blocker_id == viewer && eq_some author b.blocked_id) db.user_blocks)

-- `_post_visible_conditions`
abbrev pub post_visible : Option ℕ → Db → Post → Bool
post_visible viewer db p =
    is_none p.deleted_at && not p.is_blinded && author_not_blocked p.user_id viewer db

unfoldable pub post_is_visible : ℕ → Option ℕ → Tx Bool
post_is_visible post_id viewer =
    query (λ db. exists_row (λ p. p.id == post_id && post_visible viewer db p) db.posts)

-- `VisiblePost`
pub record VisiblePost : Type 0 where
  pub author_id : Option ℕ

unfoldable pub get_visible_post_author : ℕ → Option ℕ → Tx (Option VisiblePost)
unfolding select_one_or_none
get_visible_post_author post_id viewer = select_one_or_none (λ db.
    map (λ p. record { author_id = p.user_id })
      (where_rows (λ p. p.id == post_id && post_visible viewer db p) db.posts))

-- `_update_post`: `alive` adds the guard, and `updated_at` is always set.
unfoldable pub update_post_row :
    {V : Type 0} → ℕ → ℕ → Bool → (Post → Post) → (Post → Option V) → Tx (Option V)
unfolding update_one_returning
update_post_row now post_id alive values returning =
    update_one_returning Tables.posts
      (λ p. p.id == post_id && (if alive then is_none p.deleted_at else true))
      (λ p. values (record p { updated_at = now })) returning

abbrev pub is_some {ℓ} : {A : Type ℓ} → Option A → Bool
is_some none = false
is_some (some a) = true

unfoldable pub get_like_count : ℕ → Tx ℕ
unfolding select_one_or_none
get_like_count post_id = do
  count ←
      select_one_or_none
        (λ db. map (λ p. p.like_count) (where_rows (λ p. p.id == post_id) db.posts))
  pure (or_zero count)

unfoldable pub increment_like_count : ℕ → ℕ → Tx ℕ
unfolding update_post_row
increment_like_count now post_id = do
  row ←
      update_post_row now post_id false (λ p. record p { like_count = p.like_count + 1 })
        (λ p. some p.like_count)
  pure (or_zero row)

-- GREATEST(like_count - 1, 0) is the subtraction of ℕ, here and below.
unfoldable pub decrement_like_count : ℕ → ℕ → Tx ℕ
unfolding update_post_row
decrement_like_count now post_id = do
  row ←
      update_post_row now post_id false (λ p. record p { like_count = p.like_count - 1 })
        (λ p. some p.like_count)
  pure (or_zero row)

unfoldable pub increment_comment_count : ℕ → ℕ → Tx Bool
unfolding update_post_row
increment_comment_count now post_id = do
  row ←
      update_post_row now post_id false (λ p. record p { comment_count = p.comment_count + 1 })
        (λ p. some p.id)
  pure (is_some row)

unfoldable pub decrement_comment_count : ℕ → ℕ → Tx Bool
unfolding update_post_row
decrement_comment_count now post_id = do
  row ←
      update_post_row now post_id false (λ p. record p { comment_count = p.comment_count - 1 })
        (λ p. some p.id)
  pure (is_some row)

unfoldable pub set_comment_count : ℕ → ℕ → ℕ → Tx Bool
unfolding update_post_row
set_comment_count now post_id value = do
  row ←
      update_post_row now post_id false (λ p. record p { comment_count = max 0 value })
        (λ p. some p.id)
  pure (is_some row)

unfoldable pub set_blinded : ℕ → ℕ → Tx Bool
unfolding update_post_row
set_blinded now post_id = do
  row ← update_post_row now post_id true (λ p. record p { is_blinded = true }) (λ p. some p.id)
  pure (is_some row)

unfoldable pub unblind : ℕ → ℕ → Tx Bool
unfolding update_post_row
unblind now post_id = do
  row ← update_post_row now post_id true (λ p. record p { is_blinded = false }) (λ p. some p.id)
  pure (is_some row)

unfoldable pub reset_reports : ℕ → ℕ → Tx Bool
unfolding update_post_row
reset_reports now post_id = do
  row ←
      update_post_row now post_id true (λ p. record p { report_count = 0; is_blinded = false })
        (λ p. some p.id)
  pure (is_some row)

-- A post without an author is no target of a report.
unfoldable pub increment_report_count : ℕ → ℕ → Tx (Option ℕ)
unfolding update_one_returning
increment_report_count now post_id =
    update_one_returning Tables.posts
      (λ p. p.id == post_id && is_none p.deleted_at && is_some p.user_id)
      (λ p. record p { report_count = p.report_count + 1; updated_at = now })
      (λ p. some p.report_count)

-- A delta of zero or less changes nothing; `delta` is a natural number here.
unfoldable pub increment_view_count : ℕ → ℕ → ℕ → Tx Bool
unfolding update_post_row
increment_view_count now post_id delta = if delta == 0 then pure true else (do
  row ←
      update_post_row now post_id true (λ p. record p { view_count = p.view_count + delta })
        (λ p. some p.id)
  pure (is_some row))

unfoldable pub soft_delete : ℕ → ℕ → Tx Bool
unfolding update_post_row delete_rows
soft_delete now post_id = do
  row ← update_post_row now post_id true (λ p. record p { deleted_at = some now }) (λ p. some p.id)
  let images = delete_rows Tables.post_images (λ i. i.post_id == post_id)
  if is_some row then images >>= (λ _. pure true) else pure false

unfoldable pub decrement_like_counts_for_users : List ℕ → Tx (Unit {0})
unfolding decrement_counter_by_link_owner
decrement_like_counts_for_users user_ids =
    decrement_counter_by_link_owner Tables.posts (λ p. p.id)
      (λ n p. record p { like_count = p.like_count - n }) Tables.post_likes (λ l. l.target_id)
      (λ l. l.user_id) user_ids
