-- ===== src/Comments.antt =====
-- The data access of comments: app/domain/comments/repository.py.
pub mod Service
pub mod Moderation
pub mod Effects
pub mod Counts
pub mod Recount
pub mod Resync
pub mod Replies
mod Tests
use puppytalk_be.Base.{
  or_zero, ℕ, ◌+◌, ◌-◌, Bool, true, false, ◌&&◌, ◌||◌, not, Option, none, some, List, map, String,
  where_rows, count_rows, exists_row, ◌==◌, eq_some, is_none, if◌then◌else◌,
}
use puppytalk_be.Db.Rows.{Db, Comment}
use puppytalk_be.Db.Tx.{Tx, pure, query, ◌>>=◌}
use puppytalk_be.Db.Statements.{
  update_one_returning, select_one_or_none, add_row, update_rows, decrement_counter_by_link_owner,
}
use puppytalk_be.Db.Tables
use puppytalk_be.Posts.{author_not_blocked, is_some}

-- `CommentMeta`
pub record CommentMeta : Type 0 where
  pub post_id : ℕ
  pub parent_id : Option ℕ
  pub author_id : Option ℕ
  pub deleted_at : Option ℕ

-- Neither deleted nor blinded.
abbrev pub is_alive : Comment → Bool
is_alive c = is_none c.deleted_at && not c.is_blinded

-- `_reply_visible_conditions`
abbrev pub reply_visible : Option ℕ → Db → Comment → Bool
reply_visible viewer db c = is_alive c && author_not_blocked c.author_id viewer db

-- `db.add(Comment(...))` and `flush`; the id is the one that `new_uuid7` gave.
unfoldable pub create_comment : ℕ → ℕ → ℕ → ℕ → String → Option ℕ → Tx Comment
unfolding add_row
create_comment new_id now post_id user_id content parent_id =
    let c : Comment = record {
      id = new_id;
      post_id = post_id;
      author_id = some user_id;
      parent_id = parent_id;
      content = content;
      like_count = 0;
      report_count = 0;
      is_blinded = false;
      created_at = now;
      updated_at = now;
      deleted_at = none;
    } in
    add_row Tables.comments c (λ r. r.id == new_id) >>= (λ _. pure c)

abbrev pub comment_meta : Comment → CommentMeta
comment_meta c = record {
  post_id = c.post_id;
  parent_id = c.parent_id;
  author_id = c.author_id;
  deleted_at = c.deleted_at;
}

-- `_select_comment_meta`
unfoldable pub select_comment_meta : ℕ → (Db → Comment → Bool) → Tx (Option CommentMeta)
unfolding select_one_or_none
select_comment_meta comment_id extra =
    select_one_or_none
      (λ db. map comment_meta (where_rows (λ c. c.id == comment_id && extra db c) db.comments))

unfoldable pub get_comment_meta : ℕ → Tx (Option CommentMeta)
unfolding select_comment_meta
get_comment_meta comment_id = select_comment_meta comment_id (λ db c. true)

unfoldable pub get_visible_root_meta : ℕ → Tx (Option CommentMeta)
unfolding select_comment_meta
get_visible_root_meta comment_id = select_comment_meta comment_id (λ db c. not c.is_blinded)

unfoldable pub get_visible_comment_meta : ℕ → Option ℕ → Tx (Option CommentMeta)
unfolding select_comment_meta
get_visible_comment_meta comment_id viewer = select_comment_meta comment_id (reply_visible viewer)

unfoldable pub update_comment : ℕ → ℕ → ℕ → String → Tx Bool
unfolding update_one_returning
update_comment now post_id comment_id content = do
  row ←
      update_one_returning Tables.comments
        (λ c. c.id == comment_id && c.post_id == post_id && is_none c.deleted_at)
        (λ c. record c { content = content; updated_at = now }) (λ c. some c.id)
  pure (is_some row)

-- RETURNING is `CASE WHEN NOT is_blinded THEN post_id END`.
unfoldable pub delete_comment : ℕ → ℕ → ℕ → Tx (Option ℕ)
unfolding update_one_returning
delete_comment now post_id comment_id =
    update_one_returning Tables.comments
      (λ c. c.id == comment_id && c.post_id == post_id && is_none c.deleted_at)
      (λ c. record c { deleted_at = some now }) (λ c. if c.is_blinded then none else some c.post_id)

unfoldable pub soft_delete_by_post : ℕ → ℕ → Tx (Unit {0})
unfolding update_rows
soft_delete_by_post now post_id =
    update_rows Tables.comments (λ c. c.post_id == post_id && is_none c.deleted_at)
      (λ c. record c { deleted_at = some now })

unfoldable pub get_like_count : ℕ → Tx ℕ
unfolding select_one_or_none
get_like_count comment_id = do
  count ←
      select_one_or_none
        (λ db. map (λ c. c.like_count) (where_rows (λ c. c.id == comment_id) db.comments))
  pure (or_zero count)

unfoldable pub increment_report_count : ℕ → Tx (Option ℕ)
unfolding update_one_returning
increment_report_count comment_id =
    update_one_returning Tables.comments
      (λ c. c.id == comment_id && is_none c.deleted_at && is_some c.author_id)
      (λ c. record c { report_count = c.report_count + 1 }) (λ c. some c.report_count)

unfoldable pub blind_if_visible : ℕ → ℕ → Tx (Option ℕ)
unfolding update_one_returning
blind_if_visible now comment_id =
    update_one_returning Tables.comments
      (λ c. c.id == comment_id && is_none c.deleted_at && not c.is_blinded)
      (λ c. record c { is_blinded = true; updated_at = now }) (λ c. some c.post_id)

unfoldable pub unblind_if_blinded : ℕ → ℕ → Tx (Option ℕ)
unfolding update_one_returning
unblind_if_blinded now comment_id =
    update_one_returning Tables.comments
      (λ c. c.id == comment_id && is_none c.deleted_at && c.is_blinded)
      (λ c. record c { is_blinded = false; updated_at = now }) (λ c. some c.post_id)

-- `_update_comment`: `alive` adds the guard, and `touch` holds the time for `updated_at`.
unfoldable pub update_comment_row :
    {V : Type 0} → ℕ → Bool → Option ℕ → (Comment → Comment) → (Comment → Option V) → Tx (Option V)
unfolding update_one_returning
update_comment_row comment_id alive touch values returning =
    update_one_returning Tables.comments
      (λ c. c.id == comment_id && (if alive then is_none c.deleted_at else true))
      (λ c. elim touch [ none ↦ values c | some now ↦ values (record c { updated_at = now }) ])
      returning

unfoldable pub reset_reports : ℕ → ℕ → Tx Bool
unfolding update_comment_row
reset_reports now comment_id = do
  row ←
      update_comment_row comment_id true (some now) (λ c. record c { report_count = 0 })
        (λ c. some c.id)
  pure (is_some row)

unfoldable pub increment_like_count : ℕ → Tx ℕ
unfolding update_comment_row
increment_like_count comment_id = do
  row ←
      update_comment_row comment_id false none (λ c. record c { like_count = c.like_count + 1 })
        (λ c. some c.like_count)
  pure (or_zero row)

unfoldable pub decrement_like_count : ℕ → Tx ℕ
unfolding update_comment_row
decrement_like_count comment_id = do
  row ←
      update_comment_row comment_id false none (λ c. record c { like_count = c.like_count - 1 })
        (λ c. some c.like_count)
  pure (or_zero row)

-- The condition of `count_visible_for_post`: the comment is alive, and it is a root or the parent
-- that the LEFT JOIN finds is alive.
abbrev pub counts_for : ℕ → List Comment → Comment → Bool
counts_for post_id comments c =
    c.post_id == post_id
    && is_alive c
    && (is_none c.parent_id
        || exists_row (λ parent. eq_some c.parent_id parent.id && is_alive parent) comments)

unfoldable pub count_visible_for_post : ℕ → Tx ℕ
count_visible_for_post post_id =
    query (λ db. count_rows (counts_for post_id db.comments) db.comments)

unfoldable pub decrement_like_counts_for_users : List ℕ → Tx (Unit {0})
unfolding decrement_counter_by_link_owner
decrement_like_counts_for_users user_ids =
    decrement_counter_by_link_owner Tables.comments (λ c. c.id)
      (λ n c. record c { like_count = c.like_count - n }) Tables.comment_likes (λ l. l.target_id)
      (λ l. l.user_id) user_ids
