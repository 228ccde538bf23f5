-- ===== src/Comments/Moderation.antt =====
-- `CommentModeration`: app/domain/comments/service.py. Its callers, the admin and the report service,
-- run it inside their own transaction.
use puppytalk_be.Base.{ℕ, Bool, true, false, Option, none, some, is_none}
use puppytalk_be.Db.Tx.{Tx, pure, ◌>>=◌}
use puppytalk_be.Posts
use puppytalk_be.Comments
use puppytalk_be.Comments.{CommentMeta}

-- `_resync_count`
unfoldable pub resync_count : ℕ → ℕ → Tx (Unit {0})
unfolding Comments.count_visible_for_post Posts.set_comment_count
resync_count now post_id = do
  value ← Comments.count_visible_for_post post_id
  Posts.set_comment_count now post_id value >>= (λ updated. pure tt)

abbrev pub is_live_meta : Option CommentMeta → Bool
is_live_meta none = false
is_live_meta (some m) = is_none m.deleted_at

-- `_is_alive`
unfoldable pub is_alive : ℕ → Tx Bool
unfolding Comments.get_comment_meta
is_alive comment_id = do meta ← Comments.get_comment_meta comment_id; pure (is_live_meta meta)

-- `if post_id is not None: resync, return True; else: return _is_alive`
unfoldable pub settle : ℕ → ℕ → Option ℕ → Tx Bool
unfolding resync_count is_alive
settle now comment_id (some post_id) = resync_count now post_id >>= (λ done. pure true)
settle now comment_id none = is_alive comment_id

unfoldable pub set_blinded : ℕ → ℕ → Tx Bool
unfolding Comments.blind_if_visible settle
set_blinded now comment_id = do
  post_id ← Comments.blind_if_visible now comment_id
  settle now comment_id post_id

unfoldable pub unblind : ℕ → ℕ → Tx Bool
unfolding Comments.unblind_if_blinded settle
unblind now comment_id = do
  post_id ← Comments.unblind_if_blinded now comment_id
  settle now comment_id post_id

unfoldable pub reset_reports : ℕ → ℕ → Tx Bool
unfolding unblind Comments.reset_reports
reset_reports now comment_id =
    unblind now comment_id >>= (λ done. Comments.reset_reports now comment_id)

unfoldable pub increment_report_count : ℕ → Tx (Option ℕ)
unfolding Comments.increment_report_count
increment_report_count comment_id = Comments.increment_report_count comment_id
