-- ===== src/Comments/Service.antt =====
-- `CommentService`'s writes: app/domain/comments/service.py.
use puppytalk_be.Base.{
  ℕ, Bool, true, not, ◌||◌, Option, none, some, String, ◌==◌, is_none, if◌then◌else◌,
}
use puppytalk_be.Errors.{AppError}
use puppytalk_be.Db.Rows.{Db, comment_on_post}
use puppytalk_be.Db.Tx.{Tx, pure, raise, begin, ◌>>=◌, ◌>>◌, raise_if}
use puppytalk_be.Posts
use puppytalk_be.Posts.{VisiblePost}
use puppytalk_be.Comments
use puppytalk_be.Comments.{CommentMeta}
use puppytalk_be.Notifications.{NotificationEvent, record_notification, Reply, commit_and_publish}

-- A parent that does not exist, is deleted, belongs to another post or is itself a reply.
abbrev pub is_no_parent : ℕ → Option CommentMeta → Bool
is_no_parent post_id none = true
is_no_parent post_id (some m) =
    not (is_none m.deleted_at) || not (m.post_id == post_id) || not (is_none m.parent_id)

check_parent : ℕ → Option ℕ → Tx (Unit {0})
unfolding Comments.get_comment_meta
check_parent post_id none = pure tt
check_parent post_id (some parent) = do
  meta ← Comments.get_comment_meta parent
  raise_if (is_no_parent post_id meta) AppError.comment_not_found

-- `if post_author_id and post_author_id != user_id: event = await NotificationService.record(...)`
notify_post_author : ℕ → ℕ → ℕ → ℕ → ℕ → Option ℕ → Tx (Option NotificationEvent)
unfolding record_notification
notify_post_author nid now post_id user_id comment_id none = pure none
notify_post_author nid now post_id user_id comment_id (some author) =
    if author == user_id
    then pure none
    else (record_notification nid now author comment_on_post (some user_id) (some post_id)
          (some comment_id)
        >>= (λ event. pure (some event)))

require_visible : Option VisiblePost → Tx VisiblePost
require_visible none = raise AppError.post_not_found
require_visible (some v) = pure v

-- The transaction of `create_comment`; `new_id` and `nid` are the ids that `new_uuid7` gives to the
-- comment and to the notification.
create_body : ℕ → ℕ → ℕ → ℕ → ℕ → String → Option ℕ → Tx (ℕ × Option NotificationEvent)
unfolding Posts.get_visible_post_author require_visible check_parent Comments.create_comment
    Posts.increment_comment_count notify_post_author
create_body new_id nid now post_id user_id content parent_id = do
  found ← Posts.get_visible_post_author post_id (some user_id)
  visible ← require_visible found
  check_parent post_id parent_id
  comment ← Comments.create_comment new_id now post_id user_id content parent_id
  counted ← Posts.increment_comment_count now post_id
  event ← notify_post_author nid now post_id user_id comment.id visible.author_id
  pure (comment.id, event)

unfoldable pub create_comment : ℕ → ℕ → ℕ → ℕ → ℕ → String → Option ℕ → Db → Reply ℕ × Db
unfolding create_body
create_comment new_id nid now post_id user_id content parent_id =
    commit_and_publish (create_body new_id nid now post_id user_id content parent_id)

unfoldable pub update_comment : ℕ → ℕ → ℕ → String → Tx (Unit {0})
unfolding Comments.update_comment
update_comment now post_id comment_id content = begin (do
  updated ← Comments.update_comment now post_id comment_id content
  raise_if (not updated) AppError.comment_not_found)

-- Missing, on another post, or not deleted.
abbrev pub is_not_deleted_here : ℕ → Option CommentMeta → Bool
is_not_deleted_here post_id none = true
is_not_deleted_here post_id (some m) = not (m.post_id == post_id) || is_none m.deleted_at

after_delete : ℕ → ℕ → ℕ → Option ℕ → Tx (Unit {0})
unfolding Posts.decrement_comment_count Comments.get_comment_meta
after_delete now post_id comment_id (some deleted_from) =
    Posts.decrement_comment_count now deleted_from >>= (λ counted. pure tt)
after_delete now post_id comment_id none = do
  meta ← Comments.get_comment_meta comment_id
  raise_if (is_not_deleted_here post_id meta) AppError.comment_not_found

unfoldable pub delete_comment : ℕ → ℕ → ℕ → Tx (Unit {0})
unfolding Comments.delete_comment after_delete
delete_comment now post_id comment_id = begin (do
  deleted_from ← Comments.delete_comment now post_id comment_id
  after_delete now post_id comment_id deleted_from)
