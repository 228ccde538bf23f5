-- ===== src/Likes.antt =====
-- Likes of posts and of comments: app/domain/likes/service.py and app/domain/likes/model.py.
pub mod Links
pub mod Counters
pub mod Consistency
pub mod Replies
pub mod Notifying
pub mod Events
mod Tests
use puppytalk_be.Base.{
  ℕ, Bool, true, false, ◌&&◌, not, Option, none, some, ltb, ◌==◌, is_none, if◌then◌else◌,
}
use puppytalk_be.Errors.{AppError}
use puppytalk_be.Db.Rows.{Db, Like, NotificationKind, like_post, like_comment}
use puppytalk_be.Db.Tx.{Tx, pure, raise, begin, ◌>>=◌, ◌>>◌, raise_if}
use puppytalk_be.Db.Statements.{Table, insert_ignore, delete_rows}
use puppytalk_be.Db.Tables
use puppytalk_be.Posts
use puppytalk_be.Comments
use puppytalk_be.Comments.{CommentMeta}
use puppytalk_be.Notifications.{NotificationEvent, record_notification, Reply, commit_and_publish}

-- `PostLikesRepository.create` and `CommentLikesRepository.create`
create_link : Table Like → ℕ → ℕ → ℕ → Tx Bool
unfolding insert_ignore
create_link links now target_id user_id =
    insert_ignore links (record { target_id = target_id; user_id = user_id; created_at = now })
      (λ l. l.target_id == target_id && l.user_id == user_id)

-- `PostLikesRepository.delete` and `CommentLikesRepository.delete`
delete_link : Table Like → ℕ → ℕ → Tx Bool
unfolding delete_rows
delete_link links target_id user_id = do
  deleted ← delete_rows links (λ l. l.target_id == target_id && l.user_id == user_id)
  pure (ltb 0 deleted)

-- `_LikeNotify`
pub record LikeNotify : Type 0 where
  pub author_id : Option ℕ
  pub kind : NotificationKind
  pub post_id : Option ℕ
  pub comment_id : Option ℕ

-- `_Target`: the link repository, the counter repository and the two guards.
pub record LikeTarget : Type 0 where
  pub links : Table Like
  pub increment_like_count : ℕ → ℕ → Tx ℕ
  pub decrement_like_count : ℕ → ℕ → Tx ℕ
  pub get_like_count : ℕ → Tx ℕ
  pub resolve_for_like : ℕ → ℕ → Tx LikeNotify
  pub ensure_unlikeable : ℕ → Tx (Unit {0})

resolve_post_for_like : ℕ → ℕ → Tx LikeNotify
unfolding Posts.get_visible_post_author
resolve_post_for_like post_id user_id = do
  visible ← Posts.get_visible_post_author post_id (some user_id)
  elim visible [
    | none ↦ raise AppError.post_not_found
    | some v ↦ pure (record {
      author_id = v.author_id;
      kind = like_post;
      post_id = some post_id;
      comment_id = none;
    })
  ]

ensure_post_unlikeable : ℕ → Tx (Unit {0})
unfolding Posts.post_is_visible
ensure_post_unlikeable post_id = do
  visible ← Posts.post_is_visible post_id none
  raise_if (not visible) AppError.post_not_found

resolve_comment_for_like : ℕ → ℕ → Tx LikeNotify
unfolding Comments.get_visible_comment_meta
resolve_comment_for_like comment_id user_id = do
  meta ← Comments.get_visible_comment_meta comment_id (some user_id)
  elim meta [
    | none ↦ raise AppError.comment_not_found
    | some m ↦ pure (record {
      author_id = m.author_id;
      kind = like_comment;
      post_id = some m.post_id;
      comment_id = some comment_id;
    })
  ]

abbrev pub is_deleted_or_missing : Option CommentMeta → Bool
is_deleted_or_missing none = true
is_deleted_or_missing (some m) = not (is_none m.deleted_at)

ensure_comment_unlikeable : ℕ → Tx (Unit {0})
unfolding Comments.get_comment_meta
ensure_comment_unlikeable comment_id = do
  meta ← Comments.get_comment_meta comment_id
  raise_if (is_deleted_or_missing meta) AppError.comment_not_found

-- `_POST`
pub post_target : LikeTarget
post_target = record {
  links = Tables.post_likes;
  increment_like_count = Posts.increment_like_count;
  decrement_like_count = Posts.decrement_like_count;
  get_like_count = Posts.get_like_count;
  resolve_for_like = resolve_post_for_like;
  ensure_unlikeable = ensure_post_unlikeable;
}

-- `_COMMENT`; a comment's counter is changed without `updated_at`.
pub comment_target : LikeTarget
comment_target = record {
  links = Tables.comment_likes;
  increment_like_count = λ now. Comments.increment_like_count;
  decrement_like_count = λ now. Comments.decrement_like_count;
  get_like_count = Comments.get_like_count;
  resolve_for_like = resolve_comment_for_like;
  ensure_unlikeable = ensure_comment_unlikeable;
}

-- `if notify.author_id and notify.author_id != user_id: event = await record(...)`
notify_author : ℕ → ℕ → ℕ → LikeNotify → Tx (Option NotificationEvent)
unfolding record_notification
notify_author nid now user_id notify = elim notify.author_id [
  | none ↦ pure none
  | some author ↦
      if author == user_id
      then pure none
      else (record_notification nid now author notify.kind (some user_id) notify.post_id
            notify.comment_id
          >>= (λ event. pure (some event)))
]

-- The body of `_like`'s transaction.
like_body : LikeTarget → ℕ → ℕ → ℕ → ℕ → Tx ((ℕ × Bool) × Option NotificationEvent)
unfolding create_link notify_author
like_body target nid now target_id user_id = do
  notify ← target.resolve_for_like target_id user_id
  inserted ← create_link target.links now target_id user_id
  if inserted
      then (do
        like_count ← target.increment_like_count now target_id
        event ← notify_author nid now user_id notify
        pure ((like_count, true), event))
      else (do like_count ← target.get_like_count target_id; pure ((like_count, false), none))

-- `_like`: the like count, and whether the like is new.
pub like : LikeTarget → ℕ → ℕ → ℕ → ℕ → Db → Reply (ℕ × Bool) × Db
unfolding like_body
like target nid now target_id user_id =
    commit_and_publish (like_body target nid now target_id user_id)

-- `_unlike`
pub unlike : LikeTarget → ℕ → ℕ → ℕ → Tx ℕ
unfolding delete_link
unlike target now target_id user_id = begin (do
  target.ensure_unlikeable target_id
  deleted ← delete_link target.links target_id user_id
  if deleted then target.decrement_like_count now target_id else target.get_like_count target_id)
