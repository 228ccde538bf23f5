-- ===== src/Db/Rows.antt =====
-- The tables as lists of rows: app/domain/posts/model.py, app/domain/comments/model.py,
-- app/domain/likes/model.py, app/domain/users/model.py, app/domain/notifications/model.py,
-- app/domain/reports/model.py and app/domain/chat/model.py.
-- An id is its 128-bit integer, an instant a number of microseconds, NULL is `none`.
use puppytalk_be.Redis.{UserStatus}
use puppytalk_be.Base.{ℕ, String, Bool, Option, List}

pub record Post : Type 0 where
  pub id : ℕ
  pub user_id : Option ℕ
  pub title : String
  pub content : String
  pub category_id : Option ℕ
  pub view_count : ℕ
  pub like_count : ℕ
  pub comment_count : ℕ
  pub report_count : ℕ
  pub is_blinded : Bool
  pub created_at : ℕ
  pub updated_at : ℕ
  pub deleted_at : Option ℕ
  pub version : ℕ

pub record Comment : Type 0 where
  pub id : ℕ
  pub post_id : ℕ
  pub author_id : Option ℕ
  pub parent_id : Option ℕ
  pub content : String
  pub like_count : ℕ
  pub report_count : ℕ
  pub is_blinded : Bool
  pub created_at : ℕ
  pub updated_at : ℕ
  pub deleted_at : Option ℕ

-- A row of `post_likes` or `comment_likes`; `target_id` is its `post_id` or `comment_id`.
pub record Like : Type 0 where
  pub target_id : ℕ
  pub user_id : ℕ
  pub created_at : ℕ

pub record PostImage : Type 0 where
  pub id : ℕ
  pub post_id : ℕ
  pub image_id : ℕ
  pub created_at : ℕ

pub record UserBlock : Type 0 where
  pub blocker_id : ℕ
  pub blocked_id : ℕ
  pub created_at : ℕ

-- app/common/enums.py
pub data NotificationKind : Type 0 where
  comment_on_post like_post like_comment : NotificationKind

pub record Notification : Type 0 where
  pub id : ℕ
  pub user_id : ℕ
  pub kind : NotificationKind
  pub actor_id : Option ℕ
  pub post_id : Option ℕ
  pub comment_id : Option ℕ
  pub read_at : Option ℕ
  pub created_at : ℕ

pub data TargetType : Type 0 where
  post comment : TargetType

pub record Report : Type 0 where
  pub id : ℕ
  pub reporter_id : ℕ
  pub target_type : TargetType
  pub target_id : ℕ
  pub reason : Option String
  pub created_at : ℕ
  pub deleted_at : Option ℕ

-- `email` and `nickname` are lists of code points; the hash of the password is left out.
pub record User : Type 0 where
  pub id : ℕ
  pub email : List ℕ
  pub nickname : List ℕ
  pub profile_image_id : Option ℕ
  pub status : UserStatus
  pub created_at : ℕ
  pub updated_at : ℕ
  pub deleted_at : Option ℕ

pub record ChatRoom : Type 0 where
  pub id : ℕ
  pub user1_id : ℕ
  pub user2_id : ℕ
  pub created_at : ℕ
  pub updated_at : ℕ

pub record ChatMessage : Type 0 where
  pub id : ℕ
  pub room_id : ℕ
  pub sender_id : ℕ
  pub content : String
  pub is_read : Bool
  pub created_at : ℕ

pub record Db : Type 0 where
  pub posts : List Post
  pub comments : List Comment
  pub post_likes : List Like
  pub comment_likes : List Like
  pub post_images : List PostImage
  pub user_blocks : List UserBlock
  pub notifications : List Notification
  pub reports : List Report
  pub users : List User
  pub chat_rooms : List ChatRoom
  pub chat_messages : List ChatMessage
