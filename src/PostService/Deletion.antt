-- ===== src/PostService/Deletion.antt =====
-- The deletion of a post and the counters of the others:
-- app/domain/posts/services/post_service.py.
use puppytalk_be.Base.{
  ℕ, ◌≡◌, Bool, false, ◌&&◌, not, some, where_rows, ◌==◌, is_none, Result, ok, err, exists_row,
}
use puppytalk_be.Errors.{AppError}
use puppytalk_be.Db.Rows.{Db, Post, Comment, Like}
use puppytalk_be.Db.Statements.{update_where}

abbrev live_at : ℕ → Post → Bool
live_at t p = p.id == t && is_none p.deleted_at

abbrev delete_row : ℕ → Post → Post
delete_row now p = record p { updated_at = now; deleted_at = some now }

abbrev undeleted_of : ℕ → Comment → Bool
undeleted_of t c = c.post_id == t && is_none c.deleted_at

abbrev delete_comment_row : ℕ → Comment → Comment
delete_comment_row now c = record c { deleted_at = some now }

record Same (db db' : Db) : Type 0 where
  pub posts : db'.posts ≡ db.posts
  pub comments : db'.comments ≡ db.comments
  pub post_likes : db'.post_likes ≡ db.post_likes
  pub comment_likes : db'.comment_likes ≡ db.comment_likes

record PostDeleted (now t : ℕ) (db db' : Db) : Type 0 where
  pub posts : db'.posts ≡ update_where (live_at t) (delete_row now) db.posts
  pub comments : db'.comments ≡ update_where (undeleted_of t) (delete_comment_row now) db.comments
  pub post_likes : db'.post_likes ≡ where_rows (λ (l : Like). not (l.target_id == t)) db.post_likes
  pub comment_likes : db'.comment_likes ≡ db.comment_likes

-- A deletion that is done leaves the post in no live row, no comment of it undeleted and no like of it;
-- a refused one leaves the posts, the comments and the likes as they are.
abbrev pub IsCascaded : ℕ → Db → Result AppError (Unit {0}) × Db → Type 0
IsCascaded t db (err e, db') =
    (db'.posts ≡ db.posts) × (db'.comments ≡ db.comments) × (db'.post_likes ≡ db.post_likes)
IsCascaded t db (ok u, db') =
    (exists_row (live_at t) db'.posts ≡ false)
    × (exists_row (undeleted_of t) db'.comments ≡ false)
    × (exists_row (λ (l : Like). l.target_id == t) db'.post_likes ≡ false)
