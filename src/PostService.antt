-- ===== src/PostService.antt =====
-- `PostService.delete_post`: app/domain/posts/services/post_service.py, over the posts, the comments
-- and the likes.
pub mod Deletion
mod Tests
use puppytalk_be.Base.{ℕ, Bool, not, ◌==◌}
use puppytalk_be.Errors.{AppError}
use puppytalk_be.Db.Rows.{Db}
use puppytalk_be.Db.Tx.{Tx, pure, begin, ◌>>=◌, ◌>>◌, raise_if}
use puppytalk_be.Db.Statements.{delete_rows}
use puppytalk_be.Db.Tables
use puppytalk_be.Posts
use puppytalk_be.Comments

-- `PostLikesRepository.delete_by_post_id`
delete_by_post_id : ℕ → Tx ℕ
unfolding delete_rows
delete_by_post_id post_id = delete_rows Tables.post_likes (λ l. l.target_id == post_id)

pub delete_post : ℕ → ℕ → Tx (Unit {0})
unfolding Posts.soft_delete Comments.soft_delete_by_post delete_by_post_id
delete_post now post_id = begin (do
  deleted ← Posts.soft_delete now post_id
  raise_if (not deleted) AppError.post_not_found
  Comments.soft_delete_by_post now post_id
  delete_by_post_id post_id >>= (λ n. pure tt))
