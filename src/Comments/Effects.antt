-- ===== src/Comments/Effects.antt =====
-- What each write of app/domain/comments/service.py does to the posts and the comments.
use puppytalk_be.Base.{
  ℕ, ◌+◌, ◌-◌, ◌≡◌, Bool, true, false, ◌&&◌, Option, none, some, ◌∷◌, map, String, Result, ok, err,
  arith, where_rows, exists_row, ◌==◌, is_none, if◌then◌else◌, ◌⊎◌,
}
use puppytalk_be.Errors.{AppError}
use puppytalk_be.Db.Rows.{Db, Post, Comment}
use puppytalk_be.Db.Statements.{update_where, scalar_one_or_none}
use puppytalk_be.Comments.Service.{create_comment, update_comment, delete_comment}

pub record Kept (db db' : Db) : Type 0 where
  pub posts : db'.posts ≡ db.posts
  pub comments : db'.comments ≡ db.comments

-- The WHERE and SET clauses of the UPDATE statements.
abbrev pub at_post : ℕ → Post → Bool
at_post t p = p.id == t && true

abbrev pub count_up : ℕ → Post → Post
count_up now p = record p { updated_at = now; comment_count = p.comment_count + 1 }

abbrev pub count_down : ℕ → Post → Post
count_down now p = record p { updated_at = now; comment_count = p.comment_count - 1 }

abbrev pub undeleted_at : ℕ → ℕ → Comment → Bool
undeleted_at post_id comment_id c =
    c.id == comment_id && c.post_id == post_id && is_none c.deleted_at

abbrev pub mark_deleted : ℕ → Comment → Comment
mark_deleted now c = record c { deleted_at = some now }

abbrev pub deleted_from : ℕ → Comment → Option ℕ
deleted_from now c = if c.is_blinded then none else some c.post_id

abbrev pub rewrite_content : ℕ → String → Comment → Comment
rewrite_content now content c = record c { content = content; updated_at = now }

abbrev pub new_comment : ℕ → ℕ → ℕ → ℕ → String → Option ℕ → Comment
new_comment new_id now post_id user_id content parent_id = record {
  id = new_id;
  post_id = post_id;
  author_id = some user_id;
  parent_id = parent_id;
  content = content;
  like_count = 0;
  report_count = 0;
  is_blinded = false;
  created_at = now;
  updated_at = now;
  deleted_at = none;
}

pub record Created (new_id now post_id user_id : ℕ) (content : String) (parent_id : Option ℕ)
    (db db' : Db) : Type 0 where
  pub fresh : exists_row (λ (c : Comment). c.id == new_id) db.comments ≡ false
  pub comments :
      db'.comments ≡ new_comment new_id now post_id user_id content parent_id ∷ db.comments
  pub posts : db'.posts ≡ update_where (at_post post_id) (count_up now) db.posts

pub create_effect :
    (new_id nid now post_id user_id : ℕ) (content : String) (parent_id : Option ℕ) (db : Db)
    → let db' = (create_comment new_id nid now post_id user_id content parent_id db).1 in
      Kept db db' ⊎ Created new_id now post_id user_id content parent_id db db'
unfolding create_comment
create_effect new_id nid now post_id user_id content none db = ground arith
create_effect new_id nid now post_id user_id content (some parent) db = ground arith

pub record Rewritten (now post_id comment_id : ℕ) (content : String) (db db' : Db) : Type 0 where
  pub posts : db'.posts ≡ db.posts
  pub comments :
      db'.comments
      ≡ update_where (undeleted_at post_id comment_id) (rewrite_content now content) db.comments

pub update_effect :
    (now post_id comment_id : ℕ) (content : String) (db : Db)
    → let db' = (update_comment now post_id comment_id content db).1 in
      Kept db db' ⊎ Rewritten now post_id comment_id content db db'
unfolding update_comment
update_effect now post_id comment_id content db = ground arith

-- The comment marked, and the count of the post that RETURNING named lowered, if it named one.
pub record Deleted (now post_id comment_id : ℕ) (from : Option ℕ) (db db' : Db) : Type 0 where
  pub comments :
      db'.comments ≡ update_where (undeleted_at post_id comment_id) (mark_deleted now) db.comments
  pub posts : db'.posts ≡ elim from [
    | none ↦ db.posts
    | some pid ↦ update_where (at_post pid) (count_down now) db.posts
  ]

abbrev pub DeleteOutcome : ℕ → ℕ → ℕ → Db → Db → Result AppError (Option ℕ) → Type 0
DeleteOutcome now post_id comment_id db db' (ok from) =
    Kept db db' ⊎ Deleted now post_id comment_id from db db'
DeleteOutcome now post_id comment_id db db' (err e) = Kept db db'

pub delete_effect :
    (now post_id comment_id : ℕ) (db : Db) (returned : Result AppError (Option ℕ))
    → scalar_one_or_none (
        map
          (λ c. deleted_from now (mark_deleted now c))
          (where_rows (undeleted_at post_id comment_id) db.comments))
      ≡ returned
    → DeleteOutcome now post_id comment_id db (delete_comment now post_id comment_id db).1 returned
unfolding delete_comment
delete_effect now post_id comment_id db (err e) h = ground arith
delete_effect now post_id comment_id db (ok none) h = ground arith
delete_effect now post_id comment_id db (ok (some pid)) h = ground arith
