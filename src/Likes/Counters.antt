-- ===== src/Likes/Counters.antt =====
-- What a like and its withdrawal do to the tables: app/domain/likes/service.py.
use puppytalk_be.Base.{
  ℕ, ◌+◌, ◌-◌, ◌≤◌, ◌≡◌, Bool, true, false, ◌&&◌, not, ◌∷◌, arith, where_rows, count_rows,
  exists_row, ◌==◌, ◌⊎◌,
}
use puppytalk_be.Db.Rows.{Db, Like, Post, Comment}
use puppytalk_be.Db.Statements.{update_where}
use puppytalk_be.Posts
use puppytalk_be.Comments
use puppytalk_be.Likes.{
  like, unlike, post_target, comment_target, resolve_post_for_like, resolve_comment_for_like,
  ensure_post_unlikeable, ensure_comment_unlikeable,
}
use puppytalk_be.Likes.Links.{is_link}

-- The tables that likes are about are left as they were.
pub record Untouched (db db' : Db) : Type 0 where
  pub posts : db'.posts ≡ db.posts
  pub comments : db'.comments ≡ db.comments
  pub post_likes : db'.post_likes ≡ db.post_likes
  pub comment_likes : db'.comment_likes ≡ db.comment_likes

abbrev pub new_like : ℕ → ℕ → ℕ → Like
new_like now t u = record { target_id = t; user_id = u; created_at = now }

-- The WHERE and SET clauses of the counters' UPDATE statements.
abbrev pub at_post : ℕ → Post → Bool
at_post t p = p.id == t && true

abbrev pub raise_post : ℕ → Post → Post
raise_post now p = record p { updated_at = now; like_count = p.like_count + 1 }

abbrev pub lower_post : ℕ → Post → Post
lower_post now p = record p { updated_at = now; like_count = p.like_count - 1 }

abbrev pub at_comment : ℕ → Comment → Bool
at_comment t c = c.id == t && true

abbrev pub raise_comment : Comment → Comment
raise_comment c = record c { like_count = c.like_count + 1 }

abbrev pub lower_comment : Comment → Comment
lower_comment c = record c { like_count = c.like_count - 1 }

-- A new link of `u` to the post `t`, and the counter of `t` raised.
pub record PostLiked (now t u : ℕ) (db db' : Db) : Type 0 where
  pub was_new : exists_row (is_link t u) db.post_likes ≡ false
  pub post_likes : db'.post_likes ≡ new_like now t u ∷ db.post_likes
  pub posts : db'.posts ≡ update_where (at_post t) (raise_post now) db.posts
  pub comments : db'.comments ≡ db.comments
  pub comment_likes : db'.comment_likes ≡ db.comment_likes

pub like_post_effect :
    (nid now t u : ℕ) (db : Db)
    → let db' = (like post_target nid now t u db).1 in Untouched db db' ⊎ PostLiked now t u db db'
unfolding like post_target resolve_post_for_like Posts.increment_like_count Posts.get_like_count
like_post_effect nid now t u db = ground arith

-- A new link of `u` to the comment `t`, and the counter of `t` raised, `updated_at` left alone.
pub record CommentLiked (now t u : ℕ) (db db' : Db) : Type 0 where
  pub was_new : exists_row (is_link t u) db.comment_likes ≡ false
  pub comment_likes : db'.comment_likes ≡ new_like now t u ∷ db.comment_likes
  pub comments : db'.comments ≡ update_where (at_comment t) raise_comment db.comments
  pub posts : db'.posts ≡ db.posts
  pub post_likes : db'.post_likes ≡ db.post_likes

pub like_comment_effect :
    (nid now t u : ℕ) (db : Db)
    → let db' = (like comment_target nid now t u db).1 in
      Untouched db db' ⊎ CommentLiked now t u db db'
unfolding like comment_target resolve_comment_for_like Comments.increment_like_count
    Comments.get_like_count
like_comment_effect nid now t u db = ground arith

-- The link of `u` to the post `t` removed, and the counter of `t` lowered.
pub record PostUnliked (now t u : ℕ) (db db' : Db) : Type 0 where
  pub had_link : 1 ≤ count_rows (is_link t u) db.post_likes
  pub post_likes : db'.post_likes ≡ where_rows (λ l. not (is_link t u l)) db.post_likes
  pub posts : db'.posts ≡ update_where (at_post t) (lower_post now) db.posts
  pub comments : db'.comments ≡ db.comments
  pub comment_likes : db'.comment_likes ≡ db.comment_likes

-- The DELETE of a link that is not there.
pub record NoLink (t u : ℕ) (db db' : Db) : Type 0 where
  pub had_none : count_rows (is_link t u) db.post_likes ≡ 0
  pub post_likes : db'.post_likes ≡ where_rows (λ l. not (is_link t u l)) db.post_likes
  pub posts : db'.posts ≡ db.posts
  pub comments : db'.comments ≡ db.comments
  pub comment_likes : db'.comment_likes ≡ db.comment_likes

pub unlike_post_effect :
    (now t u : ℕ) (db : Db)
    → let db' = (unlike post_target now t u db).1 in
      Untouched db db' ⊎ PostUnliked now t u db db' ⊎ NoLink t u db db'
unfolding unlike post_target ensure_post_unlikeable Posts.decrement_like_count Posts.get_like_count
unlike_post_effect now t u db = ground arith

-- The link of `u` to the comment `t` removed, and the counter of `t` lowered.
pub record CommentUnliked (t u : ℕ) (db db' : Db) : Type 0 where
  pub had_link : 1 ≤ count_rows (is_link t u) db.comment_likes
  pub comment_likes : db'.comment_likes ≡ where_rows (λ l. not (is_link t u l)) db.comment_likes
  pub comments : db'.comments ≡ update_where (at_comment t) lower_comment db.comments
  pub posts : db'.posts ≡ db.posts
  pub post_likes : db'.post_likes ≡ db.post_likes

-- The DELETE of a link that is not there.
pub record NoCommentLink (t u : ℕ) (db db' : Db) : Type 0 where
  pub had_none : count_rows (is_link t u) db.comment_likes ≡ 0
  pub comment_likes : db'.comment_likes ≡ where_rows (λ l. not (is_link t u l)) db.comment_likes
  pub posts : db'.posts ≡ db.posts
  pub comments : db'.comments ≡ db.comments
  pub post_likes : db'.post_likes ≡ db.post_likes

pub unlike_comment_effect :
    (now t u : ℕ) (db : Db)
    → let db' = (unlike comment_target now t u db).1 in
      Untouched db db' ⊎ CommentUnliked t u db db' ⊎ NoCommentLink t u db db'
unfolding unlike comment_target ensure_comment_unlikeable Comments.decrement_like_count
    Comments.get_like_count
unlike_comment_effect now t u db = ground arith
