-- ===== src/Likes/Consistency.antt =====
-- The like counters of app/domain/likes/service.py agree with the link rows.
use puppytalk_be.Base.{ℕ, ◌≡◌, not, none, List, ◌∷◌, arith, where_rows, inl, inr, All}
use puppytalk_be.Db.Rows.{Db, Like, Post, Comment}
use puppytalk_be.Db.Laws.{All-update_where, All-imp}
use puppytalk_be.Likes.{like, unlike, post_target, comment_target}
use puppytalk_be.Likes.Links.{
  is_link, likes_of, HasUniqueLinks, count-is_link, likes_of-delete, where_rows-HasUniqueLinks,
}
use puppytalk_be.Likes.Counters.{
  Untouched, new_like, at_post, raise_post, lower_post, at_comment, raise_comment, lower_comment,
  PostLiked, CommentLiked, PostUnliked, CommentUnliked, NoLink, NoCommentLink, like_post_effect,
  like_comment_effect, unlike_post_effect, unlike_comment_effect,
}

-- A deleted post has lost its links and keeps its last count.
abbrev pub PostCounted : List Like → Post → Type 0
PostCounted links p = p.deleted_at ≡ none → p.like_count ≡ likes_of links p.id

abbrev pub CommentCounted : List Like → Comment → Type 0
CommentCounted links c = c.like_count ≡ likes_of links c.id

pub record IsConsistent (db : Db) : Type 0 where
  pub posts : All (PostCounted db.post_likes) db.posts
  pub comments : All (CommentCounted db.comment_likes) db.comments
  pub post_keys : HasUniqueLinks db.post_likes
  pub comment_keys : HasUniqueLinks db.comment_likes

pub Untouched-IsConsistent : (db db' : Db) → Untouched db db' → IsConsistent db → IsConsistent db'
Untouched-IsConsistent db db' s h = record {
  posts = rw (s.posts, s.post_likes) h.posts;
  comments = rw (s.comments, s.comment_likes) h.comments;
  post_keys = rw s.post_likes h.post_keys;
  comment_keys = rw s.comment_likes h.comment_keys;
}

-- In what follows the counter of one row and the number of its links change together.
PostLiked-IsConsistent :
    (now t u : ℕ) (db db' : Db) → PostLiked now t u db db' → IsConsistent db → IsConsistent db'
PostLiked-IsConsistent now t u db db' s h = record {
  posts =
      rw (s.posts, s.post_likes)
        (All-update_where (PostCounted db.post_likes)
          (PostCounted (new_like now t u ∷ db.post_likes)) (at_post t) (raise_post now)
          (λ p counted. ground (arith, counted)) db.posts h.posts);
  comments = rw (s.comments, s.comment_likes) h.comments;
  post_keys = rw s.post_likes (s.was_new, h.post_keys);
  comment_keys = rw s.comment_likes h.comment_keys;
}

CommentLiked-IsConsistent :
    (now t u : ℕ) (db db' : Db) → CommentLiked now t u db db' → IsConsistent db → IsConsistent db'
CommentLiked-IsConsistent now t u db db' s h = record {
  posts = rw (s.posts, s.post_likes) h.posts;
  comments =
      rw (s.comments, s.comment_likes)
        (All-update_where (CommentCounted db.comment_likes)
          (CommentCounted (new_like now t u ∷ db.comment_likes)) (at_comment t) raise_comment
          (λ c counted. ground arith) db.comments h.comments);
  post_keys = rw s.post_likes h.post_keys;
  comment_keys = rw s.comment_likes (s.was_new, h.comment_keys);
}

abbrev without : ℕ → ℕ → List Like → List Like
without t u links = where_rows (λ l. not (is_link t u l)) links

PostUnliked-IsConsistent :
    (now t u : ℕ) (db db' : Db) → PostUnliked now t u db db' → IsConsistent db → IsConsistent db'
PostUnliked-IsConsistent now t u db db' s h = record {
  posts =
      rw (s.posts, s.post_likes)
        (All-update_where (PostCounted db.post_likes) (PostCounted (without t u db.post_likes))
          (at_post t) (lower_post now)
          (λ p counted. ground (
            arith,
            counted,
            s.had_link,
            likes_of-delete t u p.id db.post_likes,
            count-is_link t u db.post_likes h.post_keys,
          ))
          db.posts h.posts);
  comments = rw (s.comments, s.comment_likes) h.comments;
  post_keys = rw s.post_likes (where_rows-HasUniqueLinks _ db.post_likes h.post_keys);
  comment_keys = rw s.comment_likes h.comment_keys;
}

CommentUnliked-IsConsistent :
    (t u : ℕ) (db db' : Db) → CommentUnliked t u db db' → IsConsistent db → IsConsistent db'
CommentUnliked-IsConsistent t u db db' s h = record {
  posts = rw (s.posts, s.post_likes) h.posts;
  comments =
      rw (s.comments, s.comment_likes)
        (All-update_where (CommentCounted db.comment_likes)
          (CommentCounted (without t u db.comment_likes)) (at_comment t) lower_comment
          (λ c counted. ground (
            arith,
            s.had_link,
            likes_of-delete t u c.id db.comment_likes,
            count-is_link t u db.comment_likes h.comment_keys,
          ))
          db.comments h.comments);
  post_keys = rw s.post_likes h.post_keys;
  comment_keys = rw s.comment_likes (where_rows-HasUniqueLinks _ db.comment_likes h.comment_keys);
}

-- A DELETE that finds no link changes no count.
NoLink-IsConsistent :
    (t u : ℕ) (db db' : Db) → NoLink t u db db' → IsConsistent db → IsConsistent db'
NoLink-IsConsistent t u db db' s h = record {
  posts =
      rw (s.posts, s.post_likes)
        (All-imp (PostCounted db.post_likes) (PostCounted (without t u db.post_likes))
          (λ p counted. ground (arith, counted, s.had_none, likes_of-delete t u p.id db.post_likes))
          db.posts h.posts);
  comments = rw (s.comments, s.comment_likes) h.comments;
  post_keys = rw s.post_likes (where_rows-HasUniqueLinks _ db.post_likes h.post_keys);
  comment_keys = rw s.comment_likes h.comment_keys;
}

NoCommentLink-IsConsistent :
    (t u : ℕ) (db db' : Db) → NoCommentLink t u db db' → IsConsistent db → IsConsistent db'
NoCommentLink-IsConsistent t u db db' s h = record {
  posts = rw (s.posts, s.post_likes) h.posts;
  comments =
      rw (s.comments, s.comment_likes)
        (All-imp (CommentCounted db.comment_likes) (CommentCounted (without t u db.comment_likes))
          (λ c counted. ground (arith, s.had_none, likes_of-delete t u c.id db.comment_likes))
          db.comments h.comments);
  post_keys = rw s.post_likes h.post_keys;
  comment_keys = rw s.comment_likes (where_rows-HasUniqueLinks _ db.comment_likes h.comment_keys);
}

-- Each like and each withdrawal, of a post or of a comment, whether it is answered, refused or
-- rolled back, keeps the counter of every live post and of every comment equal to the number of its
-- links, and the links unique.
pub likes_keep_counters :
    (nid now t u : ℕ) (db : Db)
    → IsConsistent db
    → IsConsistent (like post_target nid now t u db).1
      × IsConsistent (like comment_target nid now t u db).1
      × IsConsistent (unlike post_target now t u db).1
      × IsConsistent (unlike comment_target now t u db).1
likes_keep_counters nid now t u db h = (
  elim (like_post_effect nid now t u db) [
    | inl s ↦ Untouched-IsConsistent db _ s h
    | inr s ↦ PostLiked-IsConsistent now t u db _ s h
  ],
  elim (like_comment_effect nid now t u db) [
    | inl s ↦ Untouched-IsConsistent db _ s h
    | inr s ↦ CommentLiked-IsConsistent now t u db _ s h
  ],
  elim (unlike_post_effect now t u db) [
    | inl s ↦ Untouched-IsConsistent db _ s h
    | inr (inl s) ↦ PostUnliked-IsConsistent now t u db _ s h
    | inr (inr s) ↦ NoLink-IsConsistent t u db _ s h
  ],
  elim (unlike_comment_effect now t u db) [
    | inl s ↦ Untouched-IsConsistent db _ s h
    | inr (inl s) ↦ CommentUnliked-IsConsistent t u db _ s h
    | inr (inr s) ↦ NoCommentLink-IsConsistent t u db _ s h
  ],
)
