-- ===== src/Likes/Events.antt =====
-- The notifications of likes: app/domain/likes/service.py with
-- app/domain/notifications/service.py.
use puppytalk_be.Base.{
  ℕ, ◌≡◌, refl, ap, Bool, true, false, ◌&&◌, ◌||◌, Option, none, some, arith, Result, ok, err, map,
  where_rows, exists_row, eq_some, is_none, ◌==◌, ==_refl,
}
use puppytalk_be.Errors.{AppError}
use puppytalk_be.Db.Rows.{Db, Post}
use puppytalk_be.Db.Statements.{scalar_one_or_none}
use puppytalk_be.Db.Laws.{select-exists}
use puppytalk_be.Notifications.{NotificationEvent}
use puppytalk_be.Posts
use puppytalk_be.Posts.{VisiblePost, post_visible}
use puppytalk_be.Comments
use puppytalk_be.Comments.{CommentMeta, comment_meta, reply_visible}
use puppytalk_be.Likes.{
  like, post_target, comment_target, resolve_post_for_like, resolve_comment_for_like,
}
use puppytalk_be.Likes.Links.{is_link}
use puppytalk_be.Likes.Notifying.{
  PublishesCommitted, is_unnotified, IsForAuthor, Notifies, post_by, comment_by,
}

-- What a SELECT of one row read.
abbrev Reads : {V : Type 0} → (V → Type 0) → Result AppError (Option V) → Type 0
Reads P (err x) = false ≡ true
Reads P (ok none) = false ≡ true
Reads P (ok (some v)) = P v

-- The SELECTs of the guards of a like.
abbrev selected_post : ℕ → ℕ → Db → Result AppError (Option VisiblePost)
selected_post t u db = scalar_one_or_none (
    map some (
      map (λ (p : Post). record { author_id = p.user_id })
        (where_rows (λ p. p.id == t && post_visible (some u) db p) db.posts)))

abbrev selected_comment : ℕ → ℕ → Db → Result AppError (Option CommentMeta)
selected_comment t u db = scalar_one_or_none (
    map some
      (map comment_meta (where_rows (λ c. c.id == t && reply_visible (some u) db c) db.comments)))

module _ (nid now t u : ℕ) (db : Db) where
  post_refused :
      (x : AppError)
      → (like post_target nid now t u db).0.result ≡ err x
      → (like post_target nid now t u db).0.published ≡ none
  unfolding like post_target resolve_post_for_like Posts.increment_like_count Posts.get_like_count
  post_refused x h = ground arith

  post_again :
      (n : ℕ)
      → (like post_target nid now t u db).0.result ≡ ok (n, false)
      → ((like post_target nid now t u db).0.published ≡ none)
        × (exists_row (is_link t u) db.post_likes ≡ true)
  unfolding like post_target resolve_post_for_like Posts.increment_like_count Posts.get_like_count
  post_again n h = ground arith

  post_new :
      (n : ℕ)
      → (like post_target nid now t u db).0.result ≡ ok (n, true)
      → exists_row (is_link t u) db.post_likes ≡ false
  unfolding like post_target resolve_post_for_like Posts.increment_like_count Posts.get_like_count
  post_new n h = ground arith

  post_told :
      (n : ℕ) (e : NotificationEvent) (r : Result AppError (Option VisiblePost))
      → selected_post t u db ≡ r
      → (like post_target nid now t u db).0.result ≡ ok (n, true)
      → (like post_target nid now t u db).0.published ≡ some e
      → Reads
          (λ (v : VisiblePost).
            (v.author_id ≡ some e.recipient_user_id)
            × ((e.recipient_user_id == u) ≡ false)
            × (e.actor_id ≡ some u))
          r
  unfolding like post_target resolve_post_for_like Posts.increment_like_count Posts.get_like_count
  post_told n e (err x) s h p = ground arith
  post_told n e (ok none) s h p = ground arith
  post_told n e (ok (some v)) s h p = ground arith

  post_untold :
      (n : ℕ) (r : Result AppError (Option VisiblePost))
      → selected_post t u db ≡ r
      → (like post_target nid now t u db).0.result ≡ ok (n, true)
      → (like post_target nid now t u db).0.published ≡ none
      → Reads (λ (v : VisiblePost). (is_none v.author_id || eq_some v.author_id u) ≡ true) r
  unfolding like post_target resolve_post_for_like Posts.increment_like_count Posts.get_like_count
  post_untold n (err x) s h p = ground arith
  post_untold n (ok none) s h p = ground arith
  post_untold n (ok (some v)) s h p = ground arith

  post_author :
      (test : Option ℕ → Bool) (v : VisiblePost)
      → selected_post t u db ≡ ok (some v)
      → test v.author_id ≡ true
      → post_by t db test ≡ true
  post_author test v s h =
      select-exists (λ p. p.id == t && post_visible (some u) db p)
        (λ (p : Post). record { author_id = p.user_id }) v (λ r. r.id == t && test r.user_id)
        (λ r c e.
          let left : (r.id == t) ≡ true = ground (arith, c) in
          let same : r.user_id ≡ v.author_id = ap (λ (x : VisiblePost). x.author_id) e in
          rw (left, same) h)
        db.posts s

  post-IsForAuthor :
      (n : ℕ) (r : Result AppError (Option VisiblePost)) (published : Option NotificationEvent)
      → selected_post t u db ≡ r
      → (like post_target nid now t u db).0.result ≡ ok (n, true)
      → (like post_target nid now t u db).0.published ≡ published
      → IsForAuthor u (post_by t db) published
  post-IsForAuthor n (err x) none s h p = cc (post_untold n (err x) s h p)
  post-IsForAuthor n (ok none) none s h p = cc (post_untold n (ok none) s h p)
  post-IsForAuthor n (ok (some v)) none s h p =
      post_author (is_unnotified u) v s (post_untold n (ok (some v)) s h p)
  post-IsForAuthor n (err x) (some e) s h p = cc (post_told n e (err x) s h p)
  post-IsForAuthor n (ok none) (some e) s h p = cc (post_told n e (ok none) s h p)
  post-IsForAuthor n (ok (some v)) (some e) s h p =
      let (author, other, actor) = post_told n e (ok (some v)) s h p in
      (
        post_author (λ a. eq_some a e.recipient_user_id) v s
            (rw author (==_refl e.recipient_user_id)),
        other,
        actor,
      )

  post-Notifies :
      (r : Result AppError (ℕ × Bool))
      → (like post_target nid now t u db).0.result ≡ r
      → Notifies u
          (post_by t db)
          (exists_row (is_link t u) db.post_likes)
          r
          (like post_target nid now t u db).0.published
  post-Notifies (err x) h = post_refused x h
  post-Notifies (ok (n, false)) h = post_again n h
  post-Notifies (ok (n, true)) h = (post_new n h, post-IsForAuthor n _ _ refl h refl)

module _ (nid now t u : ℕ) (db : Db) where
  comment_refused :
      (x : AppError)
      → (like comment_target nid now t u db).0.result ≡ err x
      → (like comment_target nid now t u db).0.published ≡ none
  unfolding like comment_target resolve_comment_for_like Comments.increment_like_count
      Comments.get_like_count
  comment_refused x h = ground arith

  comment_again :
      (n : ℕ)
      → (like comment_target nid now t u db).0.result ≡ ok (n, false)
      → ((like comment_target nid now t u db).0.published ≡ none)
        × (exists_row (is_link t u) db.comment_likes ≡ true)
  unfolding like comment_target resolve_comment_for_like Comments.increment_like_count
      Comments.get_like_count
  comment_again n h = ground arith

  comment_new :
      (n : ℕ)
      → (like comment_target nid now t u db).0.result ≡ ok (n, true)
      → exists_row (is_link t u) db.comment_likes ≡ false
  unfolding like comment_target resolve_comment_for_like Comments.increment_like_count
      Comments.get_like_count
  comment_new n h = ground arith

  comment_told :
      (n : ℕ) (e : NotificationEvent) (r : Result AppError (Option CommentMeta))
      → selected_comment t u db ≡ r
      → (like comment_target nid now t u db).0.result ≡ ok (n, true)
      → (like comment_target nid now t u db).0.published ≡ some e
      → Reads
          (λ (v : CommentMeta).
            (v.author_id ≡ some e.recipient_user_id)
            × ((e.recipient_user_id == u) ≡ false)
            × (e.actor_id ≡ some u))
          r
  unfolding like comment_target resolve_comment_for_like Comments.increment_like_count
      Comments.get_like_count
  comment_told n e (err x) s h p = ground arith
  comment_told n e (ok none) s h p = ground arith
  comment_told n e (ok (some v)) s h p = ground arith

  comment_untold :
      (n : ℕ) (r : Result AppError (Option CommentMeta))
      → selected_comment t u db ≡ r
      → (like comment_target nid now t u db).0.result ≡ ok (n, true)
      → (like comment_target nid now t u db).0.published ≡ none
      → Reads (λ (v : CommentMeta). (is_none v.author_id || eq_some v.author_id u) ≡ true) r
  unfolding like comment_target resolve_comment_for_like Comments.increment_like_count
      Comments.get_like_count
  comment_untold n (err x) s h p = ground arith
  comment_untold n (ok none) s h p = ground arith
  comment_untold n (ok (some v)) s h p = ground arith

  comment_author :
      (test : Option ℕ → Bool) (v : CommentMeta)
      → selected_comment t u db ≡ ok (some v)
      → test v.author_id ≡ true
      → comment_by t db test ≡ true
  comment_author test v s h =
      select-exists (λ c. c.id == t && reply_visible (some u) db c) (comment_meta) v
        (λ r. r.id == t && test r.author_id)
        (λ r c e.
          let left : (r.id == t) ≡ true = ground (arith, c) in
          let same : r.author_id ≡ v.author_id = ap (λ (x : CommentMeta). x.author_id) e in
          rw (left, same) h)
        db.comments s

  comment-IsForAuthor :
      (n : ℕ) (r : Result AppError (Option CommentMeta)) (published : Option NotificationEvent)
      → selected_comment t u db ≡ r
      → (like comment_target nid now t u db).0.result ≡ ok (n, true)
      → (like comment_target nid now t u db).0.published ≡ published
      → IsForAuthor u (comment_by t db) published
  comment-IsForAuthor n (err x) none s h p = cc (comment_untold n (err x) s h p)
  comment-IsForAuthor n (ok none) none s h p = cc (comment_untold n (ok none) s h p)
  comment-IsForAuthor n (ok (some v)) none s h p =
      comment_author (is_unnotified u) v s (comment_untold n (ok (some v)) s h p)
  comment-IsForAuthor n (err x) (some e) s h p = cc (comment_told n e (err x) s h p)
  comment-IsForAuthor n (ok none) (some e) s h p = cc (comment_told n e (ok none) s h p)
  comment-IsForAuthor n (ok (some v)) (some e) s h p =
      let (author, other, actor) = comment_told n e (ok (some v)) s h p in
      (
        comment_author (λ a. eq_some a e.recipient_user_id) v s
            (rw author (==_refl e.recipient_user_id)),
        other,
        actor,
      )

  comment-Notifies :
      (r : Result AppError (ℕ × Bool))
      → (like comment_target nid now t u db).0.result ≡ r
      → Notifies u
          (comment_by t db)
          (exists_row (is_link t u) db.comment_likes)
          r
          (like comment_target nid now t u db).0.published
  comment-Notifies (err x) h = comment_refused x h
  comment-Notifies (ok (n, false)) h = comment_again n h
  comment-Notifies (ok (n, true)) h = (comment_new n h, comment-IsForAuthor n _ _ refl h refl)

-- A like publishes an event exactly when it has committed the notification of that event. One that is
-- refused or rolled back publishes none, nor does one of a link that is there already; a new like
-- publishes an event of the actor for the author of the target, unless there is no author or the
-- author is the actor. This holds for posts and for comments.
pub like-PublishesCommitted :
    (nid now t u : ℕ) (db : Db)
    → let post = like post_target nid now t u db in
      let comment = like comment_target nid now t u db in
      PublishesCommitted now db post
      × PublishesCommitted now db comment
      × Notifies u
          (post_by t db)
          (exists_row (is_link t u) db.post_likes)
          post.0.result
          post.0.published
      × Notifies u
          (comment_by t db)
          (exists_row (is_link t u) db.comment_likes)
          comment.0.result
          comment.0.published
unfolding like post_target comment_target resolve_post_for_like resolve_comment_for_like
    Posts.increment_like_count Comments.increment_like_count Posts.get_like_count
    Comments.get_like_count
like-PublishesCommitted nid now t u db = (
  ground arith,
  ground arith,
  post-Notifies nid now t u db _ refl,
  comment-Notifies nid now t u db _ refl,
)
