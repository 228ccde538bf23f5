-- ===== src/Likes/Tests.antt =====
-- Runs of app/domain/likes/service.py on a small database, and the theorems at such inputs.
use puppytalk_be.Base.{◌≡◌, refl, true, false, ok, err, exists_row, not}
use puppytalk_be.Errors.{AppError}
use puppytalk_be.Fixtures.{sample_db}
use puppytalk_be.Posts
use puppytalk_be.Comments
use puppytalk_be.Likes.{
  like, unlike, post_target, comment_target, resolve_post_for_like, resolve_comment_for_like,
  ensure_comment_unlikeable,
}
use puppytalk_be.Likes.Links.{is_link, likes_of}
use puppytalk_be.Likes.Consistency.{IsConsistent, likes_keep_counters}
use puppytalk_be.Likes.Replies.{like_post_reply}
use puppytalk_be.Likes.Notifying.{PublishesCommitted, Notifies, post_by, comment_by}
use puppytalk_be.Likes.Events.{like-PublishesCommitted}

like_again : (like post_target 90 200 10 2 sample_db).0.result ≡ ok (1, false)
unfolding like post_target resolve_post_for_like Posts.get_like_count
like_again = refl

like_new : (like post_target 90 200 10 3 sample_db).0.result ≡ ok (2, true)
unfolding like post_target resolve_post_for_like Posts.increment_like_count
like_new = refl

like_missing : (like comment_target 90 200 77 3 sample_db).0.result ≡ err AppError.comment_not_found
unfolding like comment_target resolve_comment_for_like
like_missing = refl

unlike_old : (unlike comment_target 200 20 2 sample_db).0 ≡ ok 0
unfolding unlike comment_target ensure_comment_unlikeable Comments.decrement_like_count
unlike_old = refl

sample-IsConsistent : IsConsistent sample_db
sample-IsConsistent = record {
  posts = (λ alive. refl, tt);
  comments = (refl, (refl, (refl, tt)));
  post_keys = (refl, tt);
  comment_keys = (refl, tt);
}

likes_keep_counters_example :
    IsConsistent (like post_target 90 200 10 3 sample_db).1
    × IsConsistent (like comment_target 90 200 10 3 sample_db).1
    × IsConsistent (unlike post_target 200 10 3 sample_db).1
    × IsConsistent (unlike comment_target 200 10 3 sample_db).1
likes_keep_counters_example = likes_keep_counters 90 200 10 3 sample_db sample-IsConsistent

like_post_reply_example :
    let db' = (like post_target 90 200 10 3 sample_db).1 in
    (2 ≡ likes_of db'.post_likes 10)
    × (true ≡ not (exists_row (is_link 10 3) sample_db.post_likes))
    × (exists_row (is_link 10 3) db'.post_likes ≡ true)
like_post_reply_example = like_post_reply 90 200 10 3 sample_db 2 true sample-IsConsistent like_new

like-PublishesCommitted_example :
    let post = like post_target 90 200 10 3 sample_db in
    let comment = like comment_target 90 200 10 3 sample_db in
    PublishesCommitted 200 sample_db post
    × PublishesCommitted 200 sample_db comment
    × Notifies 3 (post_by 10 sample_db) false post.0.result post.0.published
    × Notifies 3 (comment_by 10 sample_db) false comment.0.result comment.0.published
like-PublishesCommitted_example = like-PublishesCommitted 90 200 10 3 sample_db
