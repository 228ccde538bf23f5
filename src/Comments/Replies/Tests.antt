-- ===== src/Comments/Replies/Tests.antt =====
-- Runs of `get_replies` of app/domain/comments/service.py on a small database, and the theorem on the
-- pages of a short list.
use puppytalk_be.Base.{◌≡◌, refl, arith, false, none, some, ok, err, List, [], ◌∷◌}
use puppytalk_be.Errors.{AppError}
use puppytalk_be.Db.Rows.{Comment}
use puppytalk_be.Fixtures.{sample_db, sample_comment}
use puppytalk_be.Comments.Replies.{ReplySort, get_replies, order_by_id}
use puppytalk_be.Comments.Replies.Complete.{walk_replies, walk_replies_all}

one_reply :
    (get_replies 10 20 5 ReplySort.latest none (some 2) sample_db).0
    ≡ ok (sample_comment 22 3 (some 20) ∷ [], false)
unfolding get_replies
one_reply = refl

-- A reply has no replies to list.
no_root :
    (get_replies 10 22 5 ReplySort.latest none none sample_db).0 ≡ err AppError.comment_not_found
unfolding get_replies
no_root = refl

abbrev four : List Comment
four =
    sample_comment 23 3 (some 20)
    ∷ sample_comment 21 3 (some 20)
    ∷ sample_comment 24 2 (some 20)
    ∷ sample_comment 22 2 (some 20)
    ∷ []

walk_replies_all_example :
    walk_replies ReplySort.latest four 3 2 none ≡ order_by_id ReplySort.latest four
walk_replies_all_example =
    walk_replies_all ReplySort.latest four 2 2
      ((refl, (refl, (refl, tt))), ((refl, (refl, tt)), ((refl, tt), (tt, tt)))) (omega arith)
