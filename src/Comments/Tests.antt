-- ===== src/Comments/Tests.antt =====
-- Runs of app/domain/comments/service.py on a small database, and the theorems at such inputs.
use puppytalk_be.Base.{ℕ, ◌≡◌, refl, some, ok, err, List, [], ◌∷◌, map}
use puppytalk_be.Errors.{AppError}
use puppytalk_be.Db.Rows.{Db}
use puppytalk_be.Db.Tx.{begin}
use puppytalk_be.Fixtures.{sample_db}
use puppytalk_be.Comments.Service.{create_comment, update_comment, delete_comment}
use puppytalk_be.Comments.Moderation.{set_blinded, unblind}
use puppytalk_be.Comments.Counts.{AllCounts, Exact, AtMost, writes_keep_comment_count}

counts : Db → List ℕ
counts db = map (λ p. p.comment_count) db.posts

reply_created : (create_comment 30 90 200 10 3 "hello" (some 20) sample_db).0.result ≡ ok 30
unfolding create_comment
reply_created = refl

reply_to_reply :
    (create_comment 30 90 200 10 3 "hello" (some 22) sample_db).0.result
    ≡ err AppError.comment_not_found
unfolding create_comment
reply_to_reply = refl

delete_twice :
    let db' = (delete_comment 200 10 21 sample_db).1 in (delete_comment 201 10 21 db').0 ≡ ok tt
unfolding delete_comment
delete_twice = refl

delete_missing : (delete_comment 200 10 77 sample_db).0 ≡ err AppError.comment_not_found
unfolding delete_comment
delete_missing = refl

edit_deleted :
    let db' = (delete_comment 200 10 21 sample_db).1 in
    (update_comment 201 10 21 "late" db').0 ≡ err AppError.comment_not_found
unfolding delete_comment update_comment
edit_deleted = refl

-- Blinding the root 20 takes its reply 22 out of the count too, and unblinding brings both back.
blind_root : counts (begin (set_blinded 200 20) sample_db).1 ≡ 1 ∷ []
unfolding counts set_blinded
blind_root = refl

blind_and_unblind :
    counts (begin (unblind 201 20) (begin (set_blinded 200 20) sample_db).1).1 ≡ 3 ∷ []
unfolding counts set_blinded unblind
blind_and_unblind = refl

-- The root 20 is blinded, its reply 22 deleted: the count is 0, and the comment 21 is there.
delete_below_blinded :
    counts (delete_comment 201 10 22 (begin (set_blinded 200 20) sample_db).1).1 ≡ 0 ∷ []
unfolding counts set_blinded delete_comment
delete_below_blinded = refl

-- A reply below the blinded root 20 is accepted and counted.
reply_below_blinded :
    counts
      (create_comment 30 90 201 10 3 "hello" (some 20) (begin (set_blinded 200 20) sample_db).1).1
    ≡ 2 ∷ []
unfolding counts set_blinded create_comment
reply_below_blinded = refl

-- The root 20 is deleted and the comment 21 blinded: the reply 22, which the list shows below the
-- placeholder of 20, is not counted.
blind_beside_deleted :
    counts (begin (set_blinded 201 21) (delete_comment 200 10 20 sample_db).1).1 ≡ 0 ∷ []
unfolding counts set_blinded delete_comment
blind_beside_deleted = refl

sample-Exact : AllCounts Exact sample_db
sample-Exact = (λ alive. refl, tt)

writes_keep_comment_count_example :
    let created = (create_comment 30 90 200 10 3 "hello" (some 20) sample_db).1 in
    let updated = (update_comment 200 10 21 "hello" sample_db).1 in
    let deleted = (delete_comment 200 10 21 sample_db).1 in
    (AllCounts Exact sample_db
      → AllCounts Exact created × AllCounts Exact updated × AllCounts Exact deleted)
    × (AllCounts AtMost sample_db
        → AllCounts AtMost created × AllCounts AtMost updated × AllCounts AtMost deleted)
writes_keep_comment_count_example =
    writes_keep_comment_count 30 90 200 10 3 21 "hello" (some 20) sample_db
