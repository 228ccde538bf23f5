-- ===== src/Reports/Tests.antt =====
-- Runs of app/domain/reports/service.py and app/domain/admin/service.py on a small database, and the
-- theorems at such inputs.
use puppytalk_be.Base.{◌≡◌, refl, true, false, none, ok, err, List, [], ◌∷◌, map, Bool}
use puppytalk_be.Errors.{AppError}
use puppytalk_be.Db.Rows.{Db, TargetType}
use puppytalk_be.Fixtures.{sample_db}
use puppytalk_be.Posts
use puppytalk_be.Comments
use puppytalk_be.Comments.Moderation
use puppytalk_be.Reports.{submit_report, blind, unblind, reset_reports}
use puppytalk_be.Reports.Tally.{EveryTarget, Tallied}
use puppytalk_be.Reports.Reset.{moderation_keeps_tally}

blinded_posts : Db → List Bool
blinded_posts db = map (λ p. p.is_blinded) db.posts

first_report : (submit_report 2 70 200 3 TargetType.post 10 none sample_db).0 ≡ ok false
unfolding submit_report Posts.increment_report_count
first_report = refl

second_report :
    let db' = (submit_report 2 70 200 3 TargetType.post 10 none sample_db).1 in
    let db'' = (submit_report 2 71 201 2 TargetType.post 10 none db').1 in
    ((submit_report 2 71 201 2 TargetType.post 10 none db').0 ≡ ok true)
    × (blinded_posts db'' ≡ true ∷ [])
unfolding submit_report blinded_posts Posts.increment_report_count Posts.set_blinded
second_report = (refl, refl)

-- A target that is blinded already is reported as blinded again.
third_report :
    let db' = (blind 200 TargetType.post 10 sample_db).1 in
    (submit_report 1 71 201 2 TargetType.post 10 none db').0 ≡ ok true
unfolding submit_report blind Posts.increment_report_count Posts.set_blinded
third_report = refl

missing_target :
    (submit_report 2 70 200 3 TargetType.comment 99 none sample_db).0
    ≡ err AppError.comment_not_found
unfolding submit_report Moderation.increment_report_count Comments.increment_report_count
missing_target = refl

sample-Tallied : EveryTarget Tallied sample_db
sample-Tallied = (
  (λ live author. refl, tt),
  (λ live author. refl, (λ live author. refl, (λ live author. refl, tt))),
)

moderation_keeps_tally_example :
    EveryTarget Tallied (submit_report 5 70 200 3 TargetType.post 10 none sample_db).1
    × EveryTarget Tallied (blind 200 TargetType.post 10 sample_db).1
    × EveryTarget Tallied (unblind 200 TargetType.post 10 sample_db).1
    × EveryTarget Tallied (reset_reports 200 TargetType.post 10 sample_db).1
moderation_keeps_tally_example =
    moderation_keeps_tally 5 70 200 3 TargetType.post 10 none sample_db sample-Tallied
