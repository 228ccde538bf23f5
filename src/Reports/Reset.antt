-- ===== src/Reports/Reset.antt =====
-- Blinding, unblinding and the reset of reports: app/domain/admin/service.py.
use puppytalk_be.Base.{
  ℕ, ◌∙◌, sym, Bool, true, false, ◌&&◌, Option, some, String, arith, Result, ok, err, ◌==◌, is_none,
}
use puppytalk_be.Errors.{AppError}
use puppytalk_be.Db.Rows.{Db, Post, Comment, TargetType}
use puppytalk_be.Db.Tx.{Tx, begin, ◌>>=◌}
use puppytalk_be.Db.Laws.{All-imp}
use puppytalk_be.Db.Triples.{Triple, bind_triple, pure_triple, begin_keeps}
use puppytalk_be.Posts
use puppytalk_be.Posts.{is_some}
use puppytalk_be.Comments
use puppytalk_be.Comments.Moderation
use puppytalk_be.Reports.{
  delete_by_target, moderation_target, submit_report, require_found, blind, unblind, reset_body,
  reset_reports,
}
use puppytalk_be.Reports.Tally.{
  OfPost, OfComment, EveryTarget, Tallied, Cleared, close_reports, open_closed, open_other,
}
use puppytalk_be.Reports.Steps.{posts_update, comments_update, set_blinded_keeps, unblind_keeps}
use puppytalk_be.Reports.Submit.{submit_tallied}

delete_cleared :
    (now : ℕ) (ty : TargetType) (t : ℕ)
    → Triple (EveryTarget Tallied) (delete_by_target now ty t) (λ v. EveryTarget (Cleared ty t))
unfolding delete_by_target
delete_cleared now ty t = record {
  run = λ db h. (
    All-imp (OfPost Tallied db.reports) (OfPost (Cleared ty t) (close_reports now ty t db.reports))
        (λ p k. (
          open_closed now ty t db.reports,
          λ live author other.
              k live author ∙ sym (open_other now ty t TargetType.post p.id db.reports other),
        ))
        db.posts h.0,
    All-imp (OfComment Tallied db.reports)
        (OfComment (Cleared ty t) (close_reports now ty t db.reports))
        (λ c k. (
          open_closed now ty t db.reports,
          λ live author other.
              k live author ∙ sym (open_other now ty t TargetType.comment c.id db.reports other),
        ))
        db.comments h.1,
  );
}

abbrev live_post : ℕ → Post → Bool
live_post t p = p.id == t && is_none p.deleted_at

abbrev live_comment : ℕ → Comment → Bool
live_comment t c = c.id == t && is_none c.deleted_at

abbrev reset_post : ℕ → Post → Post
reset_post now p = record p { updated_at = now; report_count = 0; is_blinded = false }

abbrev reset_comment : ℕ → Comment → Comment
reset_comment now c = record c { updated_at = now; report_count = 0 }

reset_tallied :
    (ty : TargetType) (now t : ℕ)
    → Triple
        (EveryTarget (Cleared ty t))
        ((moderation_target ty).reset_reports now t)
        (λ v. EveryTarget Tallied)
unfolding moderation_target Posts.reset_reports Posts.update_post_row Moderation.reset_reports
    Comments.reset_reports Comments.update_comment_row
reset_tallied TargetType.post now t =
    bind_triple (λ v. EveryTarget Tallied)
      (posts_update (Cleared TargetType.post t) Tallied (live_post t) (reset_post now)
        (λ p. some p.id) (λ rs p h. ground (arith, h)) (λ rs c h. ground (arith, h)))
      (λ row. pure_triple (is_some row))
reset_tallied TargetType.comment now t =
    bind_triple (λ v. EveryTarget (Cleared TargetType.comment t))
      (unblind_keeps (Cleared TargetType.comment t) TargetType.comment now t)
      (λ done.
        bind_triple (λ v. EveryTarget Tallied)
          (comments_update (Cleared TargetType.comment t) Tallied (live_comment t)
            (reset_comment now) (λ c. some c.id) (λ rs c h. ground (arith, h))
            (λ rs p h. ground (arith, h)))
          (λ row. pure_triple (is_some row)))

reset_body-Tallied :
    (now : ℕ) (ty : TargetType) (t : ℕ)
    → Triple
        (EveryTarget Tallied)
        (reset_body now (moderation_target ty) t)
        (λ v. EveryTarget Tallied)
unfolding reset_body moderation_target
reset_body-Tallied now TargetType.post t =
    bind_triple (λ v. EveryTarget (Cleared TargetType.post t))
      (delete_cleared now TargetType.post t) (λ v. reset_tallied TargetType.post now t)
reset_body-Tallied now TargetType.comment t =
    bind_triple (λ v. EveryTarget (Cleared TargetType.comment t))
      (delete_cleared now TargetType.comment t) (λ v. reset_tallied TargetType.comment now t)

-- The exception for a missing target comes after the commit, and changes nothing.
found_step :
    (P : Db → Type 0) (e : AppError) (db : Db) (x : Result AppError Bool × Db)
    → P x.1
    → P (((λ (d : Db). x) >>= require_found e) db).1
unfolding require_found
found_step P e db (ok true, db1) h = h
found_step P e db (ok false, db1) h = h
found_step P e db (err x, db1) h = h

found_keeps :
    (P : Db → Type 0) (m : Tx Bool) (e : AppError) (db : Db)
    → Triple P m (λ v. P)
    → P db
    → P ((begin m >>= require_found e) db).1
found_keeps P m e db t h = found_step P e db (begin m db) (begin_keeps P m db t h)

-- A report, and what an administrator does, on a post or a comment, whether it is done, refused or
-- rolled back, keep `report_count` of each live post and comment that has an author equal to its
-- number of open reports.
pub moderation_keeps_tally :
    (threshold new_id now reporter_id : ℕ) (ty : TargetType) (t : ℕ) (reason : Option String)
    (db : Db)
    → EveryTarget Tallied db
    → EveryTarget Tallied (submit_report threshold new_id now reporter_id ty t reason db).1
      × EveryTarget Tallied (blind now ty t db).1
      × EveryTarget Tallied (unblind now ty t db).1
      × EveryTarget Tallied (reset_reports now ty t db).1
unfolding submit_report blind unblind reset_reports
moderation_keeps_tally threshold new_id now reporter_id ty t reason db h = (
  begin_keeps (EveryTarget Tallied) _ db
      (submit_tallied threshold new_id now reporter_id ty t reason) h,
  found_keeps (EveryTarget Tallied) ((moderation_target ty).set_blinded now t)
      (moderation_target ty).not_found db (set_blinded_keeps Tallied ty now t) h,
  found_keeps (EveryTarget Tallied) ((moderation_target ty).unblind now t)
      (moderation_target ty).not_found db (unblind_keeps Tallied ty now t) h,
  found_keeps (EveryTarget Tallied) (reset_body now (moderation_target ty) t)
      (moderation_target ty).not_found db (reset_body-Tallied now ty t) h,
)
