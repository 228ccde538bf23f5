-- ===== src/Reports/Submit.antt =====
-- Reports, moderation and `report_count`: app/domain/reports/service.py and
-- app/domain/admin/service.py.
use puppytalk_be.Base.{
  ℕ, ◌+◌, ◌≡◌, ◌∙◌, sym, Bool, true, false, ◌&&◌, Option, none, some, String, List, ◌∷◌, arith,
  Bool-cases, inl, inr, leb, exists_row, ◌==◌, is_none,
}
use puppytalk_be.Errors.{AppError}
use puppytalk_be.Db.Rows.{Db, Post, Comment, Report, TargetType}
use puppytalk_be.Db.Laws.{All-imp}
use puppytalk_be.Db.Single.{bit}
use puppytalk_be.Db.Triples.{Triple, bind_triple, pure_triple}
use puppytalk_be.Posts
use puppytalk_be.Posts.{is_some}
use puppytalk_be.Comments
use puppytalk_be.Comments.Moderation
use puppytalk_be.Reports.{create_report, moderation_target, require_count, blind_at, submit_body}
use puppytalk_be.Reports.Tally.{
  OfPost, OfComment, EveryTarget, open_reports, is_target, Tallied, Ahead,
}
use puppytalk_be.Reports.Steps.{posts_update, comments_update, set_blinded_keeps}

abbrev reportable_post : ℕ → Post → Bool
reportable_post t p = p.id == t && is_none p.deleted_at && is_some p.user_id

abbrev reportable_comment : ℕ → Comment → Bool
reportable_comment t c = c.id == t && is_none c.deleted_at && is_some c.author_id

abbrev reported_post : ℕ → Post → Post
reported_post now p = record p { report_count = p.report_count + 1; updated_at = now }

abbrev reported_comment : Comment → Comment
reported_comment c = record c { report_count = c.report_count + 1 }

-- The counter is raised before the report is written.
increment_ahead :
    (ty : TargetType) (now t : ℕ)
    → Triple
        (EveryTarget Tallied)
        ((moderation_target ty).increment_report_count now t)
        (λ n. EveryTarget (Ahead ty t))
unfolding moderation_target Posts.increment_report_count Moderation.increment_report_count
    Comments.increment_report_count
increment_ahead TargetType.post now t =
    posts_update Tallied (Ahead TargetType.post t) (reportable_post t) (reported_post now)
      (λ p. some p.report_count) (λ rs p h. ground (arith, h)) (λ rs c h. ground (arith, h))
increment_ahead TargetType.comment now t =
    comments_update Tallied (Ahead TargetType.comment t) (reportable_comment t) reported_comment
      (λ c. some c.report_count) (λ rs c h. ground (arith, h)) (λ rs p h. ground (arith, h))

require_triple :
    (P : Db → Type 0) (e : AppError) (counted : Option ℕ)
    → Triple P (require_count e counted) (λ n. P)
unfolding require_count
require_triple P e none = record { run = λ db h. tt }
require_triple P e (some n) = record { run = λ db h. h }

abbrev new_report : ℕ → ℕ → ℕ → TargetType → ℕ → Option String → Report
new_report new_id now reporter_id ty t reason = record {
  id = new_id;
  reporter_id = reporter_id;
  target_type = ty;
  target_id = t;
  reason = reason;
  created_at = now;
  deleted_at = none;
}

open_new :
    (new_id now reporter_id : ℕ) (ty : TargetType) (t : ℕ) (reason : Option String)
    (rs : List Report) (ty' : TargetType) (id : ℕ)
    → open_reports (new_report new_id now reporter_id ty t reason ∷ rs) ty' id
      ≡ open_reports rs ty' id + bit (is_target ty t ty' id)
open_new new_id now reporter_id TargetType.post t reason rs TargetType.post id = ground arith
open_new new_id now reporter_id TargetType.post t reason rs TargetType.comment id = ground arith
open_new new_id now reporter_id TargetType.comment t reason rs TargetType.post id = ground arith
open_new new_id now reporter_id TargetType.comment t reason rs TargetType.comment id = ground arith

create_tallied :
    (new_id now reporter_id : ℕ) (ty : TargetType) (t : ℕ) (reason : Option String)
    → Triple
        (EveryTarget (Ahead ty t))
        (create_report new_id now reporter_id ty t reason)
        (λ v. EveryTarget Tallied)
unfolding create_report
create_tallied new_id now reporter_id ty t reason = record {
  run = λ db h. elim (Bool-cases (exists_row (λ (r : Report). r.id == new_id) db.reports)) [
    | inl taken ↦ rw taken tt
    | inr fresh ↦ rw fresh (
      (All-imp (OfPost (Ahead ty t) db.reports)
          (OfPost Tallied (new_report new_id now reporter_id ty t reason ∷ db.reports))
          (λ p k live author.
            k live author
            ∙ sym (open_new new_id now reporter_id ty t reason db.reports TargetType.post p.id))
          db.posts h.0),
      (All-imp (OfComment (Ahead ty t) db.reports)
          (OfComment Tallied (new_report new_id now reporter_id ty t reason ∷ db.reports))
          (λ c k live author.
            k live author
            ∙ sym (open_new new_id now reporter_id ty t reason db.reports TargetType.comment c.id))
          db.comments h.1),
    )
  ];
}

blind_tallied :
    (threshold : ℕ) (ty : TargetType) (now t new_count : ℕ)
    → Triple
        (EveryTarget Tallied)
        (blind_at threshold (moderation_target ty) now t new_count)
        (λ v. EveryTarget Tallied)
unfolding blind_at
blind_tallied threshold ty now t new_count = elim (Bool-cases (leb threshold new_count)) [
  | inl reached ↦ rw reached (
      bind_triple (λ v. EveryTarget Tallied) (set_blinded_keeps Tallied ty now t)
        (λ v. pure_triple true))
  | inr below ↦ rw below (pure_triple false)
]

pub submit_tallied :
    (threshold new_id now reporter_id : ℕ) (ty : TargetType) (t : ℕ) (reason : Option String)
    → Triple
        (EveryTarget Tallied)
        (submit_body threshold (moderation_target ty) new_id now reporter_id t reason)
        (λ v. EveryTarget Tallied)
unfolding submit_body moderation_target
submit_tallied threshold new_id now reporter_id TargetType.post t reason =
    bind_triple (λ n. EveryTarget (Ahead TargetType.post t)) (increment_ahead TargetType.post now t)
      (λ counted.
        bind_triple (λ n. EveryTarget (Ahead TargetType.post t)) (require_triple _ _ counted)
          (λ n.
            bind_triple (λ v. EveryTarget Tallied)
              (create_tallied new_id now reporter_id TargetType.post t reason)
              (λ v. blind_tallied threshold TargetType.post now t n)))
submit_tallied threshold new_id now reporter_id TargetType.comment t reason =
    bind_triple (λ n. EveryTarget (Ahead TargetType.comment t))
      (increment_ahead TargetType.comment now t)
      (λ counted.
        bind_triple (λ n. EveryTarget (Ahead TargetType.comment t)) (require_triple _ _ counted)
          (λ n.
            bind_triple (λ v. EveryTarget Tallied)
              (create_tallied new_id now reporter_id TargetType.comment t reason)
              (λ v. blind_tallied threshold TargetType.comment now t n)))
