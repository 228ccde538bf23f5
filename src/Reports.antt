-- ===== src/Reports.antt =====
-- Reports and what administrators do about them: app/domain/reports/service.py,
-- app/domain/reports/model.py, app/domain/reports/targets.py and app/domain/admin/service.py.
pub mod Tally
pub mod Steps
pub mod Submit
pub mod Reset
mod Tests
use puppytalk_be.Base.{
  ℕ, Bool, true, false, ◌&&◌, not, Option, none, some, String, ◌==◌, leb, is_none, if◌then◌else◌,
}
use puppytalk_be.Errors.{AppError}
use puppytalk_be.Db.Rows.{Db, Report, TargetType}
use puppytalk_be.Db.Tx.{Tx, pure, raise, begin, ◌>>=◌, ◌>>◌, raise_if}
use puppytalk_be.Db.Statements.{add_row, update_rows}
use puppytalk_be.Db.Tables
use puppytalk_be.Posts
use puppytalk_be.Comments.Moderation

abbrev pub is_type : TargetType → TargetType → Bool
is_type TargetType.post TargetType.post = true
is_type TargetType.comment TargetType.comment = true
is_type TargetType.post TargetType.comment = false
is_type TargetType.comment TargetType.post = false

-- `ReportsRepository.create_report`; the id is the one that `new_uuid7` gave.
create_report : ℕ → ℕ → ℕ → TargetType → ℕ → Option String → Tx (Unit {0})
unfolding add_row
create_report new_id now reporter_id target_type target_id reason =
    let row : Report = record {
      id = new_id;
      reporter_id = reporter_id;
      target_type = target_type;
      target_id = target_id;
      reason = reason;
      created_at = now;
      deleted_at = none;
    } in
    add_row Tables.reports row (λ r. r.id == new_id)

-- An undeleted report on a target.
abbrev pub is_open_on : TargetType → ℕ → Report → Bool
is_open_on target_type target_id r =
    is_type r.target_type target_type && r.target_id == target_id && is_none r.deleted_at

-- `ReportsRepository.delete_by_target`
delete_by_target : ℕ → TargetType → ℕ → Tx (Unit {0})
unfolding update_rows
delete_by_target now target_type target_id =
    update_rows Tables.reports (is_open_on target_type target_id)
      (λ r. record r { deleted_at = some now })

-- `ModerationTarget`, with the methods of `_ModerationRepo`; each takes the time first.
pub record ModerationTarget : Type 0 where
  pub target_type : TargetType
  pub increment_report_count : ℕ → ℕ → Tx (Option ℕ)
  pub set_blinded : ℕ → ℕ → Tx Bool
  pub unblind : ℕ → ℕ → Tx Bool
  pub reset_reports : ℕ → ℕ → Tx Bool
  pub not_found : AppError

-- `moderation_target`
pub moderation_target : TargetType → ModerationTarget
moderation_target TargetType.post = record {
  target_type = TargetType.post;
  increment_report_count = Posts.increment_report_count;
  set_blinded = Posts.set_blinded;
  unblind = Posts.unblind;
  reset_reports = Posts.reset_reports;
  not_found = AppError.post_not_found;
}
moderation_target TargetType.comment = record {
  target_type = TargetType.comment;
  increment_report_count = λ now. Moderation.increment_report_count;
  set_blinded = Moderation.set_blinded;
  unblind = Moderation.unblind;
  reset_reports = Moderation.reset_reports;
  not_found = AppError.comment_not_found;
}

-- `if new_count is None: raise target.not_found()`
require_count : AppError → Option ℕ → Tx ℕ
require_count e none = raise e
require_count e (some n) = pure n

-- `if new_count >= settings.REPORT_BLIND_THRESHOLD: ...`
blind_at : ℕ → ModerationTarget → ℕ → ℕ → ℕ → Tx Bool
blind_at threshold target now target_id new_count =
    if leb threshold new_count
    then (target.set_blinded now target_id >>= (λ done. pure true))
    else pure false

-- The transaction of `submit_report`.
pub submit_body : ℕ → ModerationTarget → ℕ → ℕ → ℕ → ℕ → Option String → Tx Bool
unfolding require_count create_report blind_at
submit_body threshold target new_id now reporter_id target_id reason = do
  counted ← target.increment_report_count now target_id
  new_count ← require_count target.not_found counted
  create_report new_id now reporter_id target.target_type target_id reason
  blind_at threshold target now target_id new_count

-- `submit_report`: its answer's `blinded`. The threshold is REPORT_BLIND_THRESHOLD.
pub submit_report : ℕ → ℕ → ℕ → ℕ → TargetType → ℕ → Option String → Tx Bool
unfolding moderation_target submit_body
submit_report threshold new_id now reporter_id target_type target_id reason =
    begin (
      submit_body threshold (moderation_target target_type) new_id now reporter_id target_id reason)

-- `if not ok: raise t.not_found()`, after the transaction is committed.
require_found : AppError → Bool → Tx (Unit {0})
require_found e found = raise_if (not found) e

-- `AdminService.blind`
pub blind : ℕ → TargetType → ℕ → Tx (Unit {0})
unfolding moderation_target require_found
blind now target_type target_id =
    let t = moderation_target target_type in
    begin (t.set_blinded now target_id) >>= require_found t.not_found

-- `AdminService.unblind`
pub unblind : ℕ → TargetType → ℕ → Tx (Unit {0})
unfolding moderation_target require_found
unblind now target_type target_id =
    let t = moderation_target target_type in
    begin (t.unblind now target_id) >>= require_found t.not_found

-- The transaction of `AdminService.reset_reports`.
reset_body : ℕ → ModerationTarget → ℕ → Tx Bool
unfolding delete_by_target
reset_body now t target_id = do
  delete_by_target now t.target_type target_id
  t.reset_reports now target_id

-- `AdminService.reset_reports`
pub reset_reports : ℕ → TargetType → ℕ → Tx (Unit {0})
unfolding moderation_target reset_body require_found
reset_reports now target_type target_id =
    let t = moderation_target target_type in
    begin (reset_body now t target_id) >>= require_found t.not_found
