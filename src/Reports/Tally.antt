-- ===== src/Reports/Tally.antt =====
-- `report_count` of posts and comments against the open reports: app/domain/reports/service.py.
use puppytalk_be.Base.{
  ℕ, ◌+◌, ◌≡◌, refl, Bool, true, false, ◌&&◌, Option, none, some, List, [], ◌∷◌, arith, ◌==◌,
  count_rows, All,
}
use puppytalk_be.Db.Rows.{Db, Post, Comment, Report, TargetType}
use puppytalk_be.Db.Statements.{update_where}
use puppytalk_be.Db.Single.{bit}
use puppytalk_be.Posts.{is_some}
use puppytalk_be.Reports.{is_type, is_open_on}

-- A statement about the reports, and the type, id, `deleted_at`, author and `report_count` of a row.
abbrev pub RowFact : Type 1
RowFact = List Report → TargetType → ℕ → Option ℕ → Option ℕ → ℕ → Type 0

abbrev pub OfPost : RowFact → List Report → Post → Type 0
OfPost F rs p = F rs TargetType.post p.id p.deleted_at p.user_id p.report_count

abbrev pub OfComment : RowFact → List Report → Comment → Type 0
OfComment F rs c = F rs TargetType.comment c.id c.deleted_at c.author_id c.report_count

-- The statement, of every post and every comment.
abbrev pub EveryTarget : RowFact → Db → Type 0
EveryTarget F db = All (OfPost F db.reports) db.posts × All (OfComment F db.reports) db.comments

-- The number of open reports on a target.
abbrev pub open_reports : List Report → TargetType → ℕ → ℕ
open_reports rs ty id = count_rows (is_open_on ty id) rs

abbrev pub is_target : TargetType → ℕ → TargetType → ℕ → Bool
is_target ty t ty' id = is_type ty ty' && id == t

-- A live row with an author counts its open reports.
abbrev pub Tallied : RowFact
Tallied rs ty id deleted author n =
    deleted ≡ none → is_some author ≡ true → n ≡ open_reports rs ty id

-- One more than those on the target, the count of which was raised before its report is written.
abbrev pub Ahead : TargetType → ℕ → RowFact
Ahead target t rs ty id deleted author n =
    deleted ≡ none
    → is_some author ≡ true
    → n ≡ open_reports rs ty id + bit (is_target target t ty id)

-- No open report is on the target, the count of which is not reset yet.
abbrev pub Cleared : TargetType → ℕ → RowFact
Cleared target t rs ty id deleted author n =
    (open_reports rs target t ≡ 0)
    × (deleted ≡ none
        → is_some author ≡ true
        → is_target target t ty id ≡ false
        → n ≡ open_reports rs ty id)

-- Deleting the open reports of a target.
abbrev pub close_reports : ℕ → TargetType → ℕ → List Report → List Report
close_reports now target t rs =
    update_where (is_open_on target t) (λ r. record r { deleted_at = some now }) rs

pub open_closed :
    (now : ℕ) (target : TargetType) (t : ℕ) (rs : List Report)
    → open_reports (close_reports now target t rs) target t ≡ 0
open_closed now target t [] = refl
open_closed now target t (r ∷ rs) = ground (arith, open_closed now target t rs)

pub open_other :
    (now : ℕ) (target : TargetType) (t : ℕ) (ty : TargetType) (id : ℕ) (rs : List Report)
    → is_target target t ty id ≡ false
    → open_reports (close_reports now target t rs) ty id ≡ open_reports rs ty id
open_other now target t ty id [] other = refl
open_other now TargetType.post t TargetType.post id (r ∷ rs) other =
    ground (arith, open_other now TargetType.post t TargetType.post id rs other)
open_other now TargetType.post t TargetType.comment id (r ∷ rs) other =
    ground (arith, open_other now TargetType.post t TargetType.comment id rs other)
open_other now TargetType.comment t TargetType.post id (r ∷ rs) other =
    ground (arith, open_other now TargetType.comment t TargetType.post id rs other)
open_other now TargetType.comment t TargetType.comment id (r ∷ rs) other =
    ground (arith, open_other now TargetType.comment t TargetType.comment id rs other)
