-- ===== src/Notifications.antt =====
-- Notification rows and the events that are published after a commit:
-- app/domain/notifications/service.py, app/domain/notifications/schema.py and
-- app/domain/notifications/model.py.
pub mod Purge
mod Tests
use puppytalk_be.Base.{
  ℕ, zero, suc, ◌+◌, max, Bool, true, false, ◌&&◌, Option, none, some, List, [], ◌∷◌, map, take,
  Result, ok, err, where_rows, count_rows, ltb, ◌==◌, is_none, if◌then◌else◌,
}
use puppytalk_be.Errors.{AppError}
use puppytalk_be.Db.Rows.{Db, Notification, NotificationKind}
use puppytalk_be.Db.Tx.{Tx, pure, begin, ◌>>=◌}
use puppytalk_be.Db.Statements.{add_row, delete_rows, update_where, is_in}
use puppytalk_be.Db.Tables

pub record NotificationEvent : Type 0 where
  pub recipient_user_id : ℕ
  pub notification_id : ℕ
  pub kind : NotificationKind
  pub actor_id : Option ℕ
  pub post_id : Option ℕ
  pub comment_id : Option ℕ

-- `NotificationService.record`, with `NotificationsRepository.insert`; `nid` is what `new_uuid7` gave.
unfoldable pub record_notification :
    ℕ → ℕ → ℕ → NotificationKind → Option ℕ → Option ℕ → Option ℕ → Tx NotificationEvent
unfolding add_row
record_notification nid now recipient kind actor post_id comment_id =
    let row : Notification = record {
      id = nid;
      user_id = recipient;
      kind = kind;
      actor_id = actor;
      post_id = post_id;
      comment_id = comment_id;
      read_at = none;
      created_at = now;
    } in
    let event : NotificationEvent = record {
      recipient_user_id = recipient;
      notification_id = nid;
      kind = kind;
      actor_id = actor;
      post_id = post_id;
      comment_id = comment_id;
    } in
    add_row Tables.notifications row (λ r. r.id == nid) >>= (λ _. pure event)

-- The unread row of an event.
abbrev pub notification_of : ℕ → NotificationEvent → Notification
notification_of now e = record {
  id = e.notification_id;
  user_id = e.recipient_user_id;
  kind = e.kind;
  actor_id = e.actor_id;
  post_id = e.post_id;
  comment_id = e.comment_id;
  read_at = none;
  created_at = now;
}

-- What a request answers, and the event that it hands to `publish_after_commit`.
pub record Reply (A : Type 0) : Type 0 where
  pub result : Result AppError A
  pub published : Option NotificationEvent

-- The transaction, and `publish_after_commit` behind it: nothing is published of one that is rolled
-- back.
abbrev pub commit_and_publish : {A : Type 0} → Tx (A × Option NotificationEvent) → Db → Reply A × Db
commit_and_publish m db =
    let (r, db') = begin m db in
    elim r [
      | ok (a, event) ↦ (record { result = ok a; published = event }, db')
      | err e ↦ (record { result = err e; published = none }, db')
    ]

abbrev pub is_empty : List ℕ → Bool
is_empty [] = true
is_empty (i ∷ ids) = false

-- The WHERE clause of `mark_read`; no ids stand for all.
abbrev pub is_marked : ℕ → List ℕ → Notification → Bool
is_marked user_id ids n =
    n.user_id == user_id && is_none n.read_at && (if is_empty ids then true else is_in n.id ids)

-- `NotificationsRepository.mark_read`: the number of rows.
unfoldable pub mark_read : ℕ → ℕ → List ℕ → Tx ℕ
mark_read now user_id ids db = (
  ok (count_rows (is_marked user_id ids) db.notifications),
  record db {
    notifications =
        update_where (is_marked user_id ids) (λ n. record n { read_at = some now })
          db.notifications;
  },
)

abbrev pub is_expired : ℕ → Notification → Bool
is_expired cutoff n = ltb n.created_at cutoff

-- The subquery of `delete_older_than`.
abbrev pub expired_ids : ℕ → ℕ → Db → List ℕ
expired_ids cutoff limit db =
    take (max 100 limit) (map (λ n. n.id) (where_rows (is_expired cutoff) db.notifications))

-- `NotificationsRepository.delete_older_than`; `cutoff` is its `now` without the days to keep.
unfoldable pub delete_older_than : ℕ → ℕ → Tx ℕ
unfolding delete_rows
delete_older_than cutoff limit db =
    delete_rows Tables.notifications (λ n. is_in n.id (expired_ids cutoff limit db)) db

-- `NotificationService.purge_old_notifications` on fuel: `cutoff k` is the one of the round with `k`
-- rounds left, `none` stands for too little fuel.
unfoldable pub purge_old_notifications : (ℕ → ℕ) → ℕ → ℕ → ℕ → Tx (Option ℕ)
unfolding delete_older_than
purge_old_notifications cutoff limit zero total db = (ok none, db)
purge_old_notifications cutoff limit (suc k) total db =
    let (r, db') = begin (delete_older_than (cutoff k) limit) db in
    elim r [
      | err e ↦ (err e, db')
      | ok zero ↦ (ok (some total), db')
      | ok (suc n) ↦ purge_old_notifications cutoff limit k (total + suc n) db'
    ]
