-- ===== src/Notifications/Tests.antt =====
-- Runs of app/domain/notifications/service.py on three notifications, and the theorem at such an input.
use puppytalk_be.Base.{ℕ, ◌≡◌, refl, arith, none, some, [], ◌∷◌, ok}
use puppytalk_be.Fixtures.{sample_db}
use puppytalk_be.Db.Rows.{Db, Notification, NotificationKind}
use puppytalk_be.Notifications.{mark_read, purge_old_notifications}
use puppytalk_be.Notifications.Purge.{Completed, purge_old_completes}

abbrev sample_notification : ℕ → ℕ → ℕ → Notification
sample_notification id user created = record {
  id = id;
  user_id = user;
  kind = NotificationKind.like_post;
  actor_id = none;
  post_id = some 10;
  comment_id = none;
  read_at = none;
  created_at = created;
}

abbrev inbox : Db
inbox = record sample_db {
  notifications =
      sample_notification 92 1 300 ∷ sample_notification 91 1 50 ∷ sample_notification 90 2 40 ∷ [];
}

marks_one : (mark_read 400 1 (91 ∷ 90 ∷ []) inbox).0 ≡ ok 1
unfolding mark_read
marks_one = refl

abbrev cutoffs : ℕ → ℕ
cutoffs round = 100

purge_returns_two : (purge_old_notifications cutoffs 500 4 0 inbox).0 ≡ ok (some 2)
unfolding purge_old_notifications
purge_returns_two = refl

purge_old_completes_example :
    Completed cutoffs 4 0 inbox (purge_old_notifications cutoffs 500 4 0 inbox)
purge_old_completes_example = purge_old_completes cutoffs 500 4 0 inbox (omega arith)
