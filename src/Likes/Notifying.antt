-- ===== src/Likes/Notifying.antt =====
-- Whom a like of app/domain/likes/service.py notifies, as a statement.
use puppytalk_be.Base.{
  ℕ, ◌≡◌, Bool, true, false, ◌&&◌, ◌||◌, Option, none, some, ◌∷◌, Result, ok, err, exists_row,
  eq_some, is_none, ◌==◌,
}
use puppytalk_be.Errors.{AppError}
use puppytalk_be.Db.Rows.{Db, Post, Comment}
use puppytalk_be.Notifications.{NotificationEvent, Reply, notification_of}

-- What is published is in the database, and what is put in the database is published.
abbrev pub PublishesCommitted : {A : Type 0} → ℕ → Db → Reply A × Db → Type 0
PublishesCommitted now db (reply, db') = elim reply.published [
  | none ↦ db'.notifications ≡ db.notifications
  | some e ↦ db'.notifications ≡ notification_of now e ∷ db.notifications
]

-- Whether an author may stay without a notification of `u`: there is none, or it is `u`.
abbrev pub is_unnotified : ℕ → Option ℕ → Bool
is_unnotified u author = is_none author || eq_some author u

-- What a new like by `u` publishes, where `by` tells whether the target has an author that passes a
-- test: an event for its author, who is another user; or nothing, without an author or for `u`.
abbrev pub IsForAuthor : ℕ → ((Option ℕ → Bool) → Bool) → Option NotificationEvent → Type 0
IsForAuthor u by none = by (is_unnotified u) ≡ true
IsForAuthor u by (some e) =
    (by (λ author. eq_some author e.recipient_user_id) ≡ true)
    × ((e.recipient_user_id == u) ≡ false)
    × (e.actor_id ≡ some u)

-- A like that is refused or rolled back, one of an old link, and a new one; `linked` tells whether
-- there was a link before.
abbrev pub Notifies :
    ℕ
    → ((Option ℕ → Bool) → Bool)
    → Bool
    → Result AppError (ℕ × Bool)
    → Option NotificationEvent
    → Type 0
Notifies u by linked (err x) published = published ≡ none
Notifies u by linked (ok (n, false)) published = (published ≡ none) × (linked ≡ true)
Notifies u by linked (ok (n, true)) published = (linked ≡ false) × IsForAuthor u by published

-- Whether the post or the comment `t` has an author that passes a test.
abbrev pub post_by : ℕ → Db → (Option ℕ → Bool) → Bool
post_by t db test = exists_row (λ (p : Post). p.id == t && test p.user_id) db.posts

abbrev pub comment_by : ℕ → Db → (Option ℕ → Bool) → Bool
comment_by t db test = exists_row (λ (c : Comment). c.id == t && test c.author_id) db.comments
