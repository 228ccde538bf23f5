-- ===== src/Notifications/Purge.antt =====
-- The purge of old notifications ends: `NotificationService.purge_old_notifications` of
-- app/domain/notifications/service.py.
use puppytalk_be.Base.{
  ℕ, zero, suc, ◌+◌, ◌<◌, ◌≤◌, ◌≡◌, refl, sym, ap, ◌∙◌, arith, max, Bool, true, not, Option, some,
  List, [], ◌∷◌, map, take, length, Result, ok, err, where_rows, count_rows, Bool-cases, ◌⊎◌, inl,
  inr, ==_refl,
}
use mathlib.Core.Path.{subst}
use puppytalk_be.Errors.{AppError}
use puppytalk_be.Db.Rows.{Db, Notification}
use puppytalk_be.Db.Tx.{begin}
use puppytalk_be.Db.Statements.{is_in, delete_rows}
use puppytalk_be.Notifications.{is_expired, expired_ids, delete_older_than, purge_old_notifications}

-- A DELETE takes as many rows as it counts.
deleted_length :
    (p : Notification → Bool) (rows : List Notification)
    → length (where_rows (λ r. not (p r)) rows) + count_rows p rows ≡ length rows
deleted_length p [] = omega arith
deleted_length p (r ∷ rows) = ground (arith, deleted_length p rows)

-- The rows behind one round.
abbrev left_over : ℕ → ℕ → Db → Db
left_over cutoff limit db = record db {
  notifications = where_rows (λ n. not (is_in n.id (expired_ids cutoff limit db))) db.notifications;
}

abbrev taken : ℕ → ℕ → Db → ℕ
taken cutoff limit db =
    count_rows (λ (n : Notification). is_in n.id (expired_ids cutoff limit db)) db.notifications

chunk_effect :
    (cutoff limit : ℕ) (db : Db)
    → begin (delete_older_than cutoff limit) db
      ≡ (ok (taken cutoff limit db), left_over cutoff limit db)
unfolding delete_older_than delete_rows
chunk_effect cutoff limit db = refl

-- A row that is expired is among those that a round takes, if it takes the first.
count_first :
    (p : Notification → Bool) (rows rest : List Notification) (n : Notification)
    → where_rows p rows ≡ n ∷ rest
    → (q : Notification → Bool) → q n ≡ true
    → 1 ≤ count_rows q rows
count_first p [] rest n e q h = cc
count_first p (m ∷ rows) rest n e q h = elim (Bool-cases (p m)) [
  | inl first ↦
      let whole = rw first at e in let same : m ≡ n = cc in rw (ap q same ∙ h) (omega arith)
  | inr left ↦ ground (arith, count_first p rows rest n (rw left at e) q h)
]

head_is_in : (k i : ℕ) (rest : List ℕ) → 1 ≤ k → is_in i (take k (i ∷ rest)) ≡ true
head_is_in zero i rest h = absurd (omega arith)
head_is_in (suc k) i rest h = rw (==_refl i) refl

none_taken :
    (cutoff limit : ℕ) (db : Db)
    → taken cutoff limit db ≡ 0
    → where_rows (is_expired cutoff) db.notifications ≡ []
none_taken cutoff limit db h = go (where_rows (is_expired cutoff) db.notifications) refl
  where
    go :
        (rows : List Notification)
        → where_rows (is_expired cutoff) db.notifications ≡ rows
        → rows ≡ []
    go [] e = refl
    go (n ∷ rows) e =
        let chosen : is_in n.id (expired_ids cutoff limit db) ≡ true =
          rw e (
            head_is_in (max 100 limit) n.id (map (λ (m : Notification). m.id) rows)
              (omega arith)) in
        let one : 1 ≤ taken cutoff limit db =
          count_first (is_expired cutoff) db.notifications rows n e
            (λ (m : Notification). is_in m.id (expired_ids cutoff limit db)) chosen in
        absurd (omega (arith, h, one))

zero_or_suc : (m : ℕ) → (m ≡ 0) ⊎ ((n : ℕ) × (m ≡ suc n))
zero_or_suc zero = inl refl
zero_or_suc (suc n) = inr (n, refl)

-- Nothing of an empty result is left in fewer rows.
still_none :
    (p q : Notification → Bool) (rows : List Notification)
    → where_rows p rows ≡ []
    → where_rows p (where_rows q rows) ≡ []
still_none p q [] h = refl
still_none p q (m ∷ rows) h = elim (Bool-cases (p m)) [
  | inl due ↦ cc (rw due at h)
  | inr fresh ↦ elim (Bool-cases (q m)) [
    | inl kept ↦ rw (kept, fresh) (still_none p q rows (rw fresh at h))
    | inr dropped ↦ rw dropped (still_none p q rows (rw fresh at h))
  ]
]

-- The loop behind the result of a round.
abbrev continue : (ℕ → ℕ) → ℕ → ℕ → ℕ → Result AppError ℕ × Db → Result AppError (Option ℕ) × Db
continue cutoff limit k total (err e, db) = (err e, db)
continue cutoff limit k total (ok zero, db) = (ok (some total), db)
continue cutoff limit k total (ok (suc n), db) =
    purge_old_notifications cutoff limit k (total + suc n) db

purge_step :
    (cutoff : ℕ → ℕ) (limit k total : ℕ) (db : Db)
    → purge_old_notifications cutoff limit (suc k) total db
      ≡ continue cutoff limit k total
          (ok (taken (cutoff k) limit db), left_over (cutoff k) limit db)
unfolding purge_old_notifications
purge_step cutoff limit k total db =
    same (begin (delete_older_than (cutoff k) limit) db)
    ∙ ap (continue cutoff limit k total) (chunk_effect (cutoff k) limit db)
  where
    same :
        (x : Result AppError ℕ × Db)
        → ◌≡◌ {A = Result AppError (Option ℕ) × Db}
            (elim x.0 [
              | err e ↦ (err e, x.1)
              | ok zero ↦ (ok (some total), x.1)
              | ok (suc n) ↦ purge_old_notifications cutoff limit k (total + suc n) x.1
            ])
            (continue cutoff limit k total x)
    same (err e, db') = refl
    same (ok zero, db') = refl
    same (ok (suc n), db') = refl

-- The number that is returned counts what went away, and at the cutoff of the last round nothing is
-- expired any more.
abbrev pub Completed : (ℕ → ℕ) → ℕ → ℕ → Db → Result AppError (Option ℕ) × Db → Type 0
Completed cutoff fuel total before x =
    (n : ℕ) × (round : ℕ) × (round < fuel)
    × (x.0 ≡ ok (some n))
    × (n + length x.1.notifications ≡ total + length before.notifications)
    × (where_rows (is_expired (cutoff round)) x.1.notifications ≡ [])

-- The purge comes to its end: with more rounds than there are notifications it returns how many it
-- deleted, and none is left that is expired at the cutoff of some round of them.
pub purge_old_completes :
    (cutoff : ℕ → ℕ) (limit fuel total : ℕ) (db : Db)
    → length db.notifications < fuel
    → Completed cutoff fuel total db (purge_old_notifications cutoff limit fuel total db)
purge_old_completes cutoff limit zero total db h = absurd (omega arith)
purge_old_completes cutoff limit (suc k) total db h =
    elim (zero_or_suc (taken (cutoff k) limit db)) [
      | inl nothing ↦
          subst (Completed cutoff (suc k) total db)
            (sym (
              purge_step cutoff limit k total db
              ∙ ap (λ m. continue cutoff limit k total (ok m, left_over (cutoff k) limit db))
                  nothing))
            (
              total,
              k,
              omega arith,
              refl,
              omega (arith, nothing, gone k),
              still_none (is_expired (cutoff k))
                  (λ (n : Notification). not (is_in n.id (expired_ids (cutoff k) limit db)))
                  db.notifications (none_taken (cutoff k) limit db nothing),
            )
      | inr (n, many) ↦
          let (sum, round, earlier, returned, counted, none_due) =
            purge_old_completes cutoff limit k (total + suc n) (left_over (cutoff k) limit db)
              (omega (arith, h, many, gone k)) in
          subst (Completed cutoff (suc k) total db)
            (sym (
              purge_step cutoff limit k total db
              ∙ ap (λ m. continue cutoff limit k total (ok m, left_over (cutoff k) limit db)) many))
            (
              sum,
              round,
              omega (arith, earlier),
              returned,
              omega (arith, counted, many, gone k),
              none_due,
            )
    ]
  where
    gone :
        (r : ℕ)
        → length (left_over (cutoff r) limit db).notifications + taken (cutoff r) limit db
          ≡ length db.notifications
    gone r =
        deleted_length (λ (n : Notification). is_in n.id (expired_ids (cutoff r) limit db))
          db.notifications
