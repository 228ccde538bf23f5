-- ===== src/Views/Accounts.antt =====
-- Where the views of a post are at each step of a flush, `PostService.flush_view_counts_to_db` of
-- app/domain/posts/services/post_service.py: in the buffer, in the drain key or in the database.
use puppytalk_be.Base.{
  ℕ, ◌+◌, ◌≡◌, ◌≢◌, refl, arith, Bool, true, false, Option, none, some, List, [], ◌∷◌, Result, ok,
  err, if◌then◌else◌,
}
use mathlib.Core.Path.{subst}
use puppytalk_be.Errors.{AppError}
use puppytalk_be.Db.Rows.{Db, Post}
use puppytalk_be.Db.Tx.{begin}
use puppytalk_be.Db.Triples.{Ends}
use puppytalk_be.Redis.{Delivery, Redis, deliver}
use puppytalk_be.Redis.Hashes.{HashKey, Hashes, IsHashes, pending, field_sum}
use puppytalk_be.Views.{
  FlushDeliveries, Drained, apply_fields, commit_fields, drain_reply, drain_fields, drain_buffer,
}
use puppytalk_be.Views.Sums.{Adds}
use puppytalk_be.Views.Committing.{committed-Adds}
use puppytalk_be.Views.Drain.{buffer-ne-drain}

module _ {S : Type 0} (redis : Redis S) (hashes : Hashes S) (laws : IsHashes hashes redis)
    (meanwhile : ℕ → S → S) (n : ℕ → ℕ → ℕ)
    (tracks : (i g : ℕ) (s : S)
      → pending hashes HashKey.view_buffer g (meanwhile i s)
        ≡ pending hashes HashKey.view_buffer g s + n i g)
    (leaves : (i k g : ℕ) (s : S)
      → pending hashes (HashKey.drain k) g (meanwhile i s)
        ≡ pending hashes (HashKey.drain k) g s) where
  abbrev pub buffered : ℕ → S → ℕ
  buffered g s = pending hashes HashKey.view_buffer g s

  abbrev pub drained_of : ℕ → ℕ → S → ℕ
  drained_of key g s = pending hashes (HashKey.drain key) g s

  -- Where the views of `g` are behind the inner `try`: `total` of them were in the buffer.
  abbrev pub Accounted : ℕ → ℕ → ℕ → List Post → Option Drained → S × Db → Type 0
  Accounted key g total posts none (s, db) =
      (db.posts ≡ posts) × (buffered g s + drained_of key g s ≡ total)
  Accounted key g total posts (some Drained.nothing) (s, db) =
      (db.posts ≡ posts) × (buffered g s ≡ total)
  Accounted key g total posts (some (Drained.committed m)) (s, db) =
      (x : ℕ) × Adds g x posts db.posts × (buffered g s + x ≡ total)

  abbrev Committed : ℕ → ℕ → List Post → Option ℕ × Db → Type 0
  Committed g x posts (none, db) = db.posts ≡ posts
  Committed g x posts (some m, db) = Adds g x posts db.posts

  commit_fields-Committed :
      (d : FlushDeliveries) (now g : ℕ) (fields : List (ℕ × ℕ)) (db : Db)
      → d.commit ≢ Delivery.lost_reply
      → Committed g
          (field_sum g fields)
          db.posts
          (commit_fields redis hashes meanwhile d now fields db)
  unfolding commit_fields
  commit_fields-Committed d now g fields db known =
      decide d.commit known (apply_fields now fields db) (committed-Adds now g fields db)
    where
      decide :
          (b : Delivery)
          → b ≢ Delivery.lost_reply
          → (r : Result AppError ℕ × Db)
          → Ends (λ v db'. Adds g (field_sum g fields) db.posts db'.posts) r
          → Committed g (field_sum g fields) db.posts (elim (begin (λ x. r) db).0 [
            | ok m ↦ deliver b (m, (begin (λ x. r) db).1) db
            | err e ↦ (none, db)
          ])
      decide Delivery.answered k (ok m, db') e = e
      decide Delivery.lost_request k (ok m, db') e = refl
      decide Delivery.lost_reply k r e = absurd (k refl)
      decide b k (err x, db') e = refl

  drain_reply-Accounted :
      (d : FlushDeliveries) (now key g : ℕ) (fields : List (ℕ × ℕ)) (s : S) (db : Db)
      → d.commit ≢ Delivery.lost_reply
      → field_sum g fields ≡ drained_of key g s
      → let (r, after) = drain_reply redis hashes meanwhile d now key (some fields) (s, db) in
        Accounted key g (buffered g s + drained_of key g s) db.posts r after
  unfolding drain_reply
  drain_reply-Accounted d now key g [] s db known h = emptied d.delete_empty
    where
      kept : buffered g (hashes.remove (HashKey.drain key) s) ≡ buffered g s
      kept = laws.remove_other HashKey.view_buffer (HashKey.drain key) g s (buffer-ne-drain key)

      emptied :
          (b : Delivery)
          → let (deleted, s') = deliver b (tt {0}, hashes.remove (HashKey.drain key) s) s in
            let (r, after) : Option Drained × (S × Db) = elim deleted [
              | none ↦ (none, (s', db))
              | some u ↦ (some Drained.nothing, (s', db))
            ] in
            Accounted key g (buffered g s + drained_of key g s) db.posts r after
      emptied Delivery.answered = (refl, omega (arith, h, kept))
      emptied Delivery.lost_request = (refl, refl)
      emptied Delivery.lost_reply =
          (refl, omega (arith, h, kept, laws.remove_lem (HashKey.drain key) g s))
  drain_reply-Accounted d now key g (f ∷ fields) s db known h =
      counted (commit_fields redis hashes meanwhile d now (f ∷ fields) db)
        (commit_fields-Committed d now g (f ∷ fields) db known)
    where
      counted :
          (x : Option ℕ × Db)
          → Committed g (field_sum g (f ∷ fields)) db.posts x
          → let (r, after) : Option Drained × (S × Db) = elim x.0 [
            | none ↦ (none, (s, x.1))
            | some m ↦ (some (Drained.committed m), (s, x.1))
          ] in
            Accounted key g (buffered g s + drained_of key g s) db.posts r after
      counted (none, db') e = (e, refl)
      counted (some m, db') e = (field_sum g (f ∷ fields), e, omega (arith, h))

  drain_fields-Accounted :
      (d : FlushDeliveries) (now key g : ℕ) (s : S) (db : Db)
      → d.commit ≢ Delivery.lost_reply
      → let (r, after) = drain_fields redis hashes meanwhile d now key (s, db) in
        Accounted key g (buffered g s + drained_of key g s) db.posts r after
  unfolding drain_fields
  drain_fields-Accounted d now key g s db known = read d.hgetall
    where
      read :
          (b : Delivery)
          → let (reply, s') = deliver b (hashes.hgetall (HashKey.drain key) s, s) s in
            let (r, after) = drain_reply redis hashes meanwhile d now key reply (s', db) in
            Accounted key g (buffered g s + drained_of key g s) db.posts r after
      read Delivery.answered =
          drain_reply-Accounted d now key g (hashes.hgetall (HashKey.drain key) s) s db known
            (laws.hgetall_lem (HashKey.drain key) g s)
      read Delivery.lost_request = (refl, refl)
      read Delivery.lost_reply = (refl, refl)

  -- The drain key is new: nothing is in it.
  pub drain_buffer-Accounted :
      (d : FlushDeliveries) (now key g : ℕ) (s : S) (db : Db)
      → d.commit ≢ Delivery.lost_reply
      → drained_of key g s ≡ 0
      → let (r, after) = drain_buffer redis hashes meanwhile d now key (s, db) in
        Accounted key g (buffered g s + n 0 g + n 1 g) db.posts r after
  unfolding drain_buffer
  drain_buffer-Accounted d now key g s db known new =
      renamed d.rename (hashes.key_exists HashKey.view_buffer (meanwhile 0 s)) refl
    where
      moved : S
      moved = hashes.rename HashKey.view_buffer (HashKey.drain key) (meanwhile 0 s)

      same_buffered : buffered g (meanwhile 1 (meanwhile 0 s)) ≡ buffered g s + n 0 g + n 1 g
      same_buffered = omega (arith, tracks 0 g s, tracks 1 g (meanwhile 0 s))

      same_total :
          buffered g (meanwhile 1 (meanwhile 0 s)) + drained_of key g (meanwhile 1 (meanwhile 0 s))
          ≡ buffered g s + n 0 g + n 1 g
      same_total =
          omega (arith, new, same_buffered, leaves 0 key g s, leaves 1 key g (meanwhile 0 s))

      moved_total :
          buffered g (meanwhile 1 moved) + drained_of key g (meanwhile 1 moved)
          ≡ buffered g s + n 0 g + n 1 g
      moved_total = omega (
        arith,
        tracks 0 g s,
        tracks 1 g moved,
        leaves 1 key g moved,
        laws.rename_source HashKey.view_buffer (HashKey.drain key) g (meanwhile 0 s)
            (buffer-ne-drain key),
        laws.rename_target HashKey.view_buffer (HashKey.drain key) g (meanwhile 0 s)
            (buffer-ne-drain key),
      )

      renamed :
          (b : Delivery) (exists : Bool)
          → hashes.key_exists HashKey.view_buffer (meanwhile 0 s) ≡ exists
          → let (reply, s1) =
              deliver b
                (if exists
                  then (true, hashes.rename HashKey.view_buffer (HashKey.drain key) (meanwhile 0 s))
                  else (false, meanwhile 0 s))
                (meanwhile 0 s) in
            let (r, after) : Option Drained × (S × Db) = elim reply [
              | none ↦ (none, (meanwhile 1 s1, db))
              | some false ↦ (some Drained.nothing, (meanwhile 1 s1, db))
              | some true ↦ drain_fields redis hashes meanwhile d now key (meanwhile 1 s1, db)
            ] in
            Accounted key g (buffered g s + n 0 g + n 1 g) db.posts r after
      renamed Delivery.answered true h =
          subst
            (λ (t : ℕ).
              let (r, after) =
                drain_fields redis hashes meanwhile d now key (meanwhile 1 moved, db) in
              Accounted key g t db.posts r after)
            moved_total (drain_fields-Accounted d now key g (meanwhile 1 moved) db known)
      renamed Delivery.answered false h = (refl, same_buffered)
      renamed Delivery.lost_request true h = (refl, same_total)
      renamed Delivery.lost_request false h = (refl, same_total)
      renamed Delivery.lost_reply true h = (refl, moved_total)
      renamed Delivery.lost_reply false h = (refl, same_total)
