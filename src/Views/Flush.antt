-- ===== src/Views/Flush.antt =====
-- A flush neither counts a view twice nor, unless its merge fails, loses one:
-- `PostService.flush_view_counts_to_db` of app/domain/posts/services/post_service.py.
use puppytalk_be.Base.{
  ℕ, ◌+◌, ◌≤◌, ◌≡◌, ◌≢◌, refl, sym, arith, Option, none, some, List, count_rows,
}
use mathlib.Core.Path.{subst}
use puppytalk_be.Db.Rows.{Db, Post}
use puppytalk_be.Redis.{Key, Value, Delivery, Redis, IsRedis}
use puppytalk_be.Redis.Locks.{try_acquire_lock, release_lock}
use puppytalk_be.Redis.Hashes.{HashKey, Hashes, IsHashes, pending}
use puppytalk_be.Views.{
  FlushDeliveries, Drained, drain_buffer, finish_drain, flush_locked, flush_under,
  flush_view_counts_to_db,
}
use puppytalk_be.Views.Sums.{is_alive_at, views_at}
use puppytalk_be.Views.Drain.{buffer-ne-drain, IsAnswered, merge_bound, merge_exact, remove_bound}
use puppytalk_be.Views.Accounts.{buffered, Accounted, drain_buffer-Accounted}

module _ {S : Type 0} (redis : Redis S) (hashes : Hashes S) (laws : IsHashes hashes redis)
    (meanwhile : ℕ → S → S) (n : ℕ → ℕ → ℕ)
    (tracks : (i g : ℕ) (s : S)
      → pending hashes HashKey.view_buffer g (meanwhile i s)
        ≡ pending hashes HashKey.view_buffer g s + n i g)
    (leaves : (i k g : ℕ) (s : S)
      → pending hashes (HashKey.drain k) g (meanwhile i s)
        ≡ pending hashes (HashKey.drain k) g s) where
  -- The views of `g` that the database shows and that the buffer holds.
  abbrev pub counted : ℕ → S × Db → ℕ
  counted g (s, db) = views_at g db.posts + pending hashes HashKey.view_buffer g s

  finish_bound :
      (d : FlushDeliveries) (key g total : ℕ) (posts : List Post) (r : Option Drained) (s : S)
      (db : Db)
      → Accounted redis hashes laws meanwhile n tracks leaves key g total posts r (s, db)
      → counted g (finish_drain redis hashes meanwhile d key r (meanwhile 2 s, db)).1
        ≤ views_at g posts + total + n 2 g
  unfolding finish_drain
  finish_bound d key g total posts none s db (same, sum) = rw same (
      omega (
        arith,
        sum,
        tracks 2 g s,
        leaves 2 key g s,
        merge_bound redis hashes laws d.merge HashKey.view_buffer (HashKey.drain key) g
            (meanwhile 2 s) (buffer-ne-drain key),
      ))
  finish_bound d key g total posts (some Drained.nothing) s db (same, sum) =
      rw same (omega (arith, sum, tracks 2 g s))
  finish_bound d key g total posts (some (Drained.committed m)) s db (x, adds, sum) = omega (
    arith,
    sum,
    adds.bound,
    tracks 2 g s,
    remove_bound redis hashes laws d.delete HashKey.view_buffer (HashKey.drain key) g
        (meanwhile 2 s) (buffer-ne-drain key),
  )

  finish_exact :
      (d : FlushDeliveries) (key g total : ℕ) (posts : List Post) (r : Option Drained) (s : S)
      (db : Db)
      → IsAnswered d.merge
      → count_rows (is_alive_at g) posts ≡ 1
      → Accounted redis hashes laws meanwhile n tracks leaves key g total posts r (s, db)
      → counted g (finish_drain redis hashes meanwhile d key r (meanwhile 2 s, db)).1
        ≡ views_at g posts + total + n 2 g
  unfolding finish_drain
  finish_exact d key g total posts none s db answered one (same, sum) = rw same (
      omega (
        arith,
        sum,
        tracks 2 g s,
        leaves 2 key g s,
        merge_exact redis hashes laws d.merge HashKey.view_buffer (HashKey.drain key) g
            (meanwhile 2 s) (buffer-ne-drain key) answered,
      ))
  finish_exact d key g total posts (some Drained.nothing) s db answered one (same, sum) =
      rw same (omega (arith, sum, tracks 2 g s))
  finish_exact d key g total posts (some (Drained.committed m)) s db answered one (x, adds, sum) =
      omega (
        arith,
        sum,
        adds.exact one,
        tracks 2 g s,
        remove_bound redis hashes laws d.delete HashKey.view_buffer (HashKey.drain key) g
            (meanwhile 2 s) (buffer-ne-drain key),
      )

  locked_bound :
      (d : FlushDeliveries) (now key g : ℕ) (s : S) (db : Db)
      → d.commit ≢ Delivery.lost_reply
      → pending hashes (HashKey.drain key) g s ≡ 0
      → counted g (flush_locked redis hashes meanwhile d now key (s, db)).1
        ≤ counted g (s, db) + (n 0 g + n 1 g + n 2 g)
  unfolding flush_locked
  locked_bound d now key g s db known new =
      let (r, (s', db')) = drain_buffer redis hashes meanwhile d now key (s, db) in
      omega (
        arith,
        finish_bound d key g
            (buffered redis hashes laws meanwhile n tracks leaves g s + n 0 g + n 1 g) db.posts r s'
            db'
            (drain_buffer-Accounted redis hashes laws meanwhile n tracks leaves d now key g s db
              known new),
      )

  locked_exact :
      (d : FlushDeliveries) (now key g : ℕ) (s : S) (db : Db)
      → d.commit ≢ Delivery.lost_reply
      → pending hashes (HashKey.drain key) g s ≡ 0
      → IsAnswered d.merge
      → count_rows (is_alive_at g) db.posts ≡ 1
      → counted g (flush_locked redis hashes meanwhile d now key (s, db)).1
        ≡ counted g (s, db) + (n 0 g + n 1 g + n 2 g)
  unfolding flush_locked
  locked_exact d now key g s db known new answered one =
      let (r, (s', db')) = drain_buffer redis hashes meanwhile d now key (s, db) in
      omega (
        arith,
        finish_exact d key g
            (buffered redis hashes laws meanwhile n tracks leaves g s + n 0 g + n 1 g) db.posts r s'
            db' answered one
            (drain_buffer-Accounted redis hashes laws meanwhile n tracks leaves d now key g s db
              known new),
      )

  module _ (redis_laws : IsRedis redis) where
    acquire_pending :
        (d : Delivery) (ttl token g : ℕ) (k : HashKey) (s : S)
        → pending hashes k g (try_acquire_lock redis d Key.view_flush_lock ttl token s).1
          ≡ pending hashes k g s
    acquire_pending d ttl token g k s = taken d
      where
        set_nx_pending :
            pending hashes k g (redis.set_nx Key.view_flush_lock (Value.token token) ttl s).1
            ≡ pending hashes k g s
        set_nx_pending = ground (
          arith,
          redis_laws.set_nx_lem Key.view_flush_lock (Value.token token) ttl s,
          laws.pending_set k g Key.view_flush_lock (Value.token token) ttl s,
        )

        taken :
            (b : Delivery)
            → pending hashes k g (try_acquire_lock redis b Key.view_flush_lock ttl token s).1
              ≡ pending hashes k g s
        taken Delivery.answered = ground (arith, set_nx_pending)
        taken Delivery.lost_request = refl
        taken Delivery.lost_reply = set_nx_pending

    release_pending :
        (d : Delivery) (token g : ℕ) (s : S)
        → pending hashes HashKey.view_buffer g (release_lock redis d Key.view_flush_lock token s)
          ≡ pending hashes HashKey.view_buffer g s
    release_pending d token g s =
        ground (arith, laws.pending_delete HashKey.view_buffer g Key.view_flush_lock s)

    under_bound :
        (d : FlushDeliveries) (now key g : ℕ) (lock : Option (Option ℕ)) (s : S) (db : Db)
        → d.commit ≢ Delivery.lost_reply
        → pending hashes (HashKey.drain key) g s ≡ 0
        → counted g (flush_under redis hashes meanwhile d now key lock (s, db)).1
          ≤ counted g (s, db) + (n 0 g + n 1 g + n 2 g)
    unfolding flush_under
    under_bound d now key g none s db known new = omega arith
    under_bound d now key g (some none) s db known new = omega arith
    under_bound d now key g (some (some token)) s db known new =
        let (r, (s', db')) = flush_locked redis hashes meanwhile d now key (s, db) in
        omega (arith, locked_bound d now key g s db known new, release_pending d.release token g s')

    -- Unless a commit is applied and raises all the same, a flush never makes up a view, however its
    -- commands end, whether its transaction commits or is rolled back, and whatever other processes
    -- track meanwhile (n i g views of the post g at the step i): the views of g that the database shows
    -- together with those in the buffer grow by the tracked ones at most. The drain key is new.
    pub flush_never_inflates :
        (d : FlushDeliveries) (now ttl token key g : ℕ) (s : S) (db : Db)
        → d.commit ≢ Delivery.lost_reply
        → pending hashes (HashKey.drain key) g s ≡ 0
        → counted g (flush_view_counts_to_db redis hashes meanwhile d now ttl token key (s, db)).1
          ≤ counted g (s, db) + (n 0 g + n 1 g + n 2 g)
    unfolding flush_view_counts_to_db
    flush_never_inflates d now ttl token key g s db known new =
        let (lock, s') = try_acquire_lock redis d.lock Key.view_flush_lock ttl token s in
        omega (
          arith,
          acquire_pending d.lock ttl token g HashKey.view_buffer s,
          under_bound d now key g lock s' db known
              (omega (arith, new, acquire_pending d.lock ttl token g (HashKey.drain key) s)),
        )

    acquire_free :
        (d : Delivery) (ttl token : ℕ) (s : S)
        → d ≡ Delivery.answered
        → redis.get Key.view_flush_lock s ≡ none
        → (try_acquire_lock redis d Key.view_flush_lock ttl token s).0 ≡ some (some token)
    acquire_free d ttl token s sent free =
        ground
          (arith, sent, free, redis_laws.set_nx_lem Key.view_flush_lock (Value.token token) ttl s)

    under_exact :
        (d : FlushDeliveries) (now token key g : ℕ) (s : S) (db : Db)
        → d.commit ≢ Delivery.lost_reply
        → pending hashes (HashKey.drain key) g s ≡ 0
        → IsAnswered d.merge
        → count_rows (is_alive_at g) db.posts ≡ 1
        → counted g (flush_under redis hashes meanwhile d now key (some (some token)) (s, db)).1
          ≡ counted g (s, db) + (n 0 g + n 1 g + n 2 g)
    unfolding flush_under
    under_exact d now token key g s db known new answered one =
        let (r, (s', db')) = flush_locked redis hashes meanwhile d now key (s, db) in
        omega (
          arith,
          locked_exact d now key g s db known new answered one,
          release_pending d.release token g s',
        )

    -- A flush that takes the free lock loses no view of a post that is there, whichever of its other
    -- commands raises and whether its transaction commits or is rolled back, as long as no command of
    -- the merge raises, no commit is applied and raises all the same, and the drain key is new: the
    -- views of the post in the database and in the buffer are those before and those tracked meanwhile.
    pub flush_keeps_views :
        (d : FlushDeliveries) (now ttl token key g : ℕ) (s : S) (db : Db)
        → d.commit ≢ Delivery.lost_reply
        → pending hashes (HashKey.drain key) g s ≡ 0
        → d.lock ≡ Delivery.answered
        → redis.get Key.view_flush_lock s ≡ none
        → IsAnswered d.merge
        → count_rows (is_alive_at g) db.posts ≡ 1
        → counted g (flush_view_counts_to_db redis hashes meanwhile d now ttl token key (s, db)).1
          ≡ counted g (s, db) + (n 0 g + n 1 g + n 2 g)
    unfolding flush_view_counts_to_db
    flush_keeps_views d now ttl token key g s db known new sent free answered one =
        let (lock, s') = try_acquire_lock redis d.lock Key.view_flush_lock ttl token s in
        let taken = acquire_free d.lock ttl token s sent free in
        let still_new : pending hashes (HashKey.drain key) g s' ≡ 0 =
          omega (arith, new, acquire_pending d.lock ttl token g (HashKey.drain key) s) in
        subst
          (λ (l : Option (Option ℕ)).
            counted g (flush_under redis hashes meanwhile d now key l (s', db)).1
            ≡ counted g (s, db) + (n 0 g + n 1 g + n 2 g))
          (sym taken)
          (omega (
            arith,
            acquire_pending d.lock ttl token g HashKey.view_buffer s,
            under_exact d now token key g s' db known still_new answered one,
          ))
