-- ===== src/Views.antt =====
-- View counts of posts: `_track_view`, `PostService.get_post_detail` and
-- `PostService.flush_view_counts_to_db` of app/domain/posts/services/post_service.py.
pub mod Sums
pub mod Committing
pub mod Tracking
pub mod Accounts
pub mod Flush
pub mod Drain
pub mod Dedup
mod Tests
use puppytalk_be.Base.{
  ℕ, ◌+◌, Bool, true, false, ◌&&◌, not, Option, none, some, or_zero, List, [], ◌∷◌, map, where_rows,
  exists_row, Result, ok, err, ltb, ◌==◌, if◌then◌else◌,
}
use puppytalk_be.Errors.{AppError}
use puppytalk_be.Db.Rows.{Db, Post}
use puppytalk_be.Db.Tx.{Tx, pure, begin, ◌>>=◌}
use puppytalk_be.Db.Statements.{select_one_or_none}
use puppytalk_be.Posts
use puppytalk_be.Redis.{Key, Value, Delivery, Redis, deliver}
use puppytalk_be.Redis.Locks.{try_acquire_lock, release_lock}
use puppytalk_be.Redis.Hashes.{HashKey, Hashes, rename_if_exists, MergeDeliveries, merge_hash_into}

-- `PostsRepository.get_post_detail`: the row and `is_liked`.
unfoldable pub find_detail : ℕ → Option ℕ → Tx (Option (Post × Bool))
unfolding select_one_or_none
find_detail post_id viewer = select_one_or_none (λ db.
    map
      (λ p. (
        p,
        elim viewer [
          | none ↦ false
          | some u ↦ exists_row (λ l. l.target_id == p.id && l.user_id == u) db.post_likes
        ],
      ))
      (where_rows (λ p. p.id == post_id && Posts.post_visible viewer db p) db.posts))

-- How the commands of `_track_view` end.
pub record TrackDeliveries : Type 0 where
  pub set : Delivery
  pub hincrby : Delivery
  pub hget : Delivery

-- How the commands of one flush end, and its transaction: `commit` is `lost_request` when the connection,
-- a statement or the commit raises and nothing is applied, and `lost_reply` when the commit is applied
-- and its acknowledgement is lost or the closing of the connection raises.
pub record FlushDeliveries : Type 0 where
  pub lock : Delivery
  pub rename : Delivery
  pub hgetall : Delivery
  pub delete_empty : Delivery
  pub commit : Delivery
  pub merge : MergeDeliveries
  pub delete : Delivery
  pub release : Delivery

-- What is left of the work behind a drain: nothing, or the committed sum.
pub data Drained : Type 0 where
  nothing : Drained
  committed : ℕ → Drained

-- The loop of the transaction: the sum of the positive deltas, `flushed_views`.
pub apply_fields : ℕ → List (ℕ × ℕ) → Tx ℕ
unfolding Posts.increment_view_count
apply_fields now [] = pure 0
apply_fields now ((f, delta) ∷ fields) =
    (if ltb 0 delta
      then Posts.increment_view_count now f delta >>= (λ found. pure delta)
      else pure 0)
    >>= λ n. apply_fields now fields >>= λ m. pure (n + m)

module _ {S : Type 0} (redis : Redis S) (hashes : Hashes S) where
  -- `raw` of HGET as a number.
  abbrev pub read_pending : Delivery → ℕ → S → Option ℕ × S
  read_pending d post_id s = deliver d (or_zero (hashes.hget HashKey.view_buffer post_id s), s) s

  abbrev add_view : Delivery → ℕ → S → Option ℕ × S
  add_view d post_id s = deliver d (hashes.hincrby HashKey.view_buffer post_id 1 s) s

  -- The body of the `try` of `_track_view`: the pending count, or `none` for an exception.
  unfoldable pub track_commands : TrackDeliveries → ℕ → ℕ → ℕ → S → Option ℕ × S
  track_commands d ttl post_id viewer s =
      let (created, s') =
        deliver d.set (redis.set_nx (Key.view_dedup post_id viewer) Value.flag ttl s) s in
      if ltb 0 ttl
      then elim created [
        | none ↦ (none, s')
        | some first ↦
            (if first then add_view d.hincrby post_id s' else read_pending d.hget post_id s')
      ]
      else add_view d.hincrby post_id s

  -- The end of the `try`, and the `except`.
  abbrev pub tracked : Option ℕ × S → (Bool × ℕ) × S
  tracked (none, s) = ((true, 0), s)
  tracked (some n, s) = ((false, n), s)

  -- `_track_view` with a client: whether the writer database is to count the view, and the pending
  -- count.
  unfoldable pub track_view : TrackDeliveries → ℕ → ℕ → ℕ → S → (Bool × ℕ) × S
  unfolding track_commands
  track_view d ttl post_id viewer s = tracked (track_commands d ttl post_id viewer s)

  -- `_get_buffer_pending` with a client.
  abbrev pub get_buffer_pending : Delivery → ℕ → S → ℕ
  get_buffer_pending d post_id s = or_zero (read_pending d post_id s).0

  -- The direct increment of `get_post_detail`, whose exception rolls its transaction back: what is added
  -- to the shown count.
  unfoldable pub count_tracked : ℕ → ℕ → (Bool × ℕ) × S → Db → Result AppError ℕ × (S × Db)
  unfolding Posts.increment_view_count
  count_tracked now post_id ((true, pending), s) db =
      let (r, db') = begin (Posts.increment_view_count now post_id 1) db in
      elim r [ ok found ↦ (ok (pending + 1), (s, db')) | err e ↦ (err e, (s, db')) ]
  count_tracked now post_id ((false, pending), s) db = (ok pending, (s, db))

  -- The counting of `get_post_detail` with a writer database.
  unfoldable pub count_view :
      TrackDeliveries → ℕ → ℕ → ℕ → ℕ → S × Db → Result AppError ℕ × (S × Db)
  unfolding track_view count_tracked
  count_view d now ttl post_id viewer (s, db) =
      count_tracked now post_id (track_view d ttl post_id viewer s) db

  -- `get_post_detail` with a writer database: the row with `is_liked` and the shown `view_count`.
  pub get_post_detail :
      TrackDeliveries
      → ℕ
      → ℕ
      → ℕ
      → ℕ
      → Option ℕ
      → S × Db
      → Result AppError ((Post × Bool) × ℕ) × (S × Db)
  unfolding find_detail count_view
  get_post_detail d now ttl post_id viewer_key viewer (s, db) =
      let (found, db') = begin (find_detail post_id viewer) db in
      let (counted, after) = count_view d now ttl post_id viewer_key (s, db) in
      elim found [
        | err e ↦ (err e, (s, db))
        | ok none ↦ (err AppError.post_not_found, (s, db))
        | ok (some (p, is_liked)) ↦ elim counted [
          | ok n ↦ (ok ((p, is_liked), p.view_count + n), after)
          | err e ↦ (err e, after)
        ]
      ]

  -- Between the commands of a flush other processes work on the store: `meanwhile 0` behind the lock,
  -- `meanwhile 1` behind RENAME and `meanwhile 2` before the hash is merged back or deleted.
  module _ (meanwhile : ℕ → S → S) where
    -- The transaction over the drained fields inside `get_connection`; `none` when it raises, be it
    -- behind the commit.
    unfoldable pub commit_fields : FlushDeliveries → ℕ → List (ℕ × ℕ) → Db → Option ℕ × Db
    unfolding apply_fields
    commit_fields d now fields db =
        let (r, db') = begin (apply_fields now fields) db in
        elim r [ ok n ↦ deliver d.commit (n, db') db | err e ↦ (none, db) ]

    -- What follows the HGETALL of the drain key; `none` for an exception.
    unfoldable pub drain_reply :
        FlushDeliveries → ℕ → ℕ → Option (List (ℕ × ℕ)) → S × Db → Option Drained × (S × Db)
    unfolding commit_fields
    drain_reply d now key none (s, db) = (none, (s, db))
    drain_reply d now key (some []) (s, db) =
        let (deleted, s') =
          deliver d.delete_empty (tt {0}, hashes.remove (HashKey.drain key) s) s in
        elim deleted [ none ↦ (none, (s', db)) | some u ↦ (some Drained.nothing, (s', db)) ]
    drain_reply d now key (some (f ∷ fields)) (s, db) =
        let (sum, db') = commit_fields d now (f ∷ fields) db in
        elim sum [ none ↦ (none, (s, db')) | some n ↦ (some (Drained.committed n), (s, db')) ]

    unfoldable pub drain_fields : FlushDeliveries → ℕ → ℕ → S × Db → Option Drained × (S × Db)
    unfolding drain_reply
    drain_fields d now key (s, db) =
        let (reply, s') = deliver d.hgetall (hashes.hgetall (HashKey.drain key) s, s) s in
        drain_reply d now key reply (s', db)

    -- The whole inner `try`: RENAME first.
    unfoldable pub drain_buffer : FlushDeliveries → ℕ → ℕ → S × Db → Option Drained × (S × Db)
    unfolding drain_fields
    drain_buffer d now key (s, db) =
        let (renamed, s1) =
          deliver d.rename
            (rename_if_exists hashes HashKey.view_buffer (HashKey.drain key) (meanwhile 0 s))
            (meanwhile 0 s) in
        let s2 = meanwhile 1 s1 in
        elim renamed [
          | none ↦ (none, (s2, db))
          | some false ↦ (some Drained.nothing, (s2, db))
          | some true ↦ drain_fields d now key (s2, db)
        ]

    -- The `except` of the inner `try`, and the deletion of the drain key behind the commit: the sum for
    -- the metric, or `none` when the job raises.
    unfoldable pub finish_drain :
        FlushDeliveries → ℕ → Option Drained → S × Db → Option ℕ × (S × Db)
    unfolding merge_hash_into
    finish_drain d key none (s, db) =
        (none, ((merge_hash_into hashes d.merge (HashKey.drain key) HashKey.view_buffer s).1, db))
    finish_drain d key (some Drained.nothing) (s, db) = (some 0, (s, db))
    finish_drain d key (some (Drained.committed n)) (s, db) =
        (some n, ((deliver d.delete (tt {0}, hashes.remove (HashKey.drain key) s) s).1, db))

    unfoldable pub flush_locked : FlushDeliveries → ℕ → ℕ → S × Db → Option ℕ × (S × Db)
    unfolding drain_buffer finish_drain
    flush_locked d now key before =
        let (drained, (s, db)) = drain_buffer d now key before in
        finish_drain d key drained (meanwhile 2 s, db)

    -- What follows the attempt at the lock, with its release in the `finally`.
    unfoldable pub flush_under :
        FlushDeliveries → ℕ → ℕ → Option (Option ℕ) → S × Db → Option ℕ × (S × Db)
    unfolding flush_locked
    flush_under d now key none before = (none, before)
    flush_under d now key (some none) before = (some 0, before)
    flush_under d now key (some (some token)) before =
        let (r, (s, db)) = flush_locked d now key before in
        (r, (release_lock redis d.release Key.view_flush_lock token s, db))

    -- `flush_view_counts_to_db` with a client; `token` is the lock's, `key` the new drain key.
    unfoldable pub flush_view_counts_to_db :
        FlushDeliveries → ℕ → ℕ → ℕ → ℕ → S × Db → Option ℕ × (S × Db)
    unfolding flush_under
    flush_view_counts_to_db d now ttl token key (s, db) =
        let (lock, s') = try_acquire_lock redis d.lock Key.view_flush_lock ttl token s in
        flush_under d now key lock (s', db)
