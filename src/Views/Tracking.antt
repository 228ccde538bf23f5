-- ===== src/Views/Tracking.antt =====
-- Which views are counted: `_track_view` and `PostService.get_post_detail` of
-- app/domain/posts/services/post_service.py.
use puppytalk_be.Base.{ℕ, ◌+◌, ◌<◌, ◌≡◌, ◌≢◌, arith, true, Option, none, some, count_rows}
use puppytalk_be.Db.Rows.{Db}
use puppytalk_be.Redis.{Key, Value, Delivery, Redis, IsRedis}
use puppytalk_be.Redis.Hashes.{HashKey, Hashes, IsHashes, pending}
use puppytalk_be.Views.{
  TrackDeliveries, track_commands, tracked, track_view, count_tracked, count_view,
}
use puppytalk_be.Views.Sums.{is_alive_at, views_at, one_view}

module _ {S : Type 0} (redis : Redis S) (hashes : Hashes S) (redis_laws : IsRedis redis)
    (laws : IsHashes hashes redis) where
  -- The views of `g` that the database shows and that the buffer holds.
  abbrev pub counted : ℕ → S × Db → ℕ
  counted g (s, db) = views_at g db.posts + pending hashes HashKey.view_buffer g s

  -- A view whose tracking raises nothing is in the buffer, the others are left to the database.
  abbrev Tracked : ℕ → S → Option ℕ × S → Type 0
  Tracked g s (none, s') =
      pending hashes HashKey.view_buffer g s' ≡ pending hashes HashKey.view_buffer g s
  Tracked g s (some m, s') =
      pending hashes HashKey.view_buffer g s' ≡ pending hashes HashKey.view_buffer g s + 1

  dedup_pending :
      (post viewer ttl g : ℕ) (s : S)
      → redis.get (Key.view_dedup post viewer) s ≡ none
      → let (created, s') = redis.set_nx (Key.view_dedup post viewer) Value.flag ttl s in
        (created ≡ true)
        × (pending hashes HashKey.view_buffer g s' ≡ pending hashes HashKey.view_buffer g s)
  dedup_pending post viewer ttl g s free = ground (
    arith,
    free,
    redis_laws.set_nx_lem (Key.view_dedup post viewer) Value.flag ttl s,
    laws.pending_set HashKey.view_buffer g (Key.view_dedup post viewer) Value.flag ttl s,
  )

  track_commands-Tracked :
      (d : TrackDeliveries) (ttl post viewer : ℕ) (s : S)
      → 0 < ttl
      → redis.get (Key.view_dedup post viewer) s ≡ none
      → d.hincrby ≢ Delivery.lost_reply
      → Tracked post s (track_commands redis hashes d ttl post viewer s)
  unfolding track_commands
  track_commands-Tracked d ttl post viewer s pos free kept =
      let first = dedup_pending post viewer ttl post s free in
      ground (
        arith,
        pos,
        kept,
        first.0,
        first.1,
        laws.hincrby_lem HashKey.view_buffer post post 1
            (redis.set_nx (Key.view_dedup post viewer) Value.flag ttl s).1,
      )

  -- A post that has one row.
  counted_once :
      (d : TrackDeliveries) (now ttl post viewer : ℕ) (s : S) (db : Db)
      → count_rows (is_alive_at post) db.posts ≡ 1
      → Tracked post s (track_commands redis hashes d ttl post viewer s)
      → counted post (count_view redis hashes d now ttl post viewer (s, db)).1
        ≡ counted post (s, db) + 1
  unfolding count_view track_view count_tracked
  counted_once d now ttl post viewer s db one h =
      go (track_commands redis hashes d ttl post viewer s) h
    where
      go :
          (x : Option ℕ × S)
          → Tracked post s x
          → counted post (count_tracked redis hashes now post (tracked redis hashes x) db).1
            ≡ counted post (s, db) + 1
      go (some m, s') h = omega (arith, h)
      go (none, s') h =
          let (b, done, views) = one_view now post db one in rw done (omega (arith, h, views))

  -- A view by a viewer whose mark for the post is not set counts once, in the buffer or in the
  -- database, however the commands end, unless the reply of HINCRBY is lost.
  pub fresh_view_counts_once :
      (d : TrackDeliveries) (now ttl post viewer : ℕ) (s : S) (db : Db)
      → 0 < ttl
      → redis.get (Key.view_dedup post viewer) s ≡ none
      → d.hincrby ≢ Delivery.lost_reply
      → count_rows (is_alive_at post) db.posts ≡ 1
      → counted post (count_view redis hashes d now ttl post viewer (s, db)).1
        ≡ counted post (s, db) + 1
  fresh_view_counts_once d now ttl post viewer s db pos free kept one =
      counted_once d now ttl post viewer s db one
        (track_commands-Tracked d ttl post viewer s pos free kept)

  -- A view whose HINCRBY is applied and loses its reply counts twice.
  pub lost_increment_counts_twice :
      (d : TrackDeliveries) (now ttl post viewer : ℕ) (s : S) (db : Db)
      → 0 < ttl
      → redis.get (Key.view_dedup post viewer) s ≡ none
      → d.set ≡ Delivery.answered
      → d.hincrby ≡ Delivery.lost_reply
      → count_rows (is_alive_at post) db.posts ≡ 1
      → counted post (count_view redis hashes d now ttl post viewer (s, db)).1
        ≡ counted post (s, db) + 2
  unfolding count_view track_view track_commands count_tracked
  lost_increment_counts_twice d now ttl post viewer s db pos free set lost one =
      let first = dedup_pending post viewer ttl post s free in
      let (b, done, views) = one_view now post db one in
      ground (
        arith,
        pos,
        set,
        lost,
        first.0,
        first.1,
        done,
        views,
        laws.hincrby_lem HashKey.view_buffer post post 1
            (redis.set_nx (Key.view_dedup post viewer) Value.flag ttl s).1,
      )
