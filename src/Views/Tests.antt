-- ===== src/Views/Tests.antt =====
-- Runs of the view counters on a store of texts and hashes, and the theorems at such inputs.
use puppytalk_be.Base.{
  ℕ, ◌+◌, ◌≤◌, ◌<◌, ◌≡◌, ◌≢◌, refl, sym, ap, arith, Bool, true, false, Option, none, some, List, [],
  ◌∷◌, ◌==◌, if◌then◌else◌, ==_refl, ==_iff, Bool-cases, inl, inr, is_none,
}
use puppytalk_be.Fixtures.{sample_db}
use puppytalk_be.Db.Rows.{Db}
use puppytalk_be.Posts
use puppytalk_be.Redis.{Delivery, Redis, IsRedis}
use puppytalk_be.Redis.Store.{Store, store, store-IsRedis}
use puppytalk_be.Redis.Hashes.{
  HashKey, Hashes, IsHashes, MergeDeliveries, pending, field_sum, merge_hash_into,
}
use puppytalk_be.Views.{FlushDeliveries, TrackDeliveries, count_view, flush_view_counts_to_db}
use puppytalk_be.Views.Flush
use puppytalk_be.Views.Sums.{views_at}
use puppytalk_be.Views.Tracking
use puppytalk_be.Views.Dedup.{ViewEvent, prompt, run_views, viewers_count_once}

abbrev State : Type 0
State = Store × (HashKey → List (ℕ × ℕ))

abbrev same_hash : HashKey → HashKey → Bool
same_hash HashKey.view_buffer HashKey.view_buffer = true
same_hash HashKey.view_buffer (HashKey.drain b) = false
same_hash (HashKey.drain a) HashKey.view_buffer = false
same_hash (HashKey.drain a) (HashKey.drain b) = a == b

same_hash_refl : (k : HashKey) → same_hash k k ≡ true
same_hash_refl HashKey.view_buffer = refl
same_hash_refl (HashKey.drain a) = ==_refl a

same_hash_ne : (k j : HashKey) → k ≢ j → same_hash k j ≡ false
same_hash_ne HashKey.view_buffer HashKey.view_buffer ne = absurd (ne refl)
same_hash_ne HashKey.view_buffer (HashKey.drain b) ne = refl
same_hash_ne (HashKey.drain a) HashKey.view_buffer ne = refl
same_hash_ne (HashKey.drain a) (HashKey.drain b) ne = elim (Bool-cases (a == b)) [
  | inl e ↦ absurd (ne (ap HashKey.drain ((==_iff a b).0 e)))
  | inr e ↦ e
]

abbrev is_empty : List (ℕ × ℕ) → Bool
is_empty [] = true
is_empty (x ∷ l) = false

abbrev put_hash : HashKey → List (ℕ × ℕ) → State → State
put_hash j l (texts, hash) = (texts, λ k. if same_hash k j then l else hash k)

abbrev redis : Redis State
redis = record {
  get = λ k s. store.get k s.0;
  set = λ k v ttl s. (store.set k v ttl s.0, s.1);
  set_nx = λ k v ttl s.
      if is_none (store.get k s.0) then (true, (store.set k v ttl s.0, s.1)) else (false, s);
  delete = λ k s. (store.delete k s.0, s.1);
}

redis-IsRedis : IsRedis redis
redis-IsRedis = record {
  get_set = λ k v ttl s. store-IsRedis.get_set k v ttl s.0;
  get_set_other = λ k j v ttl s. store-IsRedis.get_set_other k j v ttl s.0;
  set_nx_lem = λ k v ttl s. refl;
  get_delete = λ k s. store-IsRedis.get_delete k s.0;
  get_delete_other = λ k j s. store-IsRedis.get_delete_other k j s.0;
}

-- A hash lists the counts that were added; a field has their sum.
abbrev hashes : Hashes State
hashes = record {
  hget = λ k f s. some (field_sum f (s.1 k));
  hgetall = λ k s. s.1 k;
  hincrby = λ k f n s. (field_sum f (s.1 k) + n, put_hash k ((f, n) ∷ s.1 k) s);
  key_exists = λ k s. if is_empty (s.1 k) then false else true;
  rename = λ k j s. put_hash k [] (put_hash j (s.1 k) s);
  remove = λ k s. put_hash k [] s;
}

empty_sum :
    (f : ℕ) (l : List (ℕ × ℕ)) → (if is_empty l then false else true) ≡ false → field_sum f l ≡ 0
empty_sum f [] h = refl
empty_sum f (x ∷ l) h = cc

hashes-IsHashes : IsHashes hashes redis
hashes-IsHashes = record {
  hgetall_lem = λ k f s. refl;
  hincrby_reply = λ k f n s. refl;
  hincrby_lem = λ k f g n s. rw (same_hash_refl k) (omega arith);
  hincrby_other = λ k j f g n s ne. rw (same_hash_ne k j ne) refl;
  no_key = λ k f s h. empty_sum f (s.1 k) h;
  rename_source = λ k j f s ne. rw (same_hash_refl k) refl;
  rename_target = λ k j f s ne. rw (same_hash_refl j, same_hash_ne j k (λ e. ne (sym e))) refl;
  remove_lem = λ k f s. rw (same_hash_refl k) refl;
  remove_other = λ k j f s ne. rw (same_hash_ne k j ne) refl;
  pending_set = λ k f j v ttl s. refl;
  pending_delete = λ k f j s. refl;
  get_hincrby = λ j k f n s. refl;
}

-- Between the commands of a flush the post 10 is viewed once more.
abbrev viewed_meanwhile : ℕ → State → State
viewed_meanwhile i s = (hashes.hincrby HashKey.view_buffer 10 1 s).1

abbrev tracked_meanwhile : ℕ → ℕ → ℕ
tracked_meanwhile i g = if 10 == g then 1 else 0

viewed_meanwhile-tracks :
    (i g : ℕ) (s : State)
    → pending hashes HashKey.view_buffer g (viewed_meanwhile i s)
      ≡ pending hashes HashKey.view_buffer g s + tracked_meanwhile i g
viewed_meanwhile-tracks i g s = hashes-IsHashes.hincrby_lem HashKey.view_buffer 10 g 1 s

viewed_meanwhile-leaves :
    (i k g : ℕ) (s : State)
    → pending hashes (HashKey.drain k) g (viewed_meanwhile i s)
      ≡ pending hashes (HashKey.drain k) g s
viewed_meanwhile-leaves i k g s = refl

abbrev empty : State
empty = ((λ k. none), (λ k. []))

-- Four views of the post 10 in the buffer.
abbrev buffered_views : State
buffered_views = (hashes.hincrby HashKey.view_buffer 10 4 empty).1

abbrev answered_merge : MergeDeliveries
answered_merge = record {
  hgetall = Delivery.answered;
  hincrby = λ f. Delivery.answered;
  delete = Delivery.answered;
}

-- The reply of HGETALL is lost: the drain is merged back.
abbrev lost_drain : FlushDeliveries
lost_drain = record {
  lock = Delivery.answered;
  rename = Delivery.answered;
  hgetall = Delivery.lost_reply;
  delete_empty = Delivery.answered;
  commit = Delivery.answered;
  merge = answered_merge;
  delete = Delivery.answered;
  release = Delivery.answered;
}

abbrev lossless : FlushDeliveries
lossless = record lost_drain { hgetall = Delivery.answered }

abbrev flushed : FlushDeliveries → Option ℕ × (State × Db)
flushed d =
    flush_view_counts_to_db redis hashes viewed_meanwhile d 900 120 7 1 (buffered_views, sample_db)

flush_commits :
    ((flushed lossless).0 ≡ some 5)
    × (pending hashes HashKey.view_buffer 10 (flushed lossless).1.0 ≡ 2)
unfolding flush_view_counts_to_db Posts.increment_view_count
flush_commits = (refl, refl)

lost_drain_merges :
    ((flushed lost_drain).0 ≡ none)
    × (pending hashes HashKey.view_buffer 10 (flushed lost_drain).1.0 ≡ 7)
unfolding flush_view_counts_to_db merge_hash_into
lost_drain_merges = (refl, refl)

-- The commit is applied and its acknowledgement is lost: the five drained views are in the database, and
-- merged back into the buffer.
abbrev lost_commit : FlushDeliveries
lost_commit = record lossless { commit = Delivery.lost_reply }

lost_commit_counts_twice :
    ((flushed lost_commit).0 ≡ none)
    × (pending hashes HashKey.view_buffer 10 (flushed lost_commit).1.0 ≡ 7)
    × (views_at 10 (flushed lost_commit).1.1.posts ≡ 5)
unfolding flush_view_counts_to_db merge_hash_into Posts.increment_view_count
lost_commit_counts_twice = (refl, refl, refl)

flush_never_inflates_example :
    Flush.counted redis hashes hashes-IsHashes viewed_meanwhile tracked_meanwhile
      viewed_meanwhile-tracks viewed_meanwhile-leaves 10
      (flushed lost_drain).1
    ≤ 4 + 3
flush_never_inflates_example =
    Flush.flush_never_inflates redis hashes hashes-IsHashes viewed_meanwhile tracked_meanwhile
      viewed_meanwhile-tracks viewed_meanwhile-leaves redis-IsRedis lost_drain 900 120 7 1 10
      buffered_views sample_db (λ e. cc) refl

flush_keeps_views_example :
    Flush.counted redis hashes hashes-IsHashes viewed_meanwhile tracked_meanwhile
      viewed_meanwhile-tracks viewed_meanwhile-leaves 10
      (flushed lost_drain).1
    ≡ 4 + 3
flush_keeps_views_example =
    Flush.flush_keeps_views redis hashes hashes-IsHashes viewed_meanwhile tracked_meanwhile
      viewed_meanwhile-tracks viewed_meanwhile-leaves redis-IsRedis lost_drain 900 120 7 1 10
      buffered_views sample_db (λ e. cc) refl refl refl
      (record { hgetall = refl; hincrby = λ f. refl; delete = refl }) refl

-- SET applied, its reply lost: the view goes to the database.
abbrev lost_mark : TrackDeliveries
lost_mark = record prompt { set = Delivery.lost_reply }

fresh_view_counts_once_example :
    Tracking.counted redis hashes redis-IsRedis hashes-IsHashes 10
      (count_view redis hashes lost_mark 900 3600 10 5 (empty, sample_db)).1
    ≡ 0 + 1
fresh_view_counts_once_example =
    Tracking.fresh_view_counts_once redis hashes redis-IsRedis hashes-IsHashes lost_mark 900 3600 10
      5 empty sample_db (omega arith) refl (λ e. cc) refl

abbrev lost_increment : TrackDeliveries
lost_increment = record prompt { hincrby = Delivery.lost_reply }

lost_increment_counts_twice_example :
    Tracking.counted redis hashes redis-IsRedis hashes-IsHashes 10
      (count_view redis hashes lost_increment 900 3600 10 5 (empty, sample_db)).1
    ≡ 0 + 2
lost_increment_counts_twice_example =
    Tracking.lost_increment_counts_twice redis hashes redis-IsRedis hashes-IsHashes lost_increment
      900 3600 10 5 empty sample_db (omega arith) refl refl refl refl

-- Viewer 5 comes back once within its window and once behind it.
abbrev some_views : List ViewEvent
some_views =
    ViewEvent.view 10 5
    ∷ ViewEvent.view 10 6
    ∷ ViewEvent.view 10 5
    ∷ ViewEvent.view 11 5
    ∷ ViewEvent.expire 10 5
    ∷ ViewEvent.view 10 5
    ∷ []

hour_positive : 0 < 3600
hour_positive = omega arith

viewers_count_once_example :
    (pending hashes HashKey.view_buffer 10
        (run_views redis hashes redis-IsRedis hashes-IsHashes 3600 hour_positive 900 some_views
          (empty, sample_db)).0
      ≡ 3)
    × ((run_views redis hashes redis-IsRedis hashes-IsHashes 3600 hour_positive 900 some_views
          (empty, sample_db)).1
        ≡ sample_db)
viewers_count_once_example =
    viewers_count_once redis hashes redis-IsRedis hashes-IsHashes 3600 hour_positive 900 10
      some_views empty sample_db (λ q w. refl)
