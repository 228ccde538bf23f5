-- ===== src/Cache.antt =====
-- Cached reads: `get_or_compute_json` of app/infra/cache.py. A value is a number, `encode` and `decode` are
-- the serialisation of its TypeAdapter, and `loaded` is what the loader returns, none for an exception.
pub mod FailOpen
mod Tests
use puppytalk_be.Base.{ℕ, zero, suc, ◌+◌, Bool, true, false, Option, none, some, if◌then◌else◌}
use puppytalk_be.Redis.{Key, Value, Delivery, Redis, deliver}
use puppytalk_be.Redis.Locks.{try_acquire_lock, release_lock}

-- How the commands end; `poll k` is the GET of the round with `k` rounds left.
pub record CacheDeliveries : Type 0 where
  pub get : Delivery
  pub acquire : Delivery
  pub poll : ℕ → Delivery
  pub store : Delivery
  pub release : Delivery

module _ {S : Type 0} (redis : Redis S) (encode : ℕ → ℕ) (decode : ℕ → Option ℕ)
    (key lock_key : Key) (ttl lock_ttl token : ℕ) where
  -- `_decode`: none for a missing, an empty and an invalid text.
  abbrev pub decode_value : Option Value → Option ℕ
  decode_value none = none
  decode_value (some (Value.digest e)) = none
  decode_value (some (Value.token e)) = none
  decode_value (some (Value.body b)) = decode b
  decode_value (some (Value.status st)) = none
  decode_value (some Value.flag) = none

  abbrev pub read_cache : Delivery → S → Option (Option ℕ) × S
  read_cache d s = deliver d (decode_value (redis.get key s), s) s

  -- The result of the loader behind a failed or missing read: the value, and the calls of the loader.
  abbrev pub fall_back : Option ℕ → S → (Option ℕ × ℕ) × S
  fall_back loaded s = ((loaded, 1), s)

  -- The polling while another worker holds the lock. Before the round with `k` rounds left others work on
  -- the store, `meanwhile k`.
  unfoldable pub wait_for_value :
      (ℕ → S → S) → (ℕ → Delivery) → ℕ → Option ℕ → S → (Option ℕ × ℕ) × S
  wait_for_value meanwhile d zero loaded s = fall_back loaded s
  wait_for_value meanwhile d (suc k) loaded s =
      let (reply, s') = read_cache (d k) (meanwhile k s) in
      elim reply [
        | none ↦ fall_back loaded s'
        | some none ↦ wait_for_value meanwhile d k loaded s'
        | some (some v) ↦ ((some v, 0), s')
      ]

  -- The loader under the lock, with the write of its value and the release.
  unfoldable pub compute_locked : CacheDeliveries → Option ℕ → ℕ → S → (Option ℕ × ℕ) × S
  compute_locked d none mine s = ((none, 1), release_lock redis d.release lock_key mine s)
  compute_locked d (some v) mine s = (
    (some v, 1),
    release_lock redis d.release lock_key mine
        (deliver d.store (tt {0}, redis.set key (Value.body (encode v)) ttl s) s).1,
  )

  -- What follows the attempt at the lock.
  unfoldable pub compute_under :
      (ℕ → S → S) → CacheDeliveries → ℕ → Option ℕ → Option (Option ℕ) → S → (Option ℕ × ℕ) × S
  unfolding wait_for_value compute_locked
  compute_under meanwhile d rounds loaded none s = fall_back loaded s
  compute_under meanwhile d rounds loaded (some none) s =
      wait_for_value meanwhile d.poll rounds loaded s
  compute_under meanwhile d rounds loaded (some (some mine)) s = compute_locked d loaded mine s

  -- What follows the first read.
  unfoldable pub compute_missing :
      (ℕ → S → S) → CacheDeliveries → ℕ → Option ℕ → Option (Option ℕ) → S → (Option ℕ × ℕ) × S
  unfolding compute_under
  compute_missing meanwhile d rounds loaded none s = fall_back loaded s
  compute_missing meanwhile d rounds loaded (some (some v)) s = ((some v, 0), s)
  compute_missing meanwhile d rounds loaded (some none) s =
      let (lock, s') = try_acquire_lock redis d.acquire lock_key lock_ttl token s in
      compute_under meanwhile d rounds loaded lock s'

  -- `get_or_compute_json` with a client.
  unfoldable pub get_or_compute_json :
      (ℕ → S → S) → CacheDeliveries → ℕ → Option ℕ → S → (Option ℕ × ℕ) × S
  unfolding compute_missing
  get_or_compute_json meanwhile d rounds loaded s =
      let (reply, s') = read_cache d.get s in compute_missing meanwhile d rounds loaded reply s'
