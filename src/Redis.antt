-- ===== src/Redis.antt =====
-- What the services use of Redis, which is a parameter of the model: its store `S`, the commands, and
-- their documented behaviour. Keys are the texts that the code builds, values those it stores.
pub mod Hashes
pub mod Locks
pub mod Store
use puppytalk_be.Base.{
  ℕ, ◌<◌, ◌≡◌, ◌≢◌, Bool, true, false, Option, none, some, ◌⊎◌, is_none, if◌then◌else◌,
}

-- app/common/enums.py
pub data UserStatus : Type 0 where
  active suspended withdrawn : UserStatus

-- A number stands for the part of the key that the code fills in: an id, a viewer or a fingerprint.
pub data Key : Type 0 where
  user_refresh user_status idempotency_result idempotency_lock : ℕ → Key
  view_dedup : ℕ → ℕ → Key
  view_flush_lock : Key

pub data Value : Type 0 where
  digest token body : ℕ → Value
  status : UserStatus → Value
  flag : Value

-- How a command ends: with its reply, or with an exception, before or after the server applied it.
pub data Delivery : Type 0 where
  answered lost_request lost_reply : Delivery

-- GET, SET with EX, SET with NX and EX, and DEL.
pub record Redis (S : Type 0) : Type 0 where
  pub get : Key → S → Option Value
  pub set : Key → Value → ℕ → S → S
  pub set_nx : Key → Value → ℕ → S → Bool × S
  pub delete : Key → S → S

pub record IsRedis {S : Type 0} (redis : Redis S) : Type 0 where
  pub get_set :
      (k : Key) (v : Value) (ttl : ℕ) (s : S) → 0 < ttl → redis.get k (redis.set k v ttl s) ≡ some v
  pub get_set_other :
      (k j : Key) (v : Value) (ttl : ℕ) (s : S)
      → k ≢ j
      → redis.get k (redis.set j v ttl s) ≡ redis.get k s
  pub set_nx_lem :
      (k : Key) (v : Value) (ttl : ℕ) (s : S)
      → redis.set_nx k v ttl s
        ≡ (if is_none (redis.get k s) then (true, redis.set k v ttl s) else (false, s))
  pub get_delete : (k : Key) (s : S) → redis.get k (redis.delete k s) ≡ none
  pub get_delete_other :
      (k j : Key) (s : S) → k ≢ j → redis.get k (redis.delete j s) ≡ redis.get k s

-- Time that passes: a key keeps its value, or is gone.
abbrev pub IsElapse : {S : Type 0} → Redis S → (S → S) → Type 0
IsElapse {S} redis elapse =
    (k : Key) (s : S) → (redis.get k (elapse s) ≡ redis.get k s) ⊎ (redis.get k (elapse s) ≡ none)

-- A command under a delivery: its reply, or `none` for an exception, and the store.
abbrev pub deliver : {A S : Type 0} → Delivery → A × S → S → Option A × S
deliver Delivery.answered (a, s') s = (some a, s')
deliver Delivery.lost_request (a, s') s = (none, s)
deliver Delivery.lost_reply (a, s') s = (none, s')
