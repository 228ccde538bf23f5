-- ===== src/Redis/Locks.antt =====
-- The lock that the jobs and the idempotency hooks share: app/infra/lock.py.
use puppytalk_be.Base.{ℕ, Bool, true, false, Option, none, some, ◌==◌, if◌then◌else◌}
use puppytalk_be.Redis.{Key, Value, Delivery, Redis, deliver}

-- `redis.call('GET', KEYS[1]) == ARGV[1]`
abbrev pub is_token : ℕ → Option Value → Bool
is_token t none = false
is_token t (some (Value.digest e)) = false
is_token t (some (Value.token e)) = e == t
is_token t (some (Value.body e)) = false
is_token t (some (Value.status s)) = false
is_token t (some Value.flag) = false

module _ {S : Type 0} (redis : Redis S) where
  -- `RELEASE_LOCK_LUA`, which Redis runs in one step.
  abbrev pub release_cas : Key → ℕ → S → Unit {0} × S
  release_cas key t s = (tt, (if is_token t (redis.get key s) then redis.delete key s else s))

  -- `try_acquire_lock` with the token of the caller: an exception is `none`, else the token if taken.
  abbrev pub try_acquire_lock : Delivery → Key → ℕ → ℕ → S → Option (Option ℕ) × S
  try_acquire_lock d key ttl t s =
      let (reply, s') = deliver d (redis.set_nx key (Value.token t) ttl s) s in
      elim reply [
        | none ↦ (none, s')
        | some acquired ↦ (some (if acquired then some t else none), s')
      ]

  -- `release_lock`: an exception is only logged.
  abbrev pub release_lock : Delivery → Key → ℕ → S → S
  release_lock d key t s = (deliver d (release_cas key t s) s).1

  -- `try_acquire_job_lock`: whether the job may go on, and the token to release.
  pub try_acquire_job_lock : Bool → Delivery → Key → ℕ → ℕ → S → (Bool × Option ℕ) × S
  try_acquire_job_lock false d key ttl t s = ((true, none), s)
  try_acquire_job_lock true d key ttl t s =
      let (reply, s') = try_acquire_lock d key ttl t s in
      elim reply [
        | none ↦ ((true, none), s')
        | some none ↦ ((false, none), s')
        | some (some mine) ↦ ((true, some mine), s')
      ]
