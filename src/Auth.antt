-- ===== src/Auth.antt =====
-- Refresh tokens and their rotation: app/domain/auth/service.py.
pub mod Rotation
pub mod SingleUse
pub mod Once
mod Tests
use puppytalk_be.Base.{
  ℕ, Option, none, some, Bool, true, false, not, ◌&&◌, ◌==◌, if◌then◌else◌, Result, ok, err, List,
  ltb,
}
use puppytalk_be.Errors.{AppError}
use puppytalk_be.Redis.{UserStatus, Key, Value, Delivery, Redis}
use puppytalk_be.Ids.{IdError, jwt_sub_to_uuid}

-- `bulk_to_str(raw) == incoming_digest`
abbrev pub is_digest : ℕ → Option Value → Bool
is_digest d none = false
is_digest d (some (Value.digest e)) = e == d
is_digest d (some (Value.token e)) = false
is_digest d (some (Value.body e)) = false
is_digest d (some (Value.status s)) = false
is_digest d (some Value.flag) = false

abbrev pub is_active : UserStatus → Bool
is_active UserStatus.active = true
is_active UserStatus.suspended = false
is_active UserStatus.withdrawn = false

abbrev pub is_active_value : Value → Bool
is_active_value (Value.digest e) = false
is_active_value (Value.token e) = false
is_active_value (Value.body e) = false
is_active_value (Value.status s) = is_active s
is_active_value Value.flag = false

module _ {S : Type 0} (redis : Redis S) where
  -- `_REFRESH_ROTATE_CAS_LUA`, which Redis runs in one step: the return code and the store.
  pub rotate_cas : Key → ℕ → ℕ → ℕ → S → ℕ × S
  rotate_cas key incoming new ttl s =
      if is_digest incoming (redis.get key s)
      then (if ltb 0 ttl then (1, redis.set key (Value.digest new) ttl s) else (0, s))
      else (0, s)

  -- `redis_client.set(...)` at the end of `_refresh_rotation_sequential`.
  pub store_digest : Delivery → Key → ℕ → ℕ → S → Bool × S
  store_digest Delivery.answered key new ttl s = (true, redis.set key (Value.digest new) ttl s)
  store_digest Delivery.lost_request key new ttl s = (false, s)
  store_digest Delivery.lost_reply key new ttl s = (false, redis.set key (Value.digest new) ttl s)

  -- `_refresh_rotation_sequential`; the deliveries of GET and of SET.
  pub rotation_sequential : Delivery → Delivery → Key → ℕ → ℕ → ℕ → S → Bool × S
  unfolding store_digest
  rotation_sequential Delivery.answered set key incoming new ttl s =
      if is_digest incoming (redis.get key s) then store_digest set key new ttl s else (false, s)
  rotation_sequential Delivery.lost_request set key incoming new ttl s = (false, s)
  rotation_sequential Delivery.lost_reply set key incoming new ttl s = (false, s)

  -- The branch `ttl_seconds <= 0` compares only.
  pub compare_only : Delivery → Key → ℕ → S → Bool × S
  compare_only Delivery.answered key incoming s = (is_digest incoming (redis.get key s), s)
  compare_only Delivery.lost_request key incoming s = (false, s)
  compare_only Delivery.lost_reply key incoming s = (false, s)

  -- The script, and the sequential path when `eval` raises.
  pub rotate_or_fall_back : Delivery → Delivery → Delivery → Key → ℕ → ℕ → ℕ → S → Bool × S
  unfolding rotate_cas rotation_sequential
  rotate_or_fall_back Delivery.answered get set key incoming new ttl s =
      let (rc, s') = rotate_cas key incoming new ttl s in (rc == 1, s')
  rotate_or_fall_back Delivery.lost_request get set key incoming new ttl s =
      rotation_sequential get set key incoming new ttl s
  rotate_or_fall_back Delivery.lost_reply get set key incoming new ttl s =
      rotation_sequential get set key incoming new ttl (rotate_cas key incoming new ttl s).1

  -- `_try_refresh_rotation_redis`; the deliveries of EVAL, GET and SET.
  pub try_refresh_rotation : Delivery → Delivery → Delivery → Key → ℕ → ℕ → ℕ → S → Bool × S
  unfolding compare_only rotate_or_fall_back
  try_refresh_rotation eval get set key incoming new ttl s =
      if ltb 0 ttl
      then rotate_or_fall_back eval get set key incoming new ttl s
      else compare_only get key incoming s

  -- The SET behind the database read, whose failure is only logged.
  pub cache_status : Delivery → ℕ → ℕ → UserStatus → S → S
  cache_status Delivery.lost_request ttl user_id st s = s
  cache_status Delivery.answered ttl user_id st s =
      redis.set (Key.user_status user_id) (Value.status st) ttl s
  cache_status Delivery.lost_reply ttl user_id st s =
      redis.set (Key.user_status user_id) (Value.status st) ttl s

  -- A cache miss: the user's row decides, and is cached.
  pub status_from_db :
      Delivery → ℕ → (ℕ → Option UserStatus) → ℕ → S → Result AppError (Unit {0}) × S
  unfolding cache_status
  status_from_db set cache_ttl user_status user_id s = elim (user_status user_id) [
    | none ↦ (err AppError.unauthorized, s)
    | some st ↦
        let s' = cache_status set cache_ttl user_id st s in
        if is_active st then (ok tt, s') else (err AppError.unauthorized, s')
  ]

  -- What GET gave of the cached status; a failed GET is a miss.
  abbrev pub cached_status : Delivery → ℕ → S → Option Value
  cached_status Delivery.answered user_id s = redis.get (Key.user_status user_id) s
  cached_status Delivery.lost_request user_id s = none
  cached_status Delivery.lost_reply user_id s = none

  -- `_ensure_user_may_refresh`; `user_status` reads the users that are not deleted.
  pub ensure_user_may_refresh :
      Delivery → Delivery → ℕ → (ℕ → Option UserStatus) → ℕ → S → Result AppError (Unit {0}) × S
  unfolding status_from_db
  ensure_user_may_refresh get set cache_ttl user_status user_id s =
      elim (cached_status get user_id s) [
        | none ↦ status_from_db set cache_ttl user_status user_id s
        | some cached ↦
            if is_active_value cached then (ok tt, s) else (err AppError.unauthorized, s)
      ]
