-- ===== src/Auth/Rotation.antt =====
-- `AuthService.refresh_tokens`, login and logout: app/domain/auth/service.py.
use puppytalk_be.Base.{
  ℕ, Option, none, some, Bool, true, false, if◌then◌else◌, Result, ok, err, List, ltb,
}
use puppytalk_be.Errors.{AppError}
use puppytalk_be.Redis.{UserStatus, Key, Value, Delivery, Redis}
use puppytalk_be.Ids.{jwt_sub_to_uuid}
use puppytalk_be.Auth.{try_refresh_rotation, ensure_user_may_refresh, cache_status}

-- The deliveries of the commands of one request.
pub record Deliveries : Type 0 where
  pub status_get : Delivery
  pub status_set : Delivery
  pub eval : Delivery
  pub digest_get : Delivery
  pub digest_set : Delivery

-- `UUID(text)`, the digest of a token, and the check of its signature with the `sub` that it gives,
-- are parameters; so are the user rows, the TTLs of the settings and the token that is created.
module _ {S : Type 0} (redis : Redis S) (parse_uuid : List ℕ → Option ℕ) (token_digest : ℕ → ℕ)
    (verify : ℕ → Result AppError (Option (List ℕ))) (user_status : ℕ → Option UserStatus)
    (cache_ttl : ℕ) where
  -- `if not isinstance(sub, str) or not sub: raise`, and `jwt_sub_to_uuid` with its ValueError.
  subject_id : Option (List ℕ) → Result AppError ℕ
  subject_id none = err AppError.unauthorized
  subject_id (some sub) = elim (jwt_sub_to_uuid parse_uuid sub) [
    | ok u ↦ ok u
    | err e ↦ err AppError.unauthorized
  ]

  unfoldable pub token_subject : ℕ → Result AppError ℕ
  unfolding subject_id
  token_subject token = elim (verify token) [ ok sub ↦ subject_id sub | err e ↦ err e ]

  -- `if not rotated: raise UnauthorizedException(...)`
  unfoldable pub finish : ℕ → Bool × S → Result AppError ℕ × S
  finish new_refresh (true, s) = (ok new_refresh, s)
  finish new_refresh (false, s) = (err AppError.unauthorized, s)

  unfoldable pub rotate_for : Deliveries → ℕ → ℕ → ℕ → ℕ → S → Result AppError ℕ × S
  unfolding finish
  rotate_for d user_id token new_refresh ttl s =
      let (r, s') =
        ensure_user_may_refresh redis d.status_get d.status_set cache_ttl user_status user_id s in
      let rotated =
        try_refresh_rotation redis d.eval d.digest_get d.digest_set (Key.user_refresh user_id)
          (token_digest token) (token_digest new_refresh) ttl s' in
      elim r [ ok done ↦ finish new_refresh rotated | err e ↦ (err e, s') ]

  -- `refresh_tokens` with a Redis client: the new refresh token, or the exception.
  unfoldable pub refresh_tokens : Deliveries → Option ℕ → ℕ → ℕ → S → Result AppError ℕ × S
  unfolding token_subject rotate_for
  refresh_tokens d none new_refresh ttl s = (err AppError.unauthorized, s)
  refresh_tokens d (some token) new_refresh ttl s = elim (token_subject token) [
    | ok user_id ↦ rotate_for d user_id token new_refresh ttl s
    | err e ↦ (err e, s)
  ]

  -- What `login` stores when the TTL is positive: the digest, and the status with a failure ignored.
  unfoldable pub login_store : Delivery → ℕ → ℕ → ℕ → S → S
  login_store status_set user_id new_refresh ttl s =
      if ltb 0 ttl
      then cache_status redis status_set cache_ttl user_id UserStatus.active
          (redis.set (Key.user_refresh user_id) (Value.digest (token_digest new_refresh)) ttl s)
      else s

  -- `revoke_refresh_for_user`, and the second step of `logout`.
  unfoldable pub revoke_refresh : ℕ → S → S
  revoke_refresh user_id s = redis.delete (Key.user_refresh user_id) s
