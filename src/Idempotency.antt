-- ===== src/Idempotency.antt =====
-- The idempotency of POST /posts: app/domain/posts/idempotency.py, and its use in `create_post` of
-- app/domain/posts/router.py. A fingerprint is a number, a stored response the number of its text.
pub mod World
pub mod Once
pub mod Hooks
mod Tests
use puppytalk_be.Base.{
  ℕ, Bool, true, false, Option, none, some, List, [], ◌∷◌, length, ltb, ◌||◌, Result, ok, err,
  if◌then◌else◌,
}
use puppytalk_be.Errors.{AppError}
use puppytalk_be.Redis.{Key, Value, Delivery, Redis, deliver}
use puppytalk_be.Redis.Locks.{try_acquire_lock, release_lock}

-- `IdempotencyHandle`
pub record Handle : Type 0 where
  pub fingerprint : ℕ
  pub lock_token : Option ℕ

-- The checks of `_normalize_idempotency_key` behind `strip`.
abbrev pub keyed : List ℕ → Result AppError (Option (List ℕ))
keyed [] = ok none
keyed (c ∷ s) =
    if ltb (length (c ∷ s)) 8 || ltb 128 (length (c ∷ s))
    then err AppError.invalid_request
    else ok (some (c ∷ s))

-- `_normalize_idempotency_key`; `strip` is that of the standard library.
unfoldable pub normalize_key :
    (List ℕ → List ℕ) → Option (List ℕ) → Result AppError (Option (List ℕ))
normalize_key strip none = ok none
normalize_key strip (some raw) = keyed (strip raw)

-- How the commands of the hooks end.
pub record HookDeliveries : Type 0 where
  pub get : Delivery
  pub acquire : Delivery
  pub store : Delivery
  pub release : Delivery

-- `decode` is the validation of the stored text: none when it is empty or refused.
module _ {S : Type 0} (redis : Redis S) (decode : ℕ → Option ℕ) (lock_ttl result_ttl : ℕ) where
  abbrev pub stored_result : Option Value → Option ℕ
  stored_result none = none
  stored_result (some (Value.digest e)) = none
  stored_result (some (Value.token e)) = none
  stored_result (some (Value.body b)) = decode b
  stored_result (some (Value.status st)) = none
  stored_result (some Value.flag) = none

  -- The lock behind the miss: an exception may have taken it, so the token is kept.
  unfoldable pub acquire_for : Delivery → ℕ → ℕ → S → Result AppError (Option ℕ × Handle) × S
  acquire_for d fp token s =
      let (lock, s') = try_acquire_lock redis d (Key.idempotency_lock fp) lock_ttl token s in
      elim lock [
        | none ↦ (ok (none, record { fingerprint = fp; lock_token = some token }), s')
        | some none ↦ (err AppError.concurrent_update, s')
        | some (some mine) ↦ (ok (none, record { fingerprint = fp; lock_token = some token }), s')
      ]

  -- The hook behind the fingerprint, with a client: the response to replay, and the handle.
  unfoldable pub before_keyed : HookDeliveries → ℕ → ℕ → S → Result AppError (Option ℕ × Handle) × S
  unfolding acquire_for
  before_keyed d fp token s =
      let (payload, s') =
        deliver d.get (stored_result (redis.get (Key.idempotency_result fp) s), s) s in
      elim payload [
        | none ↦ (ok (none, record { fingerprint = fp; lock_token = some token }), s')
        | some none ↦ acquire_for d.acquire fp token s'
        | some (some response) ↦
            (ok (some response, record { fingerprint = fp; lock_token = none }), s')
      ]

  -- `post_create_idempotency_before`; `fingerprint` is that of the user, and `client` tells whether
  -- the application has a Redis client.
  pub idempotency_before :
      (List ℕ → List ℕ)
      → (List ℕ → ℕ)
      → Bool
      → HookDeliveries
      → Option (List ℕ)
      → ℕ
      → S
      → Result AppError (Option ℕ × Option Handle) × S
  unfolding normalize_key before_keyed
  idempotency_before strip fingerprint client d raw token s = elim (normalize_key strip raw) [
    | err e ↦ (err e, s)
    | ok none ↦ (ok (none, none), s)
    | ok (some norm) ↦
        let fp = fingerprint norm in
        let (r, s') = before_keyed d fp token s in
        if client
        then elim r [ ok (cached, handle) ↦ (ok (cached, some handle), s') | err e ↦ (err e, s') ]
        else (ok (none, some (record { fingerprint = fp; lock_token = none })), s)
  ]

  -- `_store_success_result`: an exception is only logged.
  abbrev pub store_success_result : Delivery → ℕ → ℕ → S → S
  store_success_result d fp body s =
      (deliver d (tt {0}, redis.set (Key.idempotency_result fp) (Value.body body) result_ttl s) s).1

  -- `_release_if_held`
  abbrev pub release_if_held : Delivery → Handle → S → S
  release_if_held d handle s = elim handle.lock_token [
    | none ↦ s
    | some token ↦ release_lock redis d (Key.idempotency_lock handle.fingerprint) token s
  ]

  -- `post_create_idempotency_after_success` with a client. `asyncio.gather` leaves open which of its
  -- two commands the server runs first.
  unfoldable pub idempotency_after_success : Bool → HookDeliveries → Option Handle → ℕ → S → S
  idempotency_after_success store_first d none body s = s
  idempotency_after_success true d (some handle) body s =
      release_if_held d.release handle (store_success_result d.store handle.fingerprint body s)
  idempotency_after_success false d (some handle) body s =
      store_success_result d.store handle.fingerprint body (release_if_held d.release handle s)

  -- `post_create_idempotency_after_failure` with a client.
  unfoldable pub idempotency_after_failure : HookDeliveries → Option Handle → S → S
  idempotency_after_failure d none s = s
  idempotency_after_failure d (some handle) s = release_if_held d.release handle s
