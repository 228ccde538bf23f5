-- ===== src/Auth/Once.antt =====
-- One refresh token over any sequence of requests: app/domain/auth/service.py.
use puppytalk_be.Base.{
  ℕ, ◌+◌, ◌≤◌, ◌<◌, ◌≡◌, refl, arith, Option, some, Bool, true, false, ◌&&◌, ◌==◌, Result, ok, err,
  List, [], ◌∷◌, Bool-cases, inl, inr, ◌⊎◌, All, ==_iff, ==_refl,
}
use puppytalk_be.Errors.{AppError}
use puppytalk_be.Redis.{UserStatus, Key, Value, Delivery, Redis, IsRedis, IsElapse}
use puppytalk_be.Db.Single.{bit}
use puppytalk_be.Auth.{try_refresh_rotation, ensure_user_may_refresh}
use puppytalk_be.Auth.Rotation.{
  Deliveries, token_subject, refresh_tokens, login_store, revoke_refresh, rotate_for, finish,
}
use puppytalk_be.Auth.SingleUse.{
  holds, rotation_mono, rotation_use, holds-ensure_user_may_refresh, holds-cache_status, holds_set,
  holds_delete,
}

-- What happens to the store: a request to refresh with a token, a login, the revocation of a user's
-- token, and time. The new tokens are those that the code creates.
pub data Event : Type 0 where
  refresh : Deliveries → ℕ → ℕ → Event
  login : Delivery → ℕ → ℕ → Event
  revoke : ℕ → Event
  elapses : Event

module _ {S : Type 0} (redis : Redis S) (parse_uuid : List ℕ → Option ℕ) (token_digest : ℕ → ℕ)
    (verify : ℕ → Result AppError (Option (List ℕ))) (user_status : ℕ → Option UserStatus)
    (cache_ttl ttl : ℕ) (elapse : S → S) where
  abbrev pub refresh_with : Deliveries → ℕ → ℕ → S → Result AppError ℕ × S
  refresh_with d token new s =
      refresh_tokens redis parse_uuid token_digest verify user_status cache_ttl d (some token) new
        ttl s

  abbrev pub is_ok : Result AppError ℕ → Bool
  is_ok (ok n) = true
  is_ok (err e) = false

  abbrev pub after : Event → S → S
  after (refresh d token new) s = (refresh_with d token new s).1
  after (login d user_id new) s =
      login_store redis parse_uuid token_digest verify user_status cache_ttl d user_id new ttl s
  after (revoke user_id) s =
      revoke_refresh redis parse_uuid token_digest verify user_status cache_ttl user_id s
  after elapses s = elapse s

  -- Whether the event is a refresh with this token that succeeds.
  abbrev pub accepts : ℕ → Event → S → Bool
  accepts t (refresh d token new) s = token == t && is_ok (refresh_with d token new s).0
  accepts t (login d user_id new) s = false
  accepts t (revoke user_id) s = false
  accepts t elapses s = false

  -- How often a sequence of events accepts the token.
  unfoldable pub times_accepted : ℕ → List Event → S → ℕ
  times_accepted t [] s = 0
  times_accepted t (e ∷ events) s = bit (accepts t e s) + times_accepted t events (after e s)

  -- The new token of an event is another one than `t`, as its digest shows.
  abbrev pub MakesOther : ℕ → Event → Type 0
  MakesOther t (refresh d token new) = (token_digest new == token_digest t) ≡ false
  MakesOther t (login d user_id new) = (token_digest new == token_digest t) ≡ false
  MakesOther t (revoke user_id) = Unit
  MakesOther t elapses = Unit

module _ {S : Type 0} (redis : Redis S) (laws : IsRedis redis) (parse_uuid : List ℕ → Option ℕ)
    (token_digest : ℕ → ℕ) (verify : ℕ → Result AppError (Option (List ℕ)))
    (user_status : ℕ → Option UserStatus) (cache_ttl ttl : ℕ) (elapse : S → S)
    (elapsed : IsElapse redis elapse) (pos : 0 < ttl) (t u : ℕ)
    (subject : token_subject redis parse_uuid token_digest verify user_status cache_ttl t
      ≡ ok u) where
  abbrev held : S → Bool
  held s = holds redis laws u (token_digest t) s

  finish_mono :
      (new : ℕ) (x : Bool × S)
      → (finish redis parse_uuid token_digest verify user_status cache_ttl new x).1 ≡ x.1
  unfolding finish
  finish_mono new (true, s) = refl
  finish_mono new (false, s) = refl

  finish_ok :
      (new : ℕ) (x : Bool × S)
      → bit (
          is_ok redis parse_uuid token_digest verify user_status cache_ttl ttl elapse
            (finish redis parse_uuid token_digest verify user_status cache_ttl new x).0)
        ≡ bit x.0
  unfolding finish
  finish_ok new (true, s) = refl
  finish_ok new (false, s) = refl

  rotate_mono :
      (d : Deliveries) (v token new : ℕ) (s : S)
      → (token_digest new == token_digest t) ≡ false
      → bit (
          held
            (rotate_for redis parse_uuid token_digest verify user_status cache_ttl d v token new ttl
              s).1)
        ≤ bit (held s)
  unfolding rotate_for
  rotate_mono d v token new s ne =
      let s' =
        (ensure_user_may_refresh redis d.status_get d.status_set cache_ttl user_status v s).1 in
      let x =
        try_refresh_rotation redis d.eval d.digest_get d.digest_set (Key.user_refresh v)
          (token_digest token) (token_digest new) ttl s' in
      ground (
        arith,
        rotation_mono redis laws u (token_digest t) v (token_digest token) (token_digest new) ttl ne
            pos d.eval d.digest_get d.digest_set s',
        holds-ensure_user_may_refresh redis laws u (token_digest t) d.status_get d.status_set
            cache_ttl user_status v s,
        finish_mono (new) x,
      )

  rotate_use :
      (d : Deliveries) (new : ℕ) (s : S)
      → (token_digest new == token_digest t) ≡ false
      → let x =
          rotate_for redis parse_uuid token_digest verify user_status cache_ttl d u t new ttl s in
        bit (is_ok redis parse_uuid token_digest verify user_status cache_ttl ttl elapse x.0)
          + bit (held x.1)
        ≤ bit (held s)
  unfolding rotate_for
  rotate_use d new s ne =
      let s' =
        (ensure_user_may_refresh redis d.status_get d.status_set cache_ttl user_status u s).1 in
      let x =
        try_refresh_rotation redis d.eval d.digest_get d.digest_set (Key.user_refresh u)
          (token_digest t) (token_digest new) ttl s' in
      ground (
        arith,
        rotation_use redis laws u (token_digest t) (token_digest new) ttl ne pos d.eval d.digest_get
            d.digest_set s',
        holds-ensure_user_may_refresh redis laws u (token_digest t) d.status_get d.status_set
            cache_ttl user_status u s,
        finish_mono new x,
        finish_ok new x,
      )

  subject_cases : (r : Result AppError ℕ) → ((v : ℕ) × (r ≡ ok v)) ⊎ ((e : AppError) × (r ≡ err e))
  subject_cases (ok v) = inl (v, refl)
  subject_cases (err e) = inr (e, refl)

  refresh_mono :
      (d : Deliveries) (token new : ℕ) (s : S)
      → (token_digest new == token_digest t) ≡ false
      → bit (
          held
            (refresh_with redis parse_uuid token_digest verify user_status cache_ttl ttl elapse d
              token new s).1)
        ≤ bit (held s)
  unfolding refresh_tokens
  refresh_mono d token new s ne =
      elim (subject_cases
        (token_subject redis parse_uuid token_digest verify user_status cache_ttl token)) [
          | inl (v, e) ↦ rw (e, refresh_tokens) (rotate_mono d v token new s ne)
          | inr (x, e) ↦ rw (e, refresh_tokens) (omega arith)
        ]

  refresh_use :
      (d : Deliveries) (new : ℕ) (s : S)
      → (token_digest new == token_digest t) ≡ false
      → let x =
          refresh_with redis parse_uuid token_digest verify user_status cache_ttl ttl elapse d t new
            s in
        bit (is_ok redis parse_uuid token_digest verify user_status cache_ttl ttl elapse x.0)
          + bit (held x.1)
        ≤ bit (held s)
  unfolding refresh_tokens
  refresh_use d new s ne = rw (subject, refresh_tokens) (rotate_use d new s ne)

  event_step :
      (e : Event) (s : S)
      → MakesOther redis parse_uuid token_digest verify user_status cache_ttl ttl elapse t e
      → bit (accepts redis parse_uuid token_digest verify user_status cache_ttl ttl elapse t e s)
          + bit (
              held
                (after redis parse_uuid token_digest verify user_status cache_ttl ttl elapse e s))
        ≤ bit (held s)
  unfolding login_store revoke_refresh
  event_step (refresh d token new) s ne = elim (Bool-cases (token == t)) [
    | inl same ↦ rw ((==_iff token t).0 same) (ground (arith, refresh_use d new s ne, ==_refl t))
    | inr other ↦ rw other (ground (arith, refresh_mono d token new s ne))
  ]
  event_step (login d user_id new) s ne =
      let stored = redis.set (Key.user_refresh user_id) (Value.digest (token_digest new)) ttl s in
      ground (
        arith,
        holds_set redis laws u (token_digest t) user_id (token_digest new) ttl s ne pos,
        holds-cache_status redis laws u (token_digest t) d cache_ttl user_id UserStatus.active
            stored,
      )
  event_step (revoke user_id) s ne =
      ground (arith, holds_delete redis laws u (token_digest t) user_id s)
  event_step elapses s ne = elim (elapsed (Key.user_refresh u) s) [
    | inl same ↦ rw same (omega arith)
    | inr gone ↦ rw gone (omega arith)
  ]

  -- In any sequence of refreshes, logins, revocations and expiries, one request after the other and
  -- whatever commands lose their request or their reply, a refresh token of the user is accepted once
  -- at most, and only if Redis holds its digest at the beginning. The TTL is positive, the token is of
  -- that user, and the tokens that the sequence creates have other digests.
  pub refresh_token_used_once :
      (events : List Event) (s : S)
      → All
          (MakesOther redis parse_uuid token_digest verify user_status cache_ttl ttl elapse t)
          events
      → times_accepted redis parse_uuid token_digest verify user_status cache_ttl ttl elapse t
          events s
        ≤ bit (holds redis laws u (token_digest t) s)
  unfolding times_accepted
  refresh_token_used_once [] s h = omega arith
  refresh_token_used_once (e ∷ events) s h = omega (
    arith,
    event_step e s h.0,
    refresh_token_used_once events
        (after redis parse_uuid token_digest verify user_status cache_ttl ttl elapse e s) h.1,
  )
