-- ===== src/Auth/SingleUse.antt =====
-- A refresh token against the digest that Redis holds: app/domain/auth/service.py.
use puppytalk_be.Base.{
  ℕ, ◌+◌, sym, ◌≤◌, ◌<◌, ◌≡◌, ◌≢◌, refl, arith, Option, Bool, false, ◌==◌, Bool-cases, Option-cases,
  inl, inr, ==_iff,
}
use puppytalk_be.Redis.{UserStatus, Key, Value, Delivery, Redis, IsRedis}
use puppytalk_be.Db.Single.{bit}
use puppytalk_be.Auth.{
  is_digest, rotate_cas, store_digest, rotation_sequential, rotate_or_fall_back,
  try_refresh_rotation, ensure_user_may_refresh, cache_status, status_from_db, cached_status,
}

key_ne : (u v : ℕ) → (u == v) ≡ false → Key.user_refresh u ≢ Key.user_refresh v
key_ne u v h e = ground (arith, h, e)

module _ {S : Type 0} (redis : Redis S) (laws : IsRedis redis) (u d : ℕ) where
  -- Redis holds the digest for the user.
  abbrev pub holds : S → Bool
  holds s = is_digest d (redis.get (Key.user_refresh u) s)

  holds_set_own :
      (new ttl : ℕ) (s : S)
      → (new == d) ≡ false
      → 0 < ttl
      → holds (redis.set (Key.user_refresh u) (Value.digest new) ttl s) ≡ false
  holds_set_own new ttl s ne pos =
      rw (laws.get_set (Key.user_refresh u) (Value.digest new) ttl s pos) ne

  pub holds_set :
      (v new ttl : ℕ) (s : S)
      → (new == d) ≡ false
      → 0 < ttl
      → bit (holds (redis.set (Key.user_refresh v) (Value.digest new) ttl s)) ≤ bit (holds s)
  holds_set v new ttl s ne pos = elim (Bool-cases (u == v)) [
    | inl same ↦ rw (sym ((==_iff u v).0 same)) (rw (holds_set_own new ttl s ne pos) (omega arith))
    | inr other ↦
        rw
          (laws.get_set_other (Key.user_refresh u) (Key.user_refresh v) (Value.digest new) ttl s
            (key_ne u v other))
          (omega arith)
  ]

  pub holds_delete :
      (v : ℕ) (s : S) → bit (holds (redis.delete (Key.user_refresh v) s)) ≤ bit (holds s)
  holds_delete v s = elim (Bool-cases (u == v)) [
    | inl same ↦
        rw (sym ((==_iff u v).0 same)) (rw (laws.get_delete (Key.user_refresh u) s) (omega arith))
    | inr other ↦
        rw (laws.get_delete_other (Key.user_refresh u) (Key.user_refresh v) s (key_ne u v other))
          (omega arith)
  ]

  holds_status :
      (v ttl : ℕ) (st : UserStatus) (s : S)
      → holds (redis.set (Key.user_status v) (Value.status st) ttl s) ≡ holds s
  holds_status v ttl st s =
      rw
        (laws.get_set_other (Key.user_refresh u) (Key.user_status v) (Value.status st) ttl s
          (λ e. cc e))
        refl

  module _ (v incoming new ttl : ℕ) (ne : (new == d) ≡ false) (pos : 0 < ttl) where
    sequential_mono :
        (get set : Delivery) (s : S)
        → bit (holds (rotation_sequential redis get set (Key.user_refresh v) incoming new ttl s).1)
          ≤ bit (holds s)
    unfolding rotation_sequential store_digest
    sequential_mono Delivery.answered Delivery.answered s =
        ground (arith, holds_set v new ttl s ne pos)
    sequential_mono Delivery.answered Delivery.lost_request s = ground arith
    sequential_mono Delivery.answered Delivery.lost_reply s =
        ground (arith, holds_set v new ttl s ne pos)
    sequential_mono Delivery.lost_request set s = ground arith
    sequential_mono Delivery.lost_reply set s = ground arith

    cas_mono :
        (s : S)
        → bit (holds (rotate_cas redis (Key.user_refresh v) incoming new ttl s).1) ≤ bit (holds s)
    unfolding rotate_cas
    cas_mono s = ground (arith, holds_set v new ttl s ne pos)

    fall_back_mono :
        (eval get set : Delivery) (s : S)
        → bit (
            holds
              (rotate_or_fall_back redis eval get set (Key.user_refresh v) incoming new ttl s).1)
          ≤ bit (holds s)
    unfolding rotate_or_fall_back
    fall_back_mono Delivery.answered get set s = cas_mono s
    fall_back_mono Delivery.lost_request get set s = sequential_mono get set s
    fall_back_mono Delivery.lost_reply get set s = omega (
      arith,
      cas_mono s,
      sequential_mono get set (rotate_cas redis (Key.user_refresh v) incoming new ttl s).1,
    )

    -- No path of a rotation brings the digest back.
    pub rotation_mono :
        (eval get set : Delivery) (s : S)
        → bit (
            holds
              (try_refresh_rotation redis eval get set (Key.user_refresh v) incoming new ttl s).1)
          ≤ bit (holds s)
    unfolding try_refresh_rotation
    rotation_mono eval get set s = ground (arith, fall_back_mono eval get set s)

  module _ (new ttl : ℕ) (ne : (new == d) ≡ false) (pos : 0 < ttl) where
    sequential_use :
        (get set : Delivery) (s : S)
        → let x = rotation_sequential redis get set (Key.user_refresh u) d new ttl s in
          bit x.0 + bit (holds x.1) ≤ bit (holds s)
    unfolding rotation_sequential store_digest
    sequential_use Delivery.answered Delivery.answered s =
        ground (arith, holds_set_own new ttl s ne pos)
    sequential_use Delivery.answered Delivery.lost_request s = ground arith
    sequential_use Delivery.answered Delivery.lost_reply s =
        ground (arith, holds_set_own new ttl s ne pos)
    sequential_use Delivery.lost_request set s = ground arith
    sequential_use Delivery.lost_reply set s = ground arith

    cas_use :
        (s : S)
        → let x = rotate_cas redis (Key.user_refresh u) d new ttl s in
          bit (x.0 == 1) + bit (holds x.1) ≤ bit (holds s)
    unfolding rotate_cas
    cas_use s = ground (arith, holds_set_own new ttl s ne pos)

    fall_back_use :
        (eval get set : Delivery) (s : S)
        → let x = rotate_or_fall_back redis eval get set (Key.user_refresh u) d new ttl s in
          bit x.0 + bit (holds x.1) ≤ bit (holds s)
    unfolding rotate_or_fall_back
    fall_back_use Delivery.answered get set s = cas_use s
    fall_back_use Delivery.lost_request get set s = sequential_use get set s
    fall_back_use Delivery.lost_reply get set s = omega (
      arith,
      cas_mono u d new ttl ne pos s,
      sequential_use get set (rotate_cas redis (Key.user_refresh u) d new ttl s).1,
    )

    -- A rotation that takes the digest leaves it nowhere.
    pub rotation_use :
        (eval get set : Delivery) (s : S)
        → let x = try_refresh_rotation redis eval get set (Key.user_refresh u) d new ttl s in
          bit x.0 + bit (holds x.1) ≤ bit (holds s)
    unfolding try_refresh_rotation
    rotation_use eval get set s = ground (arith, fall_back_use eval get set s)

  pub holds-cache_status :
      (set : Delivery) (cache_ttl v : ℕ) (st : UserStatus) (s : S)
      → holds (cache_status redis set cache_ttl v st s) ≡ holds s
  unfolding cache_status
  holds-cache_status Delivery.answered cache_ttl v st s = holds_status v cache_ttl st s
  holds-cache_status Delivery.lost_request cache_ttl v st s = refl
  holds-cache_status Delivery.lost_reply cache_ttl v st s = holds_status v cache_ttl st s

  holds-status_from_db :
      (set : Delivery) (cache_ttl : ℕ) (user_status : ℕ → Option UserStatus) (v : ℕ) (s : S)
      → holds (status_from_db redis set cache_ttl user_status v s).1 ≡ holds s
  unfolding status_from_db
  holds-status_from_db set cache_ttl user_status v s = elim (Option-cases (user_status v)) [
    | inl missing ↦ rw (missing, status_from_db) refl
    | inr (st, found) ↦
        rw (found, status_from_db) (ground (arith, holds-cache_status set cache_ttl v st s))
  ]

  -- The check of the user's status does not touch the digest.
  pub holds-ensure_user_may_refresh :
      (get set : Delivery) (cache_ttl : ℕ) (user_status : ℕ → Option UserStatus) (v : ℕ) (s : S)
      → holds (ensure_user_may_refresh redis get set cache_ttl user_status v s).1 ≡ holds s
  unfolding ensure_user_may_refresh
  holds-ensure_user_may_refresh get set cache_ttl user_status v s =
      elim (Option-cases (cached_status redis get v s)) [
        | inl miss ↦
            rw (miss, ensure_user_may_refresh) (holds-status_from_db set cache_ttl user_status v s)
        | inr (cached, hit) ↦ rw (hit, ensure_user_may_refresh) (ground arith)
      ]
