-- ===== src/Idempotency/Hooks.antt =====
-- What the hooks of app/domain/posts/idempotency.py do to the lock, whichever commands raise.
use puppytalk_be.Base.{ℕ, ◌≡◌, ◌≢◌, ◌∙◌, arith, Bool, true, false, Option, some}
use puppytalk_be.Redis.{Key, Value, Delivery, Redis, IsRedis}
use puppytalk_be.Idempotency.{
  HookDeliveries, idempotency_after_success, idempotency_after_failure, release_if_held,
  store_success_result,
}
use puppytalk_be.Idempotency.World.{held_by}

module _ {S : Type 0} (redis : Redis S) (laws : IsRedis redis) (decode : ℕ → Option ℕ)
    (lock_ttl result_ttl : ℕ) where
  release_foreign :
      (d : Delivery) (fp mine theirs : ℕ) (s : S)
      → mine ≢ theirs
      → redis.get (Key.idempotency_lock fp) s ≡ some (Value.token theirs)
      → redis.get
          (Key.idempotency_lock fp)
          (release_if_held redis decode lock_ttl result_ttl d (held_by fp mine) s)
        ≡ some (Value.token theirs)
  release_foreign d fp mine theirs s ne locked = ground (arith, locked, ne)

  lock-ne-result : (fp : ℕ) → Key.idempotency_lock fp ≢ Key.idempotency_result fp
  lock-ne-result fp e = cc

  store_keeps_lock :
      (d : Delivery) (fp body : ℕ) (s : S)
      → redis.get
          (Key.idempotency_lock fp)
          (store_success_result redis decode lock_ttl result_ttl d fp body s)
        ≡ redis.get (Key.idempotency_lock fp) s
  store_keeps_lock d fp body s = ground (
    arith,
    laws.get_set_other (Key.idempotency_lock fp) (Key.idempotency_result fp) (Value.body body)
        result_ttl s (lock-ne-result fp),
  )

  -- The hooks behind a creation leave a lock that another request holds alone, however their commands
  -- end and in whichever order the server runs them.
  pub foreign_lock_kept :
      (first : Bool) (d : HookDeliveries) (fp mine theirs body : ℕ) (s : S)
      → mine ≢ theirs
      → redis.get (Key.idempotency_lock fp) s ≡ some (Value.token theirs)
      → (redis.get (Key.idempotency_lock fp) (
            idempotency_after_success redis decode lock_ttl result_ttl first d
              (some (held_by fp mine))
              body
              s)
          ≡ some (Value.token theirs))
        × (redis.get (Key.idempotency_lock fp) (
              idempotency_after_failure redis decode lock_ttl result_ttl d
                (some (held_by fp mine))
                s)
            ≡ some (Value.token theirs))
  unfolding idempotency_after_success idempotency_after_failure
  foreign_lock_kept true d fp mine theirs body s ne locked = (
    release_foreign d.release fp mine theirs
        (store_success_result redis decode lock_ttl result_ttl d.store fp body s) ne
        (store_keeps_lock d.store fp body s ∙ locked),
    release_foreign d.release fp mine theirs s ne locked,
  )
  foreign_lock_kept false d fp mine theirs body s ne locked = (
    store_keeps_lock d.store fp body
          (release_if_held redis decode lock_ttl result_ttl d.release (held_by fp mine) s)
        ∙ release_foreign d.release fp mine theirs s ne locked,
    release_foreign d.release fp mine theirs s ne locked,
  )
