-- ===== src/Idempotency/Once.antt =====
-- At most one post is created for an idempotency key: app/domain/posts/idempotency.py.
use puppytalk_be.Base.{
  ℕ, ◌<◌, ◌≤◌, ◌≡◌, ◌≢◌, refl, sym, ◌∙◌, ap, arith, true, false, Option, none, some, List, [], ◌∷◌,
  Result, ok, err, All, ◌==◌, Bool-cases, inl, inr, ==_refl,
}
use mathlib.Core.Path.{subst}
use puppytalk_be.Errors.{AppError}
use puppytalk_be.Redis.{Key, Value, Delivery, Redis, IsRedis}
use puppytalk_be.Idempotency.{
  Handle, before_keyed, acquire_for, idempotency_after_success, idempotency_after_failure,
  release_if_held,
}
use puppytalk_be.Idempotency.World.{
  prompt, Event, World, arrive, fail, succeed, handle_of, without, held_by, arrived, finish, step,
  run, Phase, IsStorable,
}

module _ {S : Type 0} (redis : Redis S) (decode : ℕ → Option ℕ) (lock_ttl result_ttl fp : ℕ)
    (laws : IsRedis redis) (lock_positive : 0 < lock_ttl) (result_positive : 0 < result_ttl) where
  before_free :
      (t : ℕ) (s : S)
      → redis.get (Key.idempotency_result fp) s ≡ none
      → redis.get (Key.idempotency_lock fp) s ≡ none
      → before_keyed redis decode lock_ttl result_ttl prompt fp t s
        ≡ (ok (none, held_by fp t), redis.set (Key.idempotency_lock fp) (Value.token t) lock_ttl s)
  unfolding before_keyed acquire_for
  before_free t s no_result unlocked = ground (
    arith,
    no_result,
    unlocked,
    laws.set_nx_lem (Key.idempotency_lock fp) (Value.token t) lock_ttl s,
  )

  before_held :
      (t k : ℕ) (s : S)
      → redis.get (Key.idempotency_result fp) s ≡ none
      → redis.get (Key.idempotency_lock fp) s ≡ some (Value.token k)
      → before_keyed redis decode lock_ttl result_ttl prompt fp t s
        ≡ (err AppError.concurrent_update, s)
  unfolding before_keyed acquire_for
  before_held t k s no_result locked = ground (
    arith,
    no_result,
    locked,
    laws.set_nx_lem (Key.idempotency_lock fp) (Value.token t) lock_ttl s,
  )

  before_done :
      (t body response : ℕ) (s : S)
      → redis.get (Key.idempotency_result fp) s ≡ some (Value.body body)
      → decode body ≡ some response
      → before_keyed redis decode lock_ttl result_ttl prompt fp t s
        ≡ (ok (some response, record { fingerprint = fp; lock_token = none }), s)
  unfolding before_keyed acquire_for
  before_done t body response s stored valid = ground (arith, stored, valid)

  result-ne-lock : Key.idempotency_result fp ≢ Key.idempotency_lock fp
  result-ne-lock e = cc

  lock-ne-result : Key.idempotency_lock fp ≢ Key.idempotency_result fp
  lock-ne-result e = cc

  arrive-Phase :
      (t : ℕ) (w : World S)
      → Phase redis decode lock_ttl result_ttl fp w
      → Phase redis decode lock_ttl result_ttl fp
          (step redis decode lock_ttl result_ttl fp (arrive t) w)
  unfolding step
  arrive-Phase t w (inl (no_result, unlocked, idle, none_created)) =
      subst
        (λ (x : Result AppError (Option ℕ × Handle) × S).
          Phase redis decode lock_ttl result_ttl fp
            (arrived redis decode lock_ttl result_ttl fp t w x))
        (sym (before_free t w.store no_result unlocked))
        (inr (
          inl (
            t,
            laws.get_set_other (Key.idempotency_result fp) (Key.idempotency_lock fp) (Value.token t)
                  lock_ttl w.store result-ne-lock
                ∙ no_result,
            laws.get_set (Key.idempotency_lock fp) (Value.token t) lock_ttl w.store lock_positive,
            ap (λ rest. (t, held_by fp t) ∷ rest) idle,
            none_created,
          )))
  arrive-Phase t w (inr (inl (k, no_result, locked, busy, none_created))) =
      subst
        (λ (x : Result AppError (Option ℕ × Handle) × S).
          Phase redis decode lock_ttl result_ttl fp
            (arrived redis decode lock_ttl result_ttl fp t w x))
        (sym (before_held t k w.store no_result locked))
        (inr (inl (k, no_result, locked, busy, none_created)))
  arrive-Phase t w (inr (inr (body, response, stored, valid, idle, one))) =
      subst
        (λ (x : Result AppError (Option ℕ × Handle) × S).
          Phase redis decode lock_ttl result_ttl fp
            (arrived redis decode lock_ttl result_ttl fp t w x))
        (sym (before_done t body response w.store stored valid))
        (inr (inr (body, response, stored, valid, idle, one)))

  -- A request that is not creating changes nothing.
  idle_finish :
      (t : ℕ) (body : Option ℕ) (w : World S)
      → w.running ≡ []
      → finish redis decode lock_ttl result_ttl fp t (handle_of t w.running) body w ≡ w
  idle_finish t body w idle = rw idle refl

  other_finish :
      (t k : ℕ) (body : Option ℕ) (w : World S)
      → w.running ≡ (k, held_by fp k) ∷ []
      → (k == t) ≡ false
      → finish redis decode lock_ttl result_ttl fp t (handle_of t w.running) body w ≡ w
  other_finish t k body w busy other = rw (busy, other) refl

  own_finish :
      (t k : ℕ) (body : Option ℕ) (w : World S)
      → w.running ≡ (k, held_by fp k) ∷ []
      → (k == t) ≡ true
      → finish redis decode lock_ttl result_ttl fp t (handle_of t w.running) body w
        ≡ finish redis decode lock_ttl result_ttl fp t (some (held_by fp k)) body w
  own_finish t k body w busy own = rw (busy, own) refl

  none_left :
      (t k : ℕ) (running : List (ℕ × Handle))
      → running ≡ (k, held_by fp k) ∷ []
      → (k == t) ≡ true
      → without t running ≡ []
  none_left t k running busy own = rw (busy, own) refl

  -- The release takes the lock that the request holds.
  release_own :
      (k : ℕ) (s : S)
      → redis.get (Key.idempotency_lock fp) s ≡ some (Value.token k)
      → release_if_held redis decode lock_ttl result_ttl Delivery.answered (held_by fp k) s
        ≡ redis.delete (Key.idempotency_lock fp) s
  release_own k s locked = ground (arith, locked, ==_refl k)

  fail-Phase :
      (t : ℕ) (w : World S)
      → Phase redis decode lock_ttl result_ttl fp w
      → Phase redis decode lock_ttl result_ttl fp
          (step redis decode lock_ttl result_ttl fp (fail t) w)
  unfolding step
  fail-Phase t w (inl (no_result, unlocked, idle, none_created)) =
      subst (Phase redis decode lock_ttl result_ttl fp) (sym (idle_finish t none w idle))
        (inl (no_result, unlocked, idle, none_created))
  fail-Phase t w (inr (inl (k, no_result, locked, busy, none_created))) =
      elim (Bool-cases (k == t)) [
        | inr other ↦
            subst (Phase redis decode lock_ttl result_ttl fp)
              (sym (other_finish t k none w busy other))
              (inr (inl (k, no_result, locked, busy, none_created)))
        | inl own ↦
            subst (Phase redis decode lock_ttl result_ttl fp) (sym (own_finish t k none w busy own))
              (failed k no_result locked busy none_created own)
      ]
    where
      failed :
          (k : ℕ)
          → redis.get (Key.idempotency_result fp) w.store ≡ none
          → redis.get (Key.idempotency_lock fp) w.store ≡ some (Value.token k)
          → w.running ≡ (k, held_by fp k) ∷ []
          → w.created ≡ 0
          → (k == t) ≡ true
          → Phase redis decode lock_ttl result_ttl fp
              (finish redis decode lock_ttl result_ttl fp t (some (held_by fp k)) none w)
      failed k no_result locked busy none_created own =
          unfold idempotency_after_failure in
          inl (
            ap (redis.get (Key.idempotency_result fp)) (release_own k w.store locked)
                ∙ laws.get_delete_other (Key.idempotency_result fp) (Key.idempotency_lock fp)
                    w.store result-ne-lock
                ∙ no_result,
            ap (redis.get (Key.idempotency_lock fp)) (release_own k w.store locked)
                ∙ laws.get_delete (Key.idempotency_lock fp) w.store,
            none_left t k w.running busy own,
            none_created,
          )
  fail-Phase t w (inr (inr (body, response, stored, valid, idle, one))) =
      subst (Phase redis decode lock_ttl result_ttl fp) (sym (idle_finish t none w idle))
        (inr (inr (body, response, stored, valid, idle, one)))

  succeed-Phase :
      (t body : ℕ) (w : World S)
      → IsStorable redis decode lock_ttl result_ttl fp (succeed t body)
      → Phase redis decode lock_ttl result_ttl fp w
      → Phase redis decode lock_ttl result_ttl fp
          (step redis decode lock_ttl result_ttl fp (succeed t body) w)
  unfolding step
  succeed-Phase t body w storable (inl (no_result, unlocked, idle, none_created)) =
      subst (Phase redis decode lock_ttl result_ttl fp) (sym (idle_finish t (some body) w idle))
        (inl (no_result, unlocked, idle, none_created))
  succeed-Phase t body w storable (inr (inl (k, no_result, locked, busy, none_created))) =
      elim (Bool-cases (k == t)) [
        | inr other ↦
            subst (Phase redis decode lock_ttl result_ttl fp)
              (sym (other_finish t k (some body) w busy other))
              (inr (inl (k, no_result, locked, busy, none_created)))
        | inl own ↦
            subst (Phase redis decode lock_ttl result_ttl fp)
              (sym (own_finish t k (some body) w busy own))
              (finished k locked busy none_created own)
      ]
    where
      stored : S
      stored = redis.set (Key.idempotency_result fp) (Value.body body) result_ttl w.store

      finished :
          (k : ℕ)
          → redis.get (Key.idempotency_lock fp) w.store ≡ some (Value.token k)
          → w.running ≡ (k, held_by fp k) ∷ []
          → w.created ≡ 0
          → (k == t) ≡ true
          → Phase redis decode lock_ttl result_ttl fp
              (finish redis decode lock_ttl result_ttl fp t (some (held_by fp k)) (some body) w)
      finished k locked busy none_created own =
          unfold idempotency_after_success in
          inr (
            inr (
              body,
              storable.0,
              ap (redis.get (Key.idempotency_result fp)) (
                    release_own k stored (
                      laws.get_set_other (Key.idempotency_lock fp) (Key.idempotency_result fp)
                        (Value.body body) result_ttl w.store lock-ne-result
                      ∙ locked))
                  ∙ laws.get_delete_other (Key.idempotency_result fp) (Key.idempotency_lock fp)
                      stored result-ne-lock
                  ∙ laws.get_set (Key.idempotency_result fp) (Value.body body) result_ttl w.store
                      result_positive,
              storable.1,
              none_left t k w.running busy own,
              omega (arith, none_created),
            ))
  succeed-Phase t body w storable (inr (inr (old, response, stored, valid, idle, one))) =
      subst (Phase redis decode lock_ttl result_ttl fp) (sym (idle_finish t (some body) w idle))
        (inr (inr (old, response, stored, valid, idle, one)))

  run-Phase :
      (events : List Event) (w : World S)
      → All (IsStorable redis decode lock_ttl result_ttl fp) events
      → Phase redis decode lock_ttl result_ttl fp w
      → Phase redis decode lock_ttl result_ttl fp (run redis decode lock_ttl result_ttl fp events w)
  run-Phase [] w h p = p
  run-Phase (arrive t ∷ events) w h p =
      run-Phase events (step redis decode lock_ttl result_ttl fp (arrive t) w) h.1
        (arrive-Phase t w p)
  run-Phase (fail t ∷ events) w h p =
      run-Phase events (step redis decode lock_ttl result_ttl fp (fail t) w) h.1 (fail-Phase t w p)
  run-Phase (succeed t body ∷ events) w h p =
      run-Phase events (step redis decode lock_ttl result_ttl fp (succeed t body) w) h.1
        (succeed-Phase t body w h.0 p)

  Phase-created : (w : World S) → Phase redis decode lock_ttl result_ttl fp w → w.created ≤ 1
  Phase-created w (inl (a, b, c, none_created)) = omega (arith, none_created)
  Phase-created w (inr (inl (t, a, b, c, none_created))) = omega (arith, none_created)
  Phase-created w (inr (inr (body, response, a, b, c, one))) = omega (arith, one)

  -- Requests with one idempotency key create at most one post, in whatever order they arrive,
  -- succeed and fail, where neither key has a value at first, the commands answer, no key expires,
  -- the two commands of each hook run together, the response is stored before the release, and every
  -- response is one that is stored and read back.
  pub one_creation :
      (events : List Event) (s : S)
      → redis.get (Key.idempotency_result fp) s ≡ none
      → redis.get (Key.idempotency_lock fp) s ≡ none
      → All (IsStorable redis decode lock_ttl result_ttl fp) events
      → (run redis decode lock_ttl result_ttl fp events
          (record { store = s; running = []; created = 0 })).created
        ≤ 1
  one_creation events s no_result unlocked storable =
      let start : World S = record { store = s; running = []; created = 0 } in
      Phase-created (run redis decode lock_ttl result_ttl fp events start)
        (run-Phase events start storable (inl (no_result, unlocked, refl, refl)))
