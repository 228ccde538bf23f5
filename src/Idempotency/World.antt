-- ===== src/Idempotency/World.antt =====
-- Requests with one fingerprint as a sequence of events, each hook in one step: the hooks of
-- app/domain/posts/idempotency.py around `PostService.create_post`.
use puppytalk_be.Base.{
  ℕ, ◌+◌, ◌≡◌, true, Option, none, some, List, [], ◌∷◌, Result, ok, err, ◌==◌, if◌then◌else◌, ◌⊎◌,
}
use puppytalk_be.Errors.{AppError}
use puppytalk_be.Redis.{Key, Value, Delivery, Redis}
use puppytalk_be.Idempotency.{
  Handle, HookDeliveries, before_keyed, idempotency_after_success, idempotency_after_failure,
}

abbrev pub prompt : HookDeliveries
prompt = record {
  get = Delivery.answered;
  acquire = Delivery.answered;
  store = Delivery.answered;
  release = Delivery.answered;
}

-- A request arrives, its creation commits with the body of the response, or its creation raises.
pub data Event : Type 0 where
  arrive fail : ℕ → Event
  succeed : ℕ → ℕ → Event

-- The store, the requests that are creating a post, and the number of posts created.
pub record World (S : Type 0) : Type 0 where
  pub store : S
  pub running : List (ℕ × Handle)
  pub created : ℕ

abbrev pub handle_of : ℕ → List (ℕ × Handle) → Option Handle
handle_of t [] = none
handle_of t ((k, h) ∷ running) = if k == t then some h else handle_of t running

abbrev pub without : ℕ → List (ℕ × Handle) → List (ℕ × Handle)
without t [] = []
without t ((k, h) ∷ running) = if k == t then without t running else (k, h) ∷ without t running

abbrev pub held_by : ℕ → ℕ → Handle
held_by fp t = record { fingerprint = fp; lock_token = some t }

module _ {S : Type 0} (redis : Redis S) (decode : ℕ → Option ℕ) (lock_ttl result_ttl fp : ℕ) where
  abbrev pub arrived : ℕ → World S → Result AppError (Option ℕ × Handle) × S → World S
  arrived t w (ok (none, h), s) = record {
    store = s;
    running = (t, h) ∷ w.running;
    created = w.created;
  }
  arrived t w (ok (some response, h), s) = record w { store = s }
  arrived t w (err e, s) = record w { store = s }

  abbrev pub finish : ℕ → Option Handle → Option ℕ → World S → World S
  finish t none body w = w
  finish t (some h) none w = record {
    store = idempotency_after_failure redis decode lock_ttl result_ttl prompt (some h) w.store;
    running = without t w.running;
    created = w.created;
  }
  finish t (some h) (some body) w = record {
    store =
        idempotency_after_success redis decode lock_ttl result_ttl true prompt (some h) body
          w.store;
    running = without t w.running;
    created = w.created + 1;
  }

  unfoldable pub step : Event → World S → World S
  step (arrive t) w =
      arrived t w (before_keyed redis decode lock_ttl result_ttl prompt fp t w.store)
  step (fail t) w = finish t (handle_of t w.running) none w
  step (succeed t body) w = finish t (handle_of t w.running) (some body) w

  abbrev pub run : List Event → World S → World S
  run [] w = w
  run (e ∷ events) w = run events (step e w)

  -- Nobody has come, one request creates under the lock, or the response is stored.
  abbrev pub Phase : World S → Type 0
  Phase w =
      ((redis.get (Key.idempotency_result fp) w.store ≡ none)
        × (redis.get (Key.idempotency_lock fp) w.store ≡ none)
        × (w.running ≡ [])
        × (w.created ≡ 0))
      ⊎ (((t : ℕ) × (redis.get (Key.idempotency_result fp) w.store ≡ none)
          × (redis.get (Key.idempotency_lock fp) w.store ≡ some (Value.token t))
          × (w.running ≡ (t, held_by fp t) ∷ [])
          × (w.created ≡ 0)))
      ⊎ (((body : ℕ) × (response : ℕ) × (redis.get (Key.idempotency_result fp) w.store
            ≡ some (Value.body body))
          × (decode body ≡ some response)
          × (w.running ≡ [])
          × (w.created ≡ 1)))

  -- A response that was serialised is valid.
  abbrev pub IsStorable : Event → Type 0
  IsStorable (arrive t) = Unit
  IsStorable (fail t) = Unit
  IsStorable (succeed t body) = (response : ℕ) × decode body ≡ some response
