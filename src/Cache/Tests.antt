-- ===== src/Cache/Tests.antt =====
-- Runs of the cached read, and the theorem at such an input.
use puppytalk_be.Base.{
  ℕ, ◌+◌, ◌-◌, ◌<◌, ◌≡◌, ◌≢◌, refl, arith, Option, none, some, ◌==◌, if◌then◌else◌, Bool-cases, inl,
  inr,
}
use puppytalk_be.Redis.{Key, Value, Delivery}
use puppytalk_be.Redis.Store.{Store, store, store-IsRedis, same_key}
use puppytalk_be.Cache.{CacheDeliveries, get_or_compute_json, wait_for_value}
use puppytalk_be.Cache.FailOpen.{Answers, IsSound, cached_read-Answers}

abbrev plus_one : ℕ → ℕ
plus_one v = v + 1

-- The empty text is 0.
abbrev minus_one : ℕ → Option ℕ
minus_one b = if b == 0 then none else some (b - 1)

minus_one-plus_one : (v : ℕ) → minus_one (plus_one v) ≡ some v
minus_one-plus_one v = ground arith

abbrev key : Key
key = Key.idempotency_result 1

abbrev lock_key : Key
lock_key = Key.idempotency_lock 1

apart : key ≢ lock_key
apart e = cc

positive : 0 < 60
positive = omega arith

-- Another worker holds the lock, and stores its value 5 before the last round.
abbrev locked : Store
locked k = if same_key k lock_key then some (Value.token 9) else none

abbrev other_worker : ℕ → Store → Store
other_worker k s = if k == 0 then store.set key (Value.body 6) 60 s else s

abbrev prompt : CacheDeliveries
prompt = record {
  get = Delivery.answered;
  acquire = Delivery.answered;
  poll = λ k. Delivery.answered;
  store = Delivery.answered;
  release = Delivery.answered;
}

waits_for_other :
    (get_or_compute_json store plus_one minus_one key lock_key 60 5 3 other_worker prompt 20
      (some 5)
      locked).0
    ≡ (some 5, 0)
unfolding get_or_compute_json wait_for_value
waits_for_other = refl

abbrev IsFive : ℕ → Type 0
IsFive v = v ≡ 5

other_worker-IsSound :
    (k : ℕ) (s : Store)
    → IsSound store store-IsRedis plus_one minus_one minus_one-plus_one key lock_key apart 60 5 3
        positive IsFive s
    → IsSound store store-IsRedis plus_one minus_one minus_one-plus_one key lock_key apart 60 5 3
        positive IsFive
        (other_worker k s)
other_worker-IsSound k s h = elim (Bool-cases (k == 0)) [ inl e ↦ rw e refl | inr e ↦ rw e h ]

cached_read-Answers_example :
    Answers store store-IsRedis plus_one minus_one minus_one-plus_one key lock_key apart 60 5 3
      positive IsFive
      (get_or_compute_json store plus_one minus_one key lock_key 60 5 3 other_worker prompt 20
        (some 5)
        locked)
cached_read-Answers_example =
    cached_read-Answers store store-IsRedis plus_one minus_one minus_one-plus_one key lock_key apart
      60 5 3 positive IsFive other_worker other_worker-IsSound prompt 20 5 locked refl tt
