-- ===== src/Idempotency/Tests.antt =====
-- Runs of the idempotency hooks, and the theorems at such inputs.
use puppytalk_be.Base.{
  ℕ, ◌≤◌, ◌≡◌, refl, arith, false, Option, none, some, List, [], ◌∷◌, ok, err, ◌==◌, if◌then◌else◌,
}
use puppytalk_be.Errors.{AppError}
use puppytalk_be.Ids.{codes}
use puppytalk_be.Redis.{Key, Value, Delivery}
use puppytalk_be.Redis.Store.{Store, store, store-IsRedis, same_key}
use puppytalk_be.Idempotency.{
  before_keyed, idempotency_after_success, idempotency_after_failure, release_if_held,
  normalize_key, acquire_for,
}
use puppytalk_be.Idempotency.World.{Event, World, arrive, fail, succeed, prompt, held_by, step, run}
use puppytalk_be.Idempotency.Once.{one_creation}
use puppytalk_be.Idempotency.Hooks.{foreign_lock_kept}

abbrev valid_below_100 : ℕ → Option ℕ
valid_below_100 b = if b == 0 then none else some b

abbrev empty : Store
empty k = none

-- Two requests arrive, the first fails, a third one creates the post, and a fourth one is answered.
abbrev attempts : List Event
attempts = arrive 1 ∷ arrive 2 ∷ fail 1 ∷ arrive 3 ∷ succeed 2 60 ∷ succeed 3 70 ∷ arrive 4 ∷ []

abbrev start : World Store
start = record { store = empty; running = []; created = 0 }

attempts_create_one : (run store valid_below_100 120 3600 9 attempts start).created ≡ 1
unfolding step before_keyed idempotency_after_success idempotency_after_failure
attempts_create_one = refl

one_creation_example : (run store valid_below_100 120 3600 9 attempts start).created ≤ 1
one_creation_example =
    one_creation store valid_below_100 120 3600 9 store-IsRedis (omega arith) (omega arith) attempts
      empty refl refl (tt, (tt, (tt, (tt, ((60, refl), ((70, refl), (tt, tt)))))))

abbrev held : Store
held k = if same_key k (Key.idempotency_lock 9) then some (Value.token 5) else none

foreign_lock_kept_example :
    (store.get (Key.idempotency_lock 9) (
        idempotency_after_success store valid_below_100 120 3600 false prompt
          (some (held_by 9 4))
          70
          held)
      ≡ some (Value.token 5))
    × (store.get (Key.idempotency_lock 9) (
          idempotency_after_failure store valid_below_100 120 3600 prompt (some (held_by 9 4)) held)
        ≡ some (Value.token 5))
foreign_lock_kept_example =
    foreign_lock_kept store store-IsRedis valid_below_100 120 3600 false prompt 9 4 5 70 held
      (λ e. omega (arith, e)) refl

-- The release runs before the response is stored: a request between the two is admitted.
early_release_admits :
    (before_keyed store valid_below_100 120 3600 prompt 9 6
      (release_if_held store valid_below_100 120 3600 Delivery.answered (held_by 9 5) held)).0
    ≡ ok (none, held_by 9 6)
unfolding before_keyed acquire_for
early_release_admits = refl

abbrev unstripped : List ℕ → List ℕ
unstripped s = s

long_key : normalize_key unstripped (some (codes "post-2024")) ≡ ok (some (codes "post-2024"))
unfolding normalize_key
long_key = refl

short_key : normalize_key unstripped (some (codes "post-24")) ≡ err AppError.invalid_request
unfolding normalize_key
short_key = refl
