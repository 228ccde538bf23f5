-- ===== src/Cache/FailOpen.antt =====
-- A cached read answers like its loader, whatever happens to Redis: app/infra/cache.py.
use puppytalk_be.Base.{
  ℕ, zero, suc, ◌<◌, ◌≤◌, ◌≡◌, ◌≢◌, refl, sym, ap, ◌∙◌, arith, Option, none, some, ◌⊎◌, inl, inr,
  Option-cases,
}
use mathlib.Core.Path.{subst}
use puppytalk_be.Redis.{Key, Value, Delivery, Redis, IsRedis, deliver}
use puppytalk_be.Redis.Locks.{try_acquire_lock, release_lock}
use puppytalk_be.Cache.{
  CacheDeliveries, decode_value, read_cache, wait_for_value, compute_locked, compute_under,
  compute_missing, get_or_compute_json,
}

-- `P` says that a value is right. What is stored is serialised from a value, and reads back as it.
module _ {S : Type 0} (redis : Redis S) (laws : IsRedis redis) (encode : ℕ → ℕ)
    (decode : ℕ → Option ℕ) (reads_back : (v : ℕ) → decode (encode v) ≡ some v) (key lock_key : Key)
    (apart : key ≢ lock_key) (ttl lock_ttl token : ℕ) (positive : 0 < ttl) (P : ℕ → Type 0) where
  abbrev pub Holds : Option ℕ → Type 0
  Holds none = Unit
  Holds (some v) = P v

  -- What the cache holds for the key is right.
  abbrev pub IsSound : S → Type 0
  IsSound s =
      Holds (decode_value redis encode decode key lock_key ttl lock_ttl token (redis.get key s))

  -- A right value with one call of the loader at most, and a sound cache.
  abbrev pub Answers : (Option ℕ × ℕ) × S → Type 0
  Answers ((none, calls), s) = ⊥
  Answers ((some v, calls), s) = P v × (calls ≤ 1) × IsSound s

  same_value : (s s' : S) → redis.get key s' ≡ redis.get key s → IsSound s → IsSound s'
  same_value s s' same h =
      subst
        (λ (o : Option Value).
          Holds (decode_value redis encode decode key lock_key ttl lock_ttl token o))
        (sym same) h

  released_value :
      (d : Delivery) (mine : ℕ) (s : S)
      → redis.get key (release_lock redis d lock_key mine s) ≡ redis.get key s
  released_value d mine s = ground (arith, laws.get_delete_other key lock_key s apart)

  acquired_value :
      (d : Delivery) (s : S)
      → redis.get key (try_acquire_lock redis d lock_key lock_ttl token s).1 ≡ redis.get key s
  acquired_value d s = ground (
    arith,
    laws.set_nx_lem lock_key (Value.token token) lock_ttl s,
    laws.get_set_other key lock_key (Value.token token) lock_ttl s apart,
  )

  abbrev held_for : S → Option ℕ
  held_for s = decode_value redis encode decode key lock_key ttl lock_ttl token (redis.get key s)

  -- A GET leaves the store alone and raises, or gives what is held.
  read_cases :
      (d : Delivery) (s : S)
      → (read_cache redis encode decode key lock_key ttl lock_ttl token d s ≡ (none, s))
        ⊎ (read_cache redis encode decode key lock_key ttl lock_ttl token d s
            ≡ (some (held_for s), s))
  read_cases Delivery.answered s = inr refl
  read_cases Delivery.lost_request s = inl refl
  read_cases Delivery.lost_reply s = inl refl

  computed-Answers :
      (d : CacheDeliveries) (v mine : ℕ) (s : S)
      → P v
      → IsSound s
      → Answers
          (compute_locked redis encode decode key lock_key ttl lock_ttl token d (some v) mine s)
  unfolding compute_locked
  computed-Answers d v mine s p h =
      let stored = (deliver d.store (tt {0}, redis.set key (Value.body (encode v)) ttl s) s).1 in
      (p, omega arith, same_value stored _ (released_value d.release mine stored) (written d.store))
    where
      after_set : IsSound (redis.set key (Value.body (encode v)) ttl s)
      after_set =
          subst Holds
            (sym (
              ap (decode_value redis encode decode key lock_key ttl lock_ttl token)
                (laws.get_set key (Value.body (encode v)) ttl s positive)
              ∙ reads_back v))
            p

      written :
          (b : Delivery)
          → IsSound (deliver b (tt {0}, redis.set key (Value.body (encode v)) ttl s) s).1
      written Delivery.answered = after_set
      written Delivery.lost_request = h
      written Delivery.lost_reply = after_set

  module _ (meanwhile : ℕ → S → S)
      (others_sound : (k : ℕ) (s : S) → IsSound s → IsSound (meanwhile k s)) where
    -- What a round does with its read.
    abbrev next : (ℕ → Delivery) → ℕ → ℕ → Option (Option ℕ) × S → (Option ℕ × ℕ) × S
    next d k v (none, s) = ((some v, 1), s)
    next d k v (some none, s) =
        wait_for_value redis encode decode key lock_key ttl lock_ttl token meanwhile d k (some v) s
    next d k v (some (some w), s) = ((some w, 0), s)

    wait_step :
        (d : ℕ → Delivery) (k v : ℕ) (s : S)
        → wait_for_value redis encode decode key lock_key ttl lock_ttl token meanwhile d
            (suc k)
            (some v)
            s
          ≡ next d k v
              (read_cache redis encode decode key lock_key ttl lock_ttl token (d k) (meanwhile k s))
    unfolding wait_for_value
    wait_step d k v s =
        same (read_cache redis encode decode key lock_key ttl lock_ttl token (d k) (meanwhile k s))
      where
        same :
            (x : Option (Option ℕ) × S)
            → ◌≡◌ {A = (Option ℕ × ℕ) × S}
                (elim x.0 [
                  | none ↦ ((some v, 1), x.1)
                  | some none ↦
                      wait_for_value redis encode decode key lock_key ttl lock_ttl token meanwhile d
                        k
                        (some v)
                        x.1
                  | some (some w) ↦ ((some w, 0), x.1)
                ])
                (next d k v x)
        same (none, s') = refl
        same (some none, s') = refl
        same (some (some w), s') = refl

    waited-Answers :
        (d : ℕ → Delivery) (rounds v : ℕ) (s : S)
        → P v
        → IsSound s
        → Answers (
            wait_for_value redis encode decode key lock_key ttl lock_ttl token meanwhile d rounds
              (some v)
              s)
    unfolding wait_for_value
    waited-Answers d zero v s p h = (p, omega arith, h)
    waited-Answers d (suc k) v s p h =
        let sound = others_sound k s h in
        elim (read_cases (d k) (meanwhile k s)) [
          | inl failed ↦
              subst Answers (sym (wait_step d k v s ∙ ap (next d k v) failed))
                (p, omega arith, sound)
          | inr read ↦ elim (Option-cases (held_for (meanwhile k s))) [
            | inl missing ↦
                subst Answers
                  (sym (
                    wait_step d k v s
                    ∙ ap (next d k v) read
                    ∙ ap (λ o. next d k v (some o, meanwhile k s)) missing))
                  (waited-Answers d k v (meanwhile k s) p sound)
            | inr (w, hit) ↦
                subst Answers
                  (sym (
                    wait_step d k v s
                    ∙ ap (next d k v) read
                    ∙ ap (λ o. next d k v (some o, meanwhile k s)) hit))
                  (subst Holds hit sound, omega arith, sound)
          ]
        ]

    under-Answers :
        (d : CacheDeliveries) (rounds v : ℕ) (lock : Option (Option ℕ)) (s : S)
        → P v
        → IsSound s
        → Answers (
            compute_under redis encode decode key lock_key ttl lock_ttl token meanwhile d rounds
              (some v)
              lock
              s)
    unfolding compute_under
    under-Answers d rounds v none s p h = (p, omega arith, h)
    under-Answers d rounds v (some none) s p h = waited-Answers d.poll rounds v s p h
    under-Answers d rounds v (some (some mine)) s p h = computed-Answers d v mine s p h

    -- Where the loader returns a right value, the cached read returns a right one too, calls the loader
    -- once at most and leaves a sound cache, however the commands of Redis end, whether another
    -- worker holds the lock, and whatever sound values others store meanwhile.
    pub cached_read-Answers :
        (d : CacheDeliveries) (rounds v : ℕ) (s : S)
        → P v
        → IsSound s
        → Answers (
            get_or_compute_json redis encode decode key lock_key ttl lock_ttl token meanwhile d
              rounds
              (some v)
              s)
    unfolding get_or_compute_json compute_missing
    cached_read-Answers d rounds v s p h =
        let (lock, s') = try_acquire_lock redis d.acquire lock_key lock_ttl token s in
        let missed =
          under-Answers d rounds v lock s' p (same_value s s' (acquired_value d.acquire s) h) in
        elim (read_cases d.get s) [
          | inl failed ↦
              subst
                (λ (x : Option (Option ℕ) × S). Answers (
                  compute_missing redis encode decode key lock_key ttl lock_ttl token meanwhile d
                    rounds (some v) x.0 x.1))
                (sym failed) (p, omega arith, h)
          | inr read ↦ elim (Option-cases (held_for s)) [
            | inl missing ↦
                subst
                  (λ (x : Option (Option ℕ) × S). Answers (
                    compute_missing redis encode decode key lock_key ttl lock_ttl token meanwhile d
                      rounds (some v) x.0 x.1))
                  (sym (read ∙ ap (λ o. (some o, s)) missing)) missed
            | inr (w, hit) ↦
                subst
                  (λ (x : Option (Option ℕ) × S). Answers (
                    compute_missing redis encode decode key lock_key ttl lock_ttl token meanwhile d
                      rounds (some v) x.0 x.1))
                  (sym (read ∙ ap (λ o. (some o, s)) hit)) (subst Holds hit h, omega arith, h)
          ]
        ]
