-- ===== src/Redis/Hashes.antt =====
-- What the view counters use of Redis hashes, a parameter of the model, and the two helpers on them:
-- `rename_if_exists` and `merge_hash_into` of app/infra/redis.py. A field is the text of a post's id,
-- and stands for that id.
use puppytalk_be.Base.{
  ℕ, ◌+◌, ◌≡◌, ◌≢◌, Bool, true, false, Option, none, some, or_zero, List, [], ◌∷◌, if◌then◌else◌,
  ◌==◌,
}
use puppytalk_be.Redis.{Key, Value, Delivery, Redis, deliver}

-- `views:{v}:buffer`, and the drain key of one flush.
pub data HashKey : Type 0 where
  view_buffer : HashKey
  drain : ℕ → HashKey

-- HGET, HGETALL, HINCRBY with its reply, EXISTS, RENAME of a key that exists, and DEL.
pub record Hashes (S : Type 0) : Type 0 where
  pub hget : HashKey → ℕ → S → Option ℕ
  pub hgetall : HashKey → S → List (ℕ × ℕ)
  pub hincrby : HashKey → ℕ → ℕ → S → ℕ × S
  pub key_exists : HashKey → S → Bool
  pub rename : HashKey → HashKey → S → S
  pub remove : HashKey → S → S

-- How the commands of `merge_hash_into` end.
pub record MergeDeliveries : Type 0 where
  pub hgetall : Delivery
  pub hincrby : ℕ → Delivery
  pub delete : Delivery

-- The sum of the counts of one field in a reply of HGETALL.
abbrev pub field_sum : ℕ → List (ℕ × ℕ) → ℕ
field_sum f [] = 0
field_sum f ((g, n) ∷ fields) = (if g == f then n else 0) + field_sum f fields

module _ {S : Type 0} (hashes : Hashes S) where
  -- What a hash counts for a field.
  abbrev pub pending : HashKey → ℕ → S → ℕ
  pending k f s = or_zero (hashes.hget k f s)

  pub record IsHashes (redis : Redis S) : Type 0 where
    pub hgetall_lem :
        (k : HashKey) (f : ℕ) (s : S) → field_sum f (hashes.hgetall k s) ≡ pending k f s
    pub hincrby_reply :
        (k : HashKey) (f n : ℕ) (s : S) → (hashes.hincrby k f n s).0 ≡ pending k f s + n
    pub hincrby_lem :
        (k : HashKey) (f g n : ℕ) (s : S)
        → pending k g (hashes.hincrby k f n s).1 ≡ pending k g s + (if f == g then n else 0)
    pub hincrby_other :
        (k j : HashKey) (f g n : ℕ) (s : S)
        → k ≢ j
        → pending k g (hashes.hincrby j f n s).1 ≡ pending k g s
    pub no_key : (k : HashKey) (f : ℕ) (s : S) → hashes.key_exists k s ≡ false → pending k f s ≡ 0
    pub rename_source :
        (k j : HashKey) (f : ℕ) (s : S) → k ≢ j → pending k f (hashes.rename k j s) ≡ 0
    pub rename_target :
        (k j : HashKey) (f : ℕ) (s : S) → k ≢ j → pending j f (hashes.rename k j s) ≡ pending k f s
    pub remove_lem : (k : HashKey) (f : ℕ) (s : S) → pending k f (hashes.remove k s) ≡ 0
    pub remove_other :
        (k j : HashKey) (f : ℕ) (s : S) → k ≢ j → pending k f (hashes.remove j s) ≡ pending k f s
    -- Commands on the other keys.
    pub pending_set :
        (k : HashKey) (f : ℕ) (j : Key) (v : Value) (ttl : ℕ) (s : S)
        → pending k f (redis.set j v ttl s) ≡ pending k f s
    pub pending_delete :
        (k : HashKey) (f : ℕ) (j : Key) (s : S) → pending k f (redis.delete j s) ≡ pending k f s
    pub get_hincrby :
        (j : Key) (k : HashKey) (f n : ℕ) (s : S)
        → redis.get j (hashes.hincrby k f n s).1 ≡ redis.get j s

  -- `_RENAME_IF_EXISTS_LUA`, which Redis runs in one step.
  abbrev pub rename_if_exists : HashKey → HashKey → S → Bool × S
  rename_if_exists src dst s =
      if hashes.key_exists src s then (true, hashes.rename src dst s) else (false, s)

  -- The loop of `merge_hash_into`; `d` is how the HINCRBY of a field ends. True if none raised.
  unfoldable pub merge_fields : (ℕ → Delivery) → HashKey → List (ℕ × ℕ) → S → Bool × S
  merge_fields d dst [] s = (true, s)
  merge_fields d dst ((f, n) ∷ fields) s =
      let (reply, s') = deliver (d f) (hashes.hincrby dst f n s) s in
      let rest = merge_fields d dst fields s' in elim reply [ none ↦ (false, s') | some m ↦ rest ]

  -- `merge_hash_into`; true if no command raised.
  unfoldable pub merge_hash_into : MergeDeliveries → HashKey → HashKey → S → Bool × S
  unfolding merge_fields
  merge_hash_into d src dst s =
      let (reply, s1) = deliver d.hgetall (hashes.hgetall src s, s) s in
      elim reply [
        | none ↦ (false, s1)
        | some fields ↦
            let (merged, s2) = merge_fields d.hincrby dst fields s1 in
            let (deleted, s3) = deliver d.delete (tt {0}, hashes.remove src s2) s2 in
            if merged
            then elim deleted [ none ↦ (false, s3) | some u ↦ (true, s3) ]
            else (false, s2)
      ]
