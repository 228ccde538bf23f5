-- ===== src/Views/Drain.antt =====
-- The hashes of a flush: what the buffer and the drain key count together, step by step.
use puppytalk_be.Base.{ℕ, ◌+◌, ◌≤◌, ◌≡◌, ◌≢◌, refl, arith, true, List, [], ◌∷◌, ◌==◌, if◌then◌else◌}
use puppytalk_be.Redis.{Delivery, Redis, deliver}
use puppytalk_be.Redis.Hashes.{
  HashKey, Hashes, IsHashes, pending, field_sum, merge_fields, MergeDeliveries, merge_hash_into,
}

pub buffer-ne-drain : (k : ℕ) → HashKey.view_buffer ≢ HashKey.drain k
buffer-ne-drain k e = cc

pub drain-ne-buffer : (k : ℕ) → HashKey.drain k ≢ HashKey.view_buffer
drain-ne-buffer k e = cc

-- No command of the merge raised.
pub record IsAnswered (d : MergeDeliveries) : Type 0 where
  pub hgetall : d.hgetall ≡ Delivery.answered
  pub hincrby : (f : ℕ) → d.hincrby f ≡ Delivery.answered
  pub delete : d.delete ≡ Delivery.answered

module _ {S : Type 0} (redis : Redis S) (hashes : Hashes S) (laws : IsHashes hashes redis) where
  -- HINCRBY under a delivery adds the count or nothing.
  hincrby_bound :
      (d : Delivery) (k : HashKey) (f g n : ℕ) (s : S)
      → pending hashes k g (deliver d (hashes.hincrby k f n s) s).1
        ≤ pending hashes k g s + (if f == g then n else 0)
  hincrby_bound Delivery.answered k f g n s = omega (arith, laws.hincrby_lem k f g n s)
  hincrby_bound Delivery.lost_request k f g n s = omega arith
  hincrby_bound Delivery.lost_reply k f g n s = omega (arith, laws.hincrby_lem k f g n s)

  merge_fields_bound :
      (d : ℕ → Delivery) (k : HashKey) (g : ℕ) (fields : List (ℕ × ℕ)) (s : S)
      → pending hashes k g (merge_fields hashes d k fields s).1
        ≤ pending hashes k g s + field_sum g fields
  unfolding merge_fields
  merge_fields_bound d k g [] s = omega arith
  merge_fields_bound d k g ((f, n) ∷ fields) s =
      let s' = (deliver (d f) (hashes.hincrby k f n s) s).1 in
      ground (arith, hincrby_bound (d f) k f g n s, merge_fields_bound d k g fields s')

  merge_fields_exact :
      (d : ℕ → Delivery) (k : HashKey) (g : ℕ) (fields : List (ℕ × ℕ)) (s : S)
      → ((f : ℕ) → d f ≡ Delivery.answered)
      → ((merge_fields hashes d k fields s).0 ≡ true)
        × (pending hashes k g (merge_fields hashes d k fields s).1
            ≡ pending hashes k g s + field_sum g fields)
  unfolding merge_fields
  merge_fields_exact d k g [] s h = (refl, omega arith)
  merge_fields_exact d k g ((f, n) ∷ fields) s h =
      let rest = merge_fields_exact d k g fields (hashes.hincrby k f n s).1 h in
      ground (arith, h f, rest.0, rest.1, laws.hincrby_lem k f g n s)

  pub hgetall_store :
      (d : Delivery) (k : HashKey) (s : S) → (deliver d (hashes.hgetall k s, s) s).1 ≡ s
  hgetall_store Delivery.answered k s = refl
  hgetall_store Delivery.lost_request k s = refl
  hgetall_store Delivery.lost_reply k s = refl

  pub remove_bound :
      (d : Delivery) (k j : HashKey) (g : ℕ) (s : S)
      → k ≢ j
      → pending hashes k g (deliver d (tt {0}, hashes.remove j s) s).1 ≡ pending hashes k g s
  remove_bound Delivery.answered k j g s ne = laws.remove_other k j g s ne
  remove_bound Delivery.lost_request k j g s ne = refl
  remove_bound Delivery.lost_reply k j g s ne = laws.remove_other k j g s ne

  -- A merge adds at most what the source counts, and exactly that when no command of it raises.
  pub merge_bound :
      (d : MergeDeliveries) (k : HashKey) (j : HashKey) (g : ℕ) (s : S)
      → k ≢ j
      → pending hashes k g (merge_hash_into hashes d j k s).1
        ≤ pending hashes k g s + pending hashes j g s
  unfolding merge_hash_into
  merge_bound d k j g s ne =
      let after = (merge_fields hashes d.hincrby k (hashes.hgetall j s) s).1 in
      ground (
        arith,
        merge_fields_bound d.hincrby k g (hashes.hgetall j s) s,
        laws.hgetall_lem j g s,
        laws.remove_other k j g after ne,
      )

  pub merge_exact :
      (d : MergeDeliveries) (k : HashKey) (j : HashKey) (g : ℕ) (s : S)
      → k ≢ j
      → IsAnswered d
      → pending hashes k g (merge_hash_into hashes d j k s).1
        ≡ pending hashes k g s + pending hashes j g s
  unfolding merge_hash_into
  merge_exact d k j g s ne h =
      let fields = hashes.hgetall j s in
      let merged = merge_fields_exact d.hincrby k g fields s h.hincrby in
      ground (
        arith,
        h.hgetall,
        h.delete,
        merged.0,
        merged.1,
        laws.hgetall_lem j g s,
        laws.remove_other k j g (merge_fields hashes d.hincrby k fields s).1 ne,
      )
