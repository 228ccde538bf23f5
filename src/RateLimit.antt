-- ===== src/RateLimit.antt =====
-- Fixed-window rate limits: app/core/rate_limit.py. Time is a number of microseconds, a key the number
-- of its text, and `_memory_store` the list of its entries in the order of insertion.
pub mod Bound
pub mod Window
pub mod Gates
mod Tests
use puppytalk_be.Base.{
  ℕ, zero, suc, ◌+◌, ◌-◌, ◌*◌, ◌/◌, max, Bool, true, false, ◌&&◌, not, Option, none, some, List, [],
  ◌∷◌, ◌++◌, map, ltb, leb, ◌==◌, if◌then◌else◌, where_rows, length,
}

pub record Entry : Type 0 where
  pub key : ℕ
  pub count : ℕ
  pub window_end : ℕ

-- `min(_memory_store.keys(), key=...)`: the first entry with the least end.
oldest_of : Entry → List Entry → Entry
oldest_of e [] = e
oldest_of e (x ∷ entries) = oldest_of (if ltb x.window_end e.window_end then x else e) entries

-- `del _memory_store[key]`
abbrev pub remove_key : ℕ → List Entry → List Entry
remove_key k entries = where_rows (λ (e : Entry). not (e.key == k)) entries

-- `while len(_memory_store) >= _MEMORY_MAX_KEYS and _memory_store: ...`; each round removes an entry,
-- so that as many rounds as entries are enough.
evict_oldest : ℕ → ℕ → List Entry → List Entry
unfolding oldest_of
evict_oldest max_keys zero entries = entries
evict_oldest max_keys (suc fuel) [] = []
evict_oldest max_keys (suc fuel) (e ∷ entries) =
    let rest = evict_oldest max_keys fuel (remove_key (oldest_of e entries).key (e ∷ entries)) in
    if ltb (length (e ∷ entries)) max_keys then e ∷ entries else rest

-- `_memory_evict_if_needed`; `max_keys` is _MEMORY_MAX_KEYS.
evict_if_needed : ℕ → ℕ → List Entry → List Entry
unfolding evict_oldest
evict_if_needed max_keys now entries =
    let live = where_rows (λ (e : Entry). not (ltb e.window_end now)) entries in
    if ltb (length entries) max_keys then entries else evict_oldest max_keys (length live) live

-- `_memory_store.get(key)`
abbrev pub find_entry : ℕ → List Entry → Option (ℕ × ℕ)
find_entry k [] = none
find_entry k (e ∷ entries) =
    if e.key == k then some (e.count, e.window_end) else find_entry k entries

-- `_memory_store[key] = (count, window_end)`: in place, or at the end.
abbrev pub put_entry : ℕ → ℕ → ℕ → List Entry → List Entry
put_entry k count window_end [] = record { key = k; count = count; window_end = window_end } ∷ []
put_entry k count window_end (e ∷ entries) =
    if e.key == k
    then record { key = k; count = count; window_end = window_end } ∷ entries
    else e ∷ put_entry k count window_end entries

abbrev pub micros : ℕ
micros = 1000000

-- `_check_memory_fixed_window` behind the eviction: allowed, retry_after, and the store.
abbrev pub count_call : ℕ → ℕ → ℕ → ℕ → Option (ℕ × ℕ) → List Entry → (Bool × ℕ) × List Entry
count_call now k window_sec max_count none entries =
    ((true, 0), put_entry k 1 (now + window_sec * micros) entries)
count_call now k window_sec max_count (some (count, window_end)) entries =
    if leb window_end now then ((true, 0), put_entry k 1 (now + window_sec * micros) entries) else (
      (if ltb max_count (count + 1) then (false, (window_end - now) / micros) else (true, 0)),
      put_entry k (count + 1) window_end entries,
    )

-- `_check_memory_fixed_window`
pub check_memory : ℕ → ℕ → ℕ → ℕ → ℕ → List Entry → (Bool × ℕ) × List Entry
unfolding evict_if_needed
check_memory max_keys now k window_sec max_count entries =
    let kept = evict_if_needed max_keys now entries in
    count_call now k window_sec max_count (find_entry k kept) kept

-- `_check_redis_fixed_window`: the count and the TTL that the script returned; a negative TTL is
-- `none`.
abbrev pub check_redis : ℕ → ℕ → ℕ × Option ℕ → Bool × ℕ
check_redis window_sec max_count (count, none) =
    if ltb max_count count then (false, window_sec) else (true, 0)
check_redis window_sec max_count (count, some ttl) =
    if ltb max_count count then (false, ttl) else (true, 0)

-- No client, a client whose script raised, or its answer.
pub data RedisAnswer : Type 0 where
  no_client failed : RedisAnswer
  answer : ℕ × Option ℕ → RedisAnswer

-- `check_fixed_window`
pub check_fixed_window :
    RedisAnswer → Bool → ℕ → ℕ → ℕ → ℕ → ℕ → List Entry → (Bool × ℕ) × List Entry
unfolding check_memory
check_fixed_window (answer r) fail_open max_keys now k window_sec max_count entries =
    (check_redis window_sec max_count r, entries)
check_fixed_window failed fail_open max_keys now k window_sec max_count entries =
    if fail_open
    then ((true, 0), entries)
    else check_memory max_keys now k window_sec max_count entries
check_fixed_window no_client fail_open max_keys now k window_sec max_count entries =
    if fail_open
    then ((true, 0), entries)
    else check_memory max_keys now k window_sec max_count entries

-- `LocalRejectionGate`
pub record Gate : Type 0 where
  pub close_threshold : ℕ
  pub blocked_until : ℕ
  pub consecutive_rejections : ℕ

-- `LocalRejectionGate.check`; `window` is the call of `check_fixed_window` with its answer.
pub gate_check : (Unit {0} → Bool × ℕ) → ℕ → Gate → (Bool × ℕ × Bool) × Gate
gate_check window now g =
    let n = g.consecutive_rejections + 1 in
    if ltb now g.blocked_until
    then (
      (false, (g.blocked_until - now) / micros + 1, leb g.close_threshold n),
      record g { consecutive_rejections = n },
    )
    else (let (allowed, retry_after) = window tt in
        if allowed then ((true, 0, false), record g { consecutive_rejections = 0 }) else (
          (false, retry_after, leb g.close_threshold n),
          record g {
            blocked_until = max g.blocked_until (now + max retry_after 1 * micros);
            consecutive_rejections = n;
          },
        ))
