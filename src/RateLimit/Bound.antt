-- ===== src/RateLimit/Bound.antt =====
-- The size of `_memory_store`: app/core/rate_limit.py.
use puppytalk_be.Base.{
  ℕ, zero, suc, ◌+◌, ◌*◌, ◌≤◌, ◌<◌, ◌≡◌, refl, sym, arith, Bool, true, false, not, Option, none,
  some, List, [], ◌∷◌, ltb, ◌==◌, where_rows, exists_row, length, Bool-cases, inl, inr, ==_refl,
}
use mathlib.Core.Path.{subst}
use puppytalk_be.RateLimit.{
  Entry, oldest_of, remove_key, evict_oldest, evict_if_needed, find_entry, put_entry, count_call,
  check_memory,
}

length-where_rows_le {ℓ} :
    {A : Type ℓ} (p : A → Bool) (rows : List A) → length (where_rows p rows) ≤ length rows
length-where_rows_le p [] = omega arith
length-where_rows_le p (r ∷ rows) = ground (arith, length-where_rows_le p rows)

length-where_rows_lt {ℓ} :
    {A : Type ℓ} (p : A → Bool) (rows : List A)
    → exists_row p rows ≡ true
    → length (where_rows (λ r. not (p r)) rows) < length rows
length-where_rows_lt p [] h = cc
length-where_rows_lt p (r ∷ rows) h =
    ground (arith, length-where_rows_le (λ x. not (p x)) rows, length-where_rows_lt p rows)

oldest-older :
    (e x : Entry) (entries : List Entry)
    → ltb x.window_end e.window_end ≡ true
    → oldest_of e (x ∷ entries) ≡ oldest_of x entries
unfolding oldest_of
oldest-older e x entries h = rw h refl

oldest-newer :
    (e x : Entry) (entries : List Entry)
    → ltb x.window_end e.window_end ≡ false
    → oldest_of e (x ∷ entries) ≡ oldest_of e entries
unfolding oldest_of
oldest-newer e x entries h = rw h refl

oldest_single : (e : Entry) → oldest_of e [] ≡ e
unfolding oldest_of
oldest_single e = refl

abbrev has_key : ℕ → List Entry → Bool
has_key k entries = exists_row (λ (x : Entry). x.key == k) entries

has_key-behind :
    (k : ℕ) (e : Entry) (entries : List Entry)
    → has_key k entries ≡ true
    → has_key k (e ∷ entries) ≡ true
has_key-behind k e entries h = ground (arith, h)

has_key-between :
    (k : ℕ) (e x : Entry) (entries : List Entry)
    → has_key k (e ∷ entries) ≡ true
    → has_key k (e ∷ x ∷ entries) ≡ true
has_key-between k e x entries h = ground (arith, h)

-- The oldest entry is one of the entries.
oldest_found :
    (e : Entry) (entries : List Entry) → has_key (oldest_of e entries).key (e ∷ entries) ≡ true
oldest_found e [] = rw (oldest_single e) (ground (arith, ==_refl e.key))
oldest_found e (x ∷ entries) = elim (Bool-cases (ltb x.window_end e.window_end)) [
  | inl older ↦
      subst (λ (o : Entry). has_key o.key (e ∷ x ∷ entries) ≡ true)
        (sym (oldest-older e x entries older))
        (has_key-behind (oldest_of x entries).key e (x ∷ entries) (oldest_found x entries))
  | inr newer ↦
      subst (λ (o : Entry). has_key o.key (e ∷ x ∷ entries) ≡ true)
        (sym (oldest-newer e x entries newer))
        (has_key-between (oldest_of e entries).key e x entries (oldest_found e entries))
]

evict-length :
    (max_keys fuel : ℕ) (entries : List Entry)
    → 0 < max_keys
    → length entries ≤ fuel
    → length (evict_oldest max_keys fuel entries) < max_keys
unfolding evict_oldest
evict-length max_keys zero [] pos h = pos
evict-length max_keys zero (e ∷ entries) pos h = absurd (omega (arith, h))
evict-length max_keys (suc fuel) [] pos h = pos
evict-length max_keys (suc fuel) (e ∷ entries) pos h =
    let k = (oldest_of e entries).key in
    let fewer =
      length-where_rows_lt (λ (x : Entry). x.key == k) (e ∷ entries) (oldest_found e entries) in
    ground
      (arith, evict-length max_keys fuel (remove_key k (e ∷ entries)) pos (omega (arith, fewer, h)))

needed-length :
    (max_keys now : ℕ) (entries : List Entry)
    → 0 < max_keys
    → length (evict_if_needed max_keys now entries) < max_keys
unfolding evict_if_needed
needed-length max_keys now entries pos =
    let live = where_rows (λ (e : Entry). not (ltb e.window_end now)) entries in
    ground (arith, evict-length max_keys (length live) live pos (omega arith))

pub length-put_entry :
    (k count window_end : ℕ) (entries : List Entry)
    → length (put_entry k count window_end entries) ≤ length entries + 1
length-put_entry k count window_end [] = omega arith
length-put_entry k count window_end (e ∷ entries) =
    ground (arith, length-put_entry k count window_end entries)

pub length-count_call :
    (now k window_sec max_count : ℕ) (found : Option (ℕ × ℕ)) (entries : List Entry)
    → length (count_call now k window_sec max_count found entries).1 ≤ length entries + 1
length-count_call now k window_sec max_count none entries = length-put_entry k 1 _ entries
length-count_call now k window_sec max_count (some (count, window_end)) entries = ground (
  arith,
  length-put_entry k 1 (now + window_sec * 1000000) entries,
  length-put_entry k (count + 1) window_end entries,
)

-- After any call the memory store holds no more entries than its limit, which is positive.
pub memory_store_bounded :
    (max_keys now k window_sec max_count : ℕ) (entries : List Entry)
    → 0 < max_keys
    → length (check_memory max_keys now k window_sec max_count entries).1 ≤ max_keys
unfolding check_memory
memory_store_bounded max_keys now k window_sec max_count entries pos =
    let kept = evict_if_needed max_keys now entries in
    omega (
      arith,
      needed-length max_keys now entries pos,
      length-count_call now k window_sec max_count (find_entry k kept) kept,
    )
