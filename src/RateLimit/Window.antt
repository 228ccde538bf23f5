-- ===== src/RateLimit/Window.antt =====
-- How many calls one window of the memory store allows: app/core/rate_limit.py.
use puppytalk_be.Base.{
  ℕ, ◌+◌, ◌*◌, ◌≤◌, ◌<◌, ◌≡◌, refl, sym, ◌∙◌, min, max, arith, Bool, true, false, ◌&&◌, Option,
  none, some, List, [], ◌∷◌, leb, ◌==◌, count_rows, length, Bool-cases, inl, inr, ==_refl, ==_iff,
  All,
}
use mathlib.Core.Path.{subst}
use puppytalk_be.Db.Single.{bit}
use puppytalk_be.RateLimit.{
  Entry, evict_if_needed, find_entry, put_entry, count_call, check_memory, micros,
}
use puppytalk_be.RateLimit.Bound.{length-count_call, length-put_entry}

find_entry-put_entry :
    (k count window_end : ℕ) (entries : List Entry)
    → find_entry k (put_entry k count window_end entries) ≡ some (count, window_end)
find_entry-put_entry k count window_end [] = ground (arith, ==_refl k)
find_entry-put_entry k count window_end (e ∷ entries) =
    ground (arith, ==_refl k, find_entry-put_entry k count window_end entries)

find_other :
    (k j count window_end : ℕ) (entries : List Entry)
    → (j == k) ≡ false
    → find_entry k (put_entry j count window_end entries) ≡ find_entry k entries
find_other k j count window_end [] ne = ground (arith, ne)
find_other k j count window_end (e ∷ entries) ne =
    ground (arith, ne, find_other k j count window_end entries ne)

check-count_call :
    (max_keys now k window_sec max_count : ℕ) (entries : List Entry)
    → length entries < max_keys
    → check_memory max_keys now k window_sec max_count entries
      ≡ count_call now k window_sec max_count (find_entry k entries) entries
unfolding check_memory evict_if_needed
check-count_call max_keys now k window_sec max_count entries room = ground (arith, room)

find-count_call :
    (k j now window_sec max_count : ℕ) (found : Option (ℕ × ℕ)) (entries : List Entry)
    → (j == k) ≡ false
    → find_entry k (count_call now j window_sec max_count found entries).1 ≡ find_entry k entries
find-count_call k j now window_sec max_count none entries ne = find_other k j 1 _ entries ne
find-count_call k j now window_sec max_count (some (count, window_end)) entries ne =
    elim (Bool-cases (leb window_end now)) [
      | inl over ↦ rw over (find_other k j 1 (now + window_sec * micros) entries ne)
      | inr within ↦ rw within (find_other k j (count + 1) window_end entries ne)
    ]

-- A call now opens a window: the key has no entry, or its window has ended.
abbrev pub is_closed : ℕ → Option (ℕ × ℕ) → Bool
is_closed now none = true
is_closed now (some (count, window_end)) = leb window_end now

opening :
    (now k window_sec max_count : ℕ) (found : Option (ℕ × ℕ)) (entries : List Entry)
    → is_closed now found ≡ true
    → count_call now k window_sec max_count found entries
      ≡ ((true, 0), put_entry k 1 (now + window_sec * micros) entries)
opening now k window_sec max_count none entries closed = refl
opening now k window_sec max_count (some (c, e)) entries closed = rw closed refl

module _ (max_keys window_sec max_count k : ℕ) where
  -- Calls as (key, time); how many on `k` are allowed, and how many there are.
  pub times_allowed : List (ℕ × ℕ) → List Entry → ℕ
  times_allowed [] entries = 0
  times_allowed ((j, now) ∷ calls) entries =
      let (r, entries') = check_memory max_keys now j window_sec max_count entries in
      bit (j == k && r.0) + times_allowed calls entries'

  abbrev pub calls_on : List (ℕ × ℕ) → ℕ
  calls_on calls = count_rows (λ (call : ℕ × ℕ). call.0 == k) calls

  -- A call on `k` inside the window of its entry.
  call_within :
      (now c e : ℕ) (entries : List Entry)
      → now < e
      → ((count_call now k window_sec max_count (some (c, e)) entries).0.0 ≡ leb (c + 1) max_count)
        × ((count_call now k window_sec max_count (some (c, e)) entries).1
            ≡ put_entry k (c + 1) e entries)
  call_within now c e entries h = ground (arith, h)

  own_call :
      (now c e : ℕ) (entries : List Entry)
      → find_entry k entries ≡ some (c, e)
      → now < e
      → length entries < max_keys
      → let x = check_memory max_keys now k window_sec max_count entries in
        (x.0.0 ≡ leb (c + 1) max_count) × (x.1 ≡ put_entry k (c + 1) e entries)
  own_call now c e entries found h room =
      rw (check-count_call max_keys now k window_sec max_count entries room, found)
        (call_within now c e entries h)

  other_call :
      (j now : ℕ) (entries : List Entry)
      → (j == k) ≡ false
      → length entries < max_keys
      → let x = check_memory max_keys now j window_sec max_count entries in
        (find_entry k x.1 ≡ find_entry k entries) × (length x.1 ≤ length entries + 1)
  other_call j now entries ne room =
      rw (check-count_call max_keys now j window_sec max_count entries room) (
        find-count_call k j now window_sec max_count (find_entry j entries) entries ne,
        length-count_call now j window_sec max_count (find_entry j entries) entries,
      )

  length-put_own :
      (c e c' e' : ℕ) (entries : List Entry)
      → find_entry k entries ≡ some (c, e)
      → length (put_entry k c' e' entries) ≡ length entries
  length-put_own c e c' e' [] found = cc
  length-put_own c e c' e' (x ∷ entries) found = elim (Bool-cases (x.key == k)) [
    | inl here ↦ rw here refl
    | inr later ↦ rw later (ground (arith, length-put_own c e c' e' entries (rw later at found)))
  ]

  window_counts :
      (calls : List (ℕ × ℕ)) (entries : List Entry) (c e : ℕ)
      → find_entry k entries ≡ some (c, e)
      → All (λ (call : ℕ × ℕ). call.1 < e) calls
      → length entries + length calls ≤ max_keys
      → times_allowed calls entries + min c max_count ≡ min (c + calls_on calls) max_count
  unfolding times_allowed
  window_counts [] entries c e found h room = omega arith
  window_counts ((j, now) ∷ calls) entries c e found h room = elim (Bool-cases (j == k)) [
    | inl same ↦
        let own = own_call now c e entries found h.0 (omega (arith, room)) in
        let kept = put_entry k (c + 1) e entries in
        let rest =
          window_counts calls kept (c + 1) e (find_entry-put_entry k (c + 1) e entries) h.1
            (omega (arith, room, length-put_own c e (c + 1) e entries found)) in
        rw ((==_iff j k).0 same) (
          ground (
            arith,
            own.0,
            ==_refl k,
            subst
                (λ (es : List Entry).
                  times_allowed calls es + min (c + 1) max_count
                  ≡ min (c + 1 + calls_on calls) max_count)
                (sym own.1) rest,
          ))
    | inr other ↦
        let others = other_call j now entries other (omega (arith, room)) in
        let kept = (check_memory max_keys now j window_sec max_count entries).1 in
        let rest =
          window_counts calls kept c e (others.0 ∙ found) h.1 (omega (arith, room, others.1)) in
        rw other (ground (arith, rest))
  ]

  -- When a call on a key opens a window, being the first on it or the first after its last window, then
  -- of the calls on the key before the window's end, that one included, the limit's number is allowed,
  -- and one when the limit is zero. Calls on other keys may come between; the store has room for all.
  pub memory_window_exact :
      (now : ℕ) (calls : List (ℕ × ℕ)) (entries : List Entry)
      → is_closed now (find_entry k entries) ≡ true
      → All (λ (call : ℕ × ℕ). call.1 < now + window_sec * micros) calls
      → length entries + length calls < max_keys
      → times_allowed ((k, now) ∷ calls) entries ≡ min (1 + calls_on calls) (max 1 max_count)
  unfolding times_allowed
  memory_window_exact now calls entries closed h room =
      let e = now + window_sec * micros in
      let kept = put_entry k 1 e entries in
      let opens =
        check-count_call max_keys now k window_sec max_count entries (omega (arith, room))
        ∙ opening now k window_sec max_count (find_entry k entries) entries closed in
      let rest =
        window_counts calls kept 1 e (find_entry-put_entry k 1 e entries) h
          (omega (arith, room, length-put_entry k 1 e entries)) in
      rw opens (ground (arith, rest, ==_refl k))
