-- ===== src/RateLimit/Tests.antt =====
-- Runs of app/core/rate_limit.py on small stores, and the theorems at such inputs.
use puppytalk_be.Base.{
  ℕ, ◌+◌, ◌≤◌, ◌≡◌, refl, min, max, arith, Bool, true, false, List, [], ◌∷◌, length, map,
}
use puppytalk_be.RateLimit.{Entry, check_memory, check_fixed_window, RedisAnswer, Gate, gate_check}
use puppytalk_be.RateLimit.Bound.{memory_store_bounded}
use puppytalk_be.RateLimit.Window.{times_allowed, calls_on, memory_window_exact}
use puppytalk_be.RateLimit.Gates.{run_checks, AllRejected, gate_blocks}

abbrev two_entries : List Entry
two_entries =
    record { key = 7; count = 3; window_end = 9000000 }
    ∷ record { key = 8; count = 1; window_end = 5000000 }
    ∷ []

third_call : (check_memory 10 4000000 7 60 3 two_entries).0 ≡ (false, 5)
unfolding check_memory
third_call = refl

-- The store is full: the entry that ends first goes.
eviction : map (λ e. e.key) (check_memory 2 4000000 9 60 3 two_entries).1 ≡ 7 ∷ 9 ∷ []
unfolding check_memory
eviction = refl

fails_open :
    (check_fixed_window RedisAnswer.failed true 10 4000000 7 60 3 two_entries).0 ≡ (true, 0)
unfolding check_fixed_window
fails_open = refl

memory_store_bounded_example : length (check_memory 2 4000000 9 60 3 two_entries).1 ≤ 2
memory_store_bounded_example = memory_store_bounded 2 4000000 9 60 3 two_entries (omega arith)

abbrev calls : List (ℕ × ℕ)
calls = (7, 9500000) ∷ (8, 9600000) ∷ (7, 9700000) ∷ (7, 9800000) ∷ []

memory_window_exact_example :
    times_allowed 10 60 3 7 ((7, 9000000) ∷ calls) two_entries
    ≡ min (1 + calls_on 10 60 3 7 calls) (max 1 3)
memory_window_exact_example =
    memory_window_exact 10 60 3 7 9000000 calls two_entries refl
      (omega arith, (omega arith, (omega arith, (omega arith, tt)))) (omega arith)

abbrev gate : Gate
gate = record { close_threshold = 2; blocked_until = 0; consecutive_rejections = 0 }

abbrev later_checks : List (ℕ × Bool × ℕ)
later_checks = (2000000, true, 0) ∷ (3500000, false, 9) ∷ []

gate_blocks_example :
    AllRejected 2 (0 + 2) (run_checks later_checks (gate_check (λ u. (false, 3)) 1000000 gate).1).0
gate_blocks_example =
    gate_blocks (λ u. (false, 3)) later_checks 1000000 3 gate refl refl
      (omega arith, (omega arith, tt))
