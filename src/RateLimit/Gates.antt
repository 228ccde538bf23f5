-- ===== src/RateLimit/Gates.antt =====
-- `LocalRejectionGate`: app/core/rate_limit.py.
use mathlib.Core.Path.{subst}
use puppytalk_be.Base.{
  ℕ, ◌+◌, ◌*◌, ◌<◌, ◌≡◌, refl, max, arith, Bool, true, false, List, [], ◌∷◌, All, leb, ltb, lt→ltb,
}
use puppytalk_be.RateLimit.{Gate, gate_check, micros}

-- The answers of a gate to checks one after another, each with its time and the shared limit's answer.
abbrev pub run_checks : List (ℕ × Bool × ℕ) → Gate → List (Bool × ℕ × Bool) × Gate
run_checks [] g = ([], g)
run_checks ((now, allowed, retry_after) ∷ checks) g =
    let (answer, g') = gate_check (λ u. (allowed, retry_after)) now g in
    let (answers, last) = run_checks checks g' in (answer ∷ answers, last)

-- Rejections, the first of which is the `n`-th in a row.
abbrev pub AllRejected : ℕ → ℕ → List (Bool × ℕ × Bool) → Type 0
AllRejected threshold n [] = Unit
AllRejected threshold n ((allowed, retry_after, close) ∷ answers) =
    (allowed ≡ false) × (close ≡ leb threshold n) × AllRejected threshold (n + 1) answers

abbrev pub IsBefore : ℕ → ℕ × Bool × ℕ → Type 0
IsBefore end (now, allowed, retry_after) = now < end

blocked_run :
    (checks : List (ℕ × Bool × ℕ)) (end n : ℕ) (g : Gate)
    → All (IsBefore end) checks
    → end ≡ g.blocked_until
    → n ≡ g.consecutive_rejections
    → AllRejected g.close_threshold (n + 1) (run_checks checks g).0
unfolding gate_check
blocked_run [] end n g soon e c = tt
blocked_run ((now, allowed, retry_after) ∷ checks) end n g soon e c =
    let blocked : ltb now g.blocked_until ≡ true =
      lt→ltb now g.blocked_until (omega (arith, soon.0, e)) in
    rw (blocked, c)
      (
        refl,
        refl,
        blocked_run checks end (g.consecutive_rejections + 1)
            (record g { consecutive_rejections = g.consecutive_rejections + 1 }) soon.1 e refl,
      )

-- When the shared limit rejects a check of a gate that does not block, every check before the time it
-- names, and at least for a second, is rejected, whatever the shared limit would answer and however
-- many they are, and tells to close as soon as the rejections in a row reach the threshold.
pub gate_blocks :
    (first : Unit {0} → Bool × ℕ) (checks : List (ℕ × Bool × ℕ)) (now retry_after : ℕ) (g : Gate)
    → ltb now g.blocked_until ≡ false
    → first tt ≡ (false, retry_after)
    → All (IsBefore (now + max retry_after 1 * micros)) checks
    → AllRejected g.close_threshold
        (g.consecutive_rejections + 2)
        (run_checks checks (gate_check first now g).1).0
unfolding gate_check
gate_blocks first checks now retry_after g unblocked rejected soon =
    let end : ℕ = now + max retry_after 1 * micros in
    let closed : Gate = record g {
      blocked_until = max g.blocked_until end;
      consecutive_rejections = g.consecutive_rejections + 1;
    } in
    rw (unblocked, rejected)
      (subst (λ n. AllRejected g.close_threshold n (run_checks checks closed).0) (omega arith)
        (blocked_run checks end (g.consecutive_rejections + 1) closed soon
          (ground (arith, unblocked)) refl))
