-- ===== src/Ids/Decoding.antt =====
-- The decoding loop of app/core/ids.py against positional notation.
use puppytalk_be.Base.{
  ℕ, ◌+◌, ◌*◌, ◌^◌, ◌≤◌, ◌<◌, ◌≡◌, Option, none, some, List, [], ◌∷◌, arith, Option-cases, inl, inr,
  ok, ◌↔◌,
}
use puppytalk_be.Ids.{base62_index, base62_value}

-- The number that a text stands for in base 62 behind a prefix of value `n`, if each character is
-- a digit.
abbrev pub positional : ℕ → List ℕ → Option ℕ
positional n [] = some n
positional n (ch ∷ s) = elim (base62_index ch) [
  | none ↦ none
  | some idx ↦ positional (n * 62 + idx) s
]

positional-ge : (n v : ℕ) (s : List ℕ) → positional n s ≡ some v → n ≤ v
positional-ge n v [] h = ground arith
positional-ge n v (ch ∷ s) h = elim (Option-cases (base62_index ch)) [
  | inl bad ↦ ground arith
  | inr (idx, e) ↦ ground (arith, positional-ge (n * 62 + idx) v s)
]

value_sound :
    (n v : ℕ) (s : List ℕ)
    → n < 2 ^ 128
    → base62_value n s ≡ ok v
    → (positional n s ≡ some v) × (v < 2 ^ 128)
unfolding base62_value
value_sound n v [] lt h = ground arith
value_sound n v (ch ∷ s) lt h = elim (Option-cases (base62_index ch)) [
  | inl bad ↦ ground arith
  | inr (idx, e) ↦ ground (arith, value_sound (n * 62 + idx) v s)
]

value_complete :
    (n v : ℕ) (s : List ℕ) → positional n s ≡ some v → v < 2 ^ 128 → base62_value n s ≡ ok v
unfolding base62_value
value_complete n v [] h lt = ground arith
value_complete n v (ch ∷ s) h lt = elim (Option-cases (base62_index ch)) [
  | inl bad ↦ ground arith
  | inr (idx, e) ↦
      ground (arith, value_complete (n * 62 + idx) v s, positional-ge (n * 62 + idx) v s)
]

-- The loop, which stops at the first prefix of 2^128 or more, accepts exactly the texts whose whole
-- value is below 2^128, and returns that value.
pub base62_value_exact :
    (v : ℕ) (s : List ℕ) → (base62_value 0 s ≡ ok v) ↔ ((positional 0 s ≡ some v) × (v < 2 ^ 128))
base62_value_exact v s = (λ h. value_sound 0 v s (omega arith) h, λ h. value_complete 0 v s h.0 h.1)
