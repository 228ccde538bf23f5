-- ===== src/Ids/Loops.antt =====
-- The encoding and the decoding loop of app/core/ids.py, and the whitespace of `strip`.
use native.Mathlib.Nat.{pow-suc}
use mathlib.Core.List.{reverse-append, reverse-reverse}
use puppytalk_be.Base.{
  ℕ, zero, suc, ◌+◌, ◌*◌, ◌/◌, ◌%◌, ◌^◌, ◌≤◌, ◌<◌, ◌≡◌, ◌≢◌, refl, ap, ◌∙◌, true, false, List, [],
  ◌∷◌, ◌++◌, reverse, arith, length, ◌==◌, All, Bool-cases, inl, inr,
}
use puppytalk_be.Ids.{base62_char, base62_digits, base62_value, is_space, lstrip, strip}
use puppytalk_be.Ids.Digits.{index-char, is_space-char}

value-step :
    (m r : ℕ) (s : List ℕ)
    → r < 62
    → m * 62 + r < 2 ^ 128
    → base62_value m (base62_char r ∷ s) ≡ base62_value (m * 62 + r) s
unfolding base62_value
value-step m r s h lt = ground (arith, index-char r h)

-- Decoding the digits that the encoding loop puts before `out` has the number's value at `out`.
pub value-digits :
    (fuel n : ℕ) (out : List ℕ)
    → n ≤ fuel
    → n < 2 ^ 128
    → base62_value 0 (base62_digits fuel n out) ≡ base62_value n out
unfolding base62_digits
value-digits zero n out h lt = ap (λ k. base62_value k out) (omega arith)
value-digits (suc fuel) n out h lt = elim (Bool-cases (n == 0)) [
  | inl done ↦ rw done (ap (λ k. base62_value k out) (ground arith))
  | inr more ↦ rw more (
      value-digits fuel (n / 62) (base62_char (n % 62) ∷ out) (ground arith) (omega arith)
      ∙ value-step (n / 62) (n % 62) out (omega arith) (omega arith)
      ∙ ap (λ k. base62_value k out) (omega arith))
]

pub NoSpace-digits :
    (fuel n : ℕ) (out : List ℕ)
    → All (λ c. is_space c ≡ false) out
    → All (λ c. is_space c ≡ false) (base62_digits fuel n out)
unfolding base62_digits
NoSpace-digits zero n out h = h
NoSpace-digits (suc fuel) n out h = elim (Bool-cases (n == 0)) [
  | inl done ↦ rw done h
  | inr more ↦ rw more (
      NoSpace-digits fuel (n / 62) (base62_char (n % 62) ∷ out)
        (is_space-char (n % 62) (omega arith), h))
]

-- `k` digits are enough for a number below 62^k.
pub length-digits :
    (fuel n k : ℕ) (out : List ℕ) → n < 62 ^ k → length (base62_digits fuel n out) ≤ k + length out
unfolding base62_digits
length-digits zero n k out h = omega arith
length-digits (suc fuel) n zero out h = let e : (n == 0) ≡ true = ground arith in rw e (omega arith)
length-digits (suc fuel) n (suc k) out h = elim (Bool-cases (n == 0)) [
  | inl done ↦ rw done (omega arith)
  | inr more ↦ rw more (
      omega (
        arith,
        length-digits fuel (n / 62) k (base62_char (n % 62) ∷ out) (omega (arith, pow-suc 62 k)),
      ))
]

pub digits-ne-nil : (fuel n : ℕ) (out : List ℕ) → out ≢ [] → base62_digits fuel n out ≢ []
unfolding base62_digits
digits-ne-nil zero n out h = h
digits-ne-nil (suc fuel) n out h = elim (Bool-cases (n == 0)) [
  | inl done ↦ rw done h
  | inr more ↦ rw more (digits-ne-nil fuel (n / 62) (base62_char (n % 62) ∷ out) (λ e. cc))
]

lstrip-id : (s : List ℕ) → All (λ c. is_space c ≡ false) s → lstrip s ≡ s
unfolding lstrip
lstrip-id [] h = refl
lstrip-id (c ∷ s) h = rw (h.0)

All-snoc {ℓ κ} :
    {A : Type ℓ} (P : A → Type κ) (x : A) → P x → (xs : List A) → All P xs → All P (xs ++ (x ∷ []))
All-snoc P x last [] h = (last, tt)
All-snoc P x last (y ∷ xs) h = (h.0, All-snoc P x last xs h.1)

All-reverse {ℓ κ} : {A : Type ℓ} (P : A → Type κ) (xs : List A) → All P xs → All P (reverse xs)
All-reverse P [] h = tt
All-reverse P (x ∷ xs) h =
    rw (reverse-append (x ∷ []) xs) (All-snoc P x h.0 (reverse xs) (All-reverse P xs h.1))

-- A text without whitespace is its own `strip()`.
pub strip-id : (s : List ℕ) → All (λ c. is_space c ≡ false) s → strip s ≡ s
unfolding strip
strip-id s h =
    rw (lstrip-id s h) (rw (lstrip-id (reverse s) (All-reverse _ s h)) (reverse-reverse s))
