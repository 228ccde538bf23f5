-- ===== src/Ids/Digits.antt =====
-- The alphabet of `app/core/ids.py`, character by character, and the length of an encoding.
use puppytalk_be.Base.{
  ℕ, zero, suc, ◌<◌, ◌≡◌, refl, Bool, true, false, ◌&&◌, none, some, arith, ◌==◌, if◌then◌else◌,
}
use puppytalk_be.Ids.{base62_index, base62_char, is_space}

-- A digit is decoded to itself, and is no whitespace.
abbrev is_digit : ℕ → Bool
is_digit r = elim (base62_index (base62_char r)) [
  | none ↦ false
  | some i ↦ (i == r) && (if is_space (base62_char r) then false else true)
]

digits_hold : ℕ → Bool
digits_hold zero = true
digits_hold (suc r) = if is_digit r then digits_hold r else false

digit_at : (r n : ℕ) → r < n → digits_hold n ≡ true → is_digit r ≡ true
unfolding digits_hold
digit_at r zero lt h = absurd (omega arith)
digit_at r (suc n) lt h = ground (arith, digit_at r n)

digit_table : digits_hold 62 ≡ true
unfolding digits_hold base62_index base62_char is_space
digit_table = refl

pub index-char : (r : ℕ) → r < 62 → base62_index (base62_char r) ≡ some r
index-char r h = ground (arith, digit_at r 62 h digit_table)

pub is_space-char : (r : ℕ) → r < 62 → is_space (base62_char r) ≡ false
is_space-char r h = ground (arith, digit_at r 62 h digit_table)
