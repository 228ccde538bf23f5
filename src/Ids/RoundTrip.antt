-- ===== src/Ids/RoundTrip.antt =====
-- The functions of app/core/ids.py from end to end: what is encoded is decoded to itself.
use puppytalk_be.Base.{
  ℕ, zero, suc, ◌/◌, ◌%◌, ◌^◌, ◌≤◌, ◌<◌, ◌≡◌, ◌≢◌, refl, ◌∙◌, false, Option, none, some, List, [],
  ◌∷◌, arith, length, ◌==◌, All, ok, ◌↔◌, Result,
}
use puppytalk_be.Ids.{
  IdError, base62_char, base62_digits, base62_value, is_space, strip, uuid_to_base62,
  base62_to_uuid, uuid_or_base62, unless_empty, jwt_sub_to_uuid, parse_public_id_value,
  PublicIdInput,
}
use puppytalk_be.Ids.Digits.{index-char, is_space-char}
use puppytalk_be.Ids.Loops.{value-digits, NoSpace-digits, length-digits, strip-id, digits-ne-nil}
use puppytalk_be.Ids.Decoding.{positional, base62_value_exact}

-- A non-empty list, taken apart.
ne_nil-cons : (s : List ℕ) → s ≢ [] → (c : ℕ) × (r : List ℕ) × (s ≡ c ∷ r)
ne_nil-cons [] h = absurd (h refl)
ne_nil-cons (c ∷ r) h = (c, r, refl)

digits_ne_nil : (n : ℕ) → 0 < n → base62_digits n n [] ≢ []
unfolding base62_digits
digits_ne_nil zero h = absurd (omega arith)
digits_ne_nil (suc n) h =
    let e : (suc n == 0) ≡ false = ground arith in
    rw e (digits-ne-nil n (suc n / 62) (base62_char (suc n % 62) ∷ []) (λ q. cc))

value_zero : base62_value 0 (base62_char 0 ∷ []) ≡ ok 0
unfolding base62_value
value_zero = ground (arith, index-char 0 (omega arith))

value_end : (n : ℕ) → base62_value n [] ≡ ok n
unfolding base62_value
value_end n = refl

uuid_to_base62-suc : (u : ℕ) → uuid_to_base62 (suc u) ≡ base62_digits (suc u) (suc u) []
unfolding uuid_to_base62
uuid_to_base62-suc u = let e : (suc u == 0) ≡ false = ground arith in rw e

-- An encoding is one character or more, at most 22, none of them whitespace, and the decoding loop
-- takes it to the number.
record IsEncoding (u : ℕ) (s : List ℕ) : Type 0 where
  occupied : s ≢ []
  compact : length s ≤ 22
  printable : All (λ c. is_space c ≡ false) s
  decodes : base62_value 0 s ≡ ok u

encoding : (u : ℕ) → u < 2 ^ 128 → IsEncoding u (uuid_to_base62 u)
unfolding uuid_to_base62
encoding zero lt = record {
  occupied = λ e. cc;
  compact = omega arith;
  printable = (is_space-char 0 (omega arith), tt);
  decodes = value_zero;
}
encoding (suc u) lt = rw (uuid_to_base62-suc u) (record {
  occupied = digits_ne_nil (suc u) (omega arith);
  compact = omega (arith, length-digits (suc u) (suc u) 22 [] (omega arith));
  printable = NoSpace-digits (suc u) (suc u) [] tt;
  decodes = value-digits (suc u) (suc u) [] (omega arith) lt ∙ value_end (suc u);
})

unless_empty-occupied :
    {s : List ℕ} (e : IdError) (k : List ℕ → Result IdError ℕ) → s ≢ [] → unless_empty e k s ≡ k s
unless_empty-occupied {s} e k h = let (c, r, shape) = ne_nil-cons s h in rw shape

-- Decoding undoes encoding on every 128-bit number.
pub base62_to_uuid-uuid_to_base62 : (u : ℕ) → u < 2 ^ 128 → base62_to_uuid (uuid_to_base62 u) ≡ ok u
unfolding base62_to_uuid
base62_to_uuid-uuid_to_base62 u lt =
    let e = encoding u lt in
    rw (strip-id (uuid_to_base62 u) e.printable)
      (unless_empty-occupied _ (base62_value 0) e.occupied ∙ e.decodes)

stripped_exact :
    (v : ℕ) (t : List ℕ)
    → (unless_empty IdError.empty_base62 (base62_value 0) t ≡ ok v)
      ↔ ((t ≢ []) × (positional 0 t ≡ some v) × (v < 2 ^ 128))
stripped_exact v [] = (λ h. cc, λ h. absurd (h.0 refl))
stripped_exact v (c ∷ r) = (
  λ h. let p = (base62_value_exact v (c ∷ r)).0 h in (λ e. cc, p.0, p.1),
  λ h. (base62_value_exact v (c ∷ r)).1 (h.1, h.2),
)

-- Decoding succeeds exactly on the texts that, without the whitespace around them, are not empty and
-- stand for a number below 2^128 in positional notation, and returns that number.
pub base62_to_uuid_exact :
    (s : List ℕ) (v : ℕ)
    → (base62_to_uuid s ≡ ok v)
      ↔ ((strip s ≢ []) × (positional 0 (strip s) ≡ some v) × (v < 2 ^ 128))
unfolding base62_to_uuid
base62_to_uuid_exact s v = stripped_exact v (strip s)

-- What the code relies on of `UUID(text)`: it refuses a text of fewer than 32 characters, since it
-- wants 32 hexadecimal digits.
pub record IsUuidParser (parse_uuid : List ℕ → Option ℕ) : Type 0 where
  pub refuses_short : (s : List ℕ) → length s < 32 → parse_uuid s ≡ none

module _ (parse_uuid : List ℕ → Option ℕ) (parser : IsUuidParser parse_uuid) where
  refused-decodes :
      {s : List ℕ} {u : ℕ}
      → parse_uuid s ≡ none
      → base62_to_uuid s ≡ ok u
      → uuid_or_base62 parse_uuid s ≡ ok u
  unfolding uuid_or_base62
  refused-decodes refused back = rw (refused, uuid_or_base62) back

  -- A 128-bit public id that the program printed is read back as the same entity, in a request and in
  -- the `sub` of a token, for a UUID parser that refuses texts of fewer than 32 characters.
  pub public_id_roundtrip :
      (u : ℕ)
      → u < 2 ^ 128
      → (parse_public_id_value parse_uuid (PublicIdInput.text (uuid_to_base62 u)) ≡ ok u)
        × (jwt_sub_to_uuid parse_uuid (uuid_to_base62 u) ≡ ok u)
  unfolding parse_public_id_value jwt_sub_to_uuid
  public_id_roundtrip u lt =
      let e = encoding u lt in
      let read =
        refused-decodes (parser.refuses_short (uuid_to_base62 u) (omega (arith, e.compact)))
          (base62_to_uuid-uuid_to_base62 u lt) in
      let strips = strip-id (uuid_to_base62 u) e.printable in
      (
        rw strips (unless_empty-occupied _ (uuid_or_base62 parse_uuid) e.occupied ∙ read),
        rw strips (unless_empty-occupied _ (uuid_or_base62 parse_uuid) e.occupied ∙ read),
      )
