-- ===== src/Ids.antt =====
-- Public identifiers: app/core/ids.py. A UUID is its 128-bit integer (`UUID.int`), and a text is
-- the list of its code points.
pub mod Digits
pub mod Loops
pub mod Decoding
pub mod RoundTrip
mod Tests
use Prim.Native.Char.{code}
use Prim.Native.String
use puppytalk_be.Base.{
  ℕ, zero, suc, ◌+◌, ◌*◌, ◌/◌, ◌%◌, ◌^◌, String, Bool, true, false, ◌&&◌, ◌||◌, Option, none, some,
  List, [], ◌∷◌, reverse, get_elem?, Result, ok, err, ltb, leb, ◌==◌, if◌then◌else◌, is_none,
}

-- The code points of a text.
abbrev pub codes : String → List ℕ
codes String.[] = []
codes (String.◌∷◌ c s) = code c ∷ codes s

-- The argument of each `raise ValueError(...)`.
pub data IdError : Type 0 where
  empty_base62 invalid_base62_char base62_overflow empty_sub public_id_type public_id_empty :
      IdError

-- `_BASE62`
pub base62_alphabet : List ℕ
base62_alphabet = codes "0123456789ABCDEFGHIJKLMNOPQRSTUVWXYZabcdefghijklmnopqrstuvwxyz"

-- The position of a character in a table: `{c: i for i, c in enumerate(table)}.get(ch)`, for a table
-- without repetition.
pub position : ℕ → ℕ → List ℕ → Option ℕ
position i ch [] = none
position i ch (c ∷ table) = if c == ch then some i else position (suc i) ch table

-- `_BASE62_INDEX.get(ch)`
pub base62_index : ℕ → Option ℕ
unfolding position base62_alphabet
base62_index ch = position 0 ch base62_alphabet

-- `_BASE62[r]`; the loop takes it at a remainder by 62 only.
pub base62_char : ℕ → ℕ
unfolding base62_alphabet
base62_char r = elim (get_elem? base62_alphabet r) [ none ↦ 0 | some c ↦ c ]

-- `while n: n, r = divmod(n, 62); out.append(_BASE62[r])`, with `out` kept in the reversed order in
-- which it is joined at the end.
pub base62_digits : ℕ → ℕ → List ℕ → List ℕ
base62_digits zero n out = out
base62_digits (suc fuel) n out =
    let rest = base62_digits fuel (n / 62) (base62_char (n % 62) ∷ out) in
    if n == 0 then out else rest

-- The fuel `n` is enough: each round divides `n` by 62.
pub uuid_to_base62 : ℕ → List ℕ
unfolding base62_digits base62_char
uuid_to_base62 n = if n == 0 then base62_char 0 ∷ [] else base62_digits n n []

-- The characters that `str.strip()` removes.
pub is_space : ℕ → Bool
is_space c =
    (leb 9 c && leb c 13)
    || (leb 28 c && leb c 32)
    || c == 0x85
    || c == 0xa0
    || c == 0x1680
    || (leb 0x2000 c && leb c 0x200a)
    || c == 0x2028
    || c == 0x2029
    || c == 0x202f
    || c == 0x205f
    || c == 0x3000

pub lstrip : List ℕ → List ℕ
lstrip [] = []
lstrip (c ∷ s) = if is_space c then lstrip s else c ∷ s

-- `s.strip()`
pub strip : List ℕ → List ℕ
unfolding lstrip is_space
strip s = reverse (lstrip (reverse (lstrip s)))

-- The loop of `base62_to_uuid`; `n.bit_length() > 128` says that `n` is at least 2^128.
pub base62_value : ℕ → List ℕ → Result IdError ℕ
base62_value n [] = ok n
base62_value n (ch ∷ s) = elim (base62_index ch) [
  | none ↦ err IdError.invalid_base62_char
  | some idx ↦
      let m = n * 62 + idx in
      let rest = base62_value m s in if leb (2 ^ 128) m then err IdError.base62_overflow else rest
]

-- `if not s: raise ValueError(e)`, and the rest of the function otherwise.
abbrev pub unless_empty : IdError → (List ℕ → Result IdError ℕ) → List ℕ → Result IdError ℕ
unless_empty e k [] = err e
unless_empty e k (c ∷ s) = k (c ∷ s)

unfoldable pub base62_to_uuid : List ℕ → Result IdError ℕ
unfolding base62_value base62_index strip
base62_to_uuid s = unless_empty IdError.empty_base62 (base62_value 0) (strip s)

-- A value that a field of a request or of an ORM row may hold.
pub data PublicIdInput : Type 0 where
  uuid : ℕ → PublicIdInput
  text : List ℕ → PublicIdInput
  other : PublicIdInput

-- `UUID(text)` of the standard library is the argument `parse_uuid`: `none` is its ValueError.
module _ (parse_uuid : List ℕ → Option ℕ) where
  -- `try: return UUID(s) except ValueError: pass; return base62_to_uuid(s)`
  pub uuid_or_base62 : List ℕ → Result IdError ℕ
  uuid_or_base62 s = elim (parse_uuid s) [ some u ↦ ok u | none ↦ base62_to_uuid s ]

  unfoldable pub jwt_sub_to_uuid : List ℕ → Result IdError ℕ
  unfolding uuid_or_base62 strip
  jwt_sub_to_uuid sub = unless_empty IdError.empty_sub uuid_or_base62 (strip sub)

  pub parse_public_id_value : PublicIdInput → Result IdError ℕ
  unfolding uuid_or_base62 strip
  parse_public_id_value (PublicIdInput.uuid u) = ok u
  parse_public_id_value PublicIdInput.other = err IdError.public_id_type
  parse_public_id_value (PublicIdInput.text v) =
      unless_empty IdError.public_id_empty uuid_or_base62 (strip v)

  pub parse_optional_public_id_value : Option PublicIdInput → Result IdError (Option ℕ)
  unfolding parse_public_id_value
  parse_optional_public_id_value none = ok none
  parse_optional_public_id_value (some v) = elim (parse_public_id_value v) [
    | ok u ↦ ok (some u)
    | err e ↦ err e
  ]
