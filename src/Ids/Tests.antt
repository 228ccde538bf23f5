-- ===== src/Ids/Tests.antt =====
-- Runs of app/core/ids.py at single inputs, and the theorems at inputs that meet their hypotheses.
use puppytalk_be.Base.{
  ℕ, ◌^◌, ◌-◌, ◌<◌, ◌≡◌, ◌≢◌, ◌↔◌, some, refl, Option, none, List, [], arith, ok, err,
}
use puppytalk_be.Ids.{
  codes, strip, IdError, base62_to_uuid, uuid_to_base62, parse_public_id_value, jwt_sub_to_uuid,
  PublicIdInput,
}
use puppytalk_be.Ids.Decoding.{positional}
use puppytalk_be.Ids.RoundTrip.{
  IsUuidParser, base62_to_uuid-uuid_to_base62, base62_to_uuid_exact, public_id_roundtrip,
}

encode_3843 : uuid_to_base62 3843 ≡ codes "zz"
unfolding uuid_to_base62
encode_3843 = refl

decode_padded : base62_to_uuid (codes " 0zz ") ≡ ok 3843
unfolding base62_to_uuid
decode_padded = refl

decode_overflow : base62_to_uuid (codes "zzzzzzzzzzzzzzzzzzzzzz") ≡ err IdError.base62_overflow
unfolding base62_to_uuid
decode_overflow = refl

decode_dash : base62_to_uuid (codes "a-b") ≡ err IdError.invalid_base62_char
unfolding base62_to_uuid
decode_dash = refl

abbrev refuse_all : List ℕ → Option ℕ
refuse_all s = none

refuse_all-IsUuidParser : IsUuidParser refuse_all
refuse_all-IsUuidParser = record { refuses_short = λ s h. refl }

base62_to_uuid-uuid_to_base62_example :
    base62_to_uuid (uuid_to_base62 (2 ^ 128 - 1)) ≡ ok (2 ^ 128 - 1)
base62_to_uuid-uuid_to_base62_example = base62_to_uuid-uuid_to_base62 (2 ^ 128 - 1) (omega arith)

public_id_roundtrip_example :
    (parse_public_id_value refuse_all (PublicIdInput.text (uuid_to_base62 77)) ≡ ok 77)
    × (jwt_sub_to_uuid refuse_all (uuid_to_base62 77) ≡ ok 77)
public_id_roundtrip_example =
    public_id_roundtrip refuse_all refuse_all-IsUuidParser 77 (omega arith)

base62_to_uuid_exact_example : (base62_to_uuid (codes " 0zz ") ≡ ok 3843) ↔ (
    (strip (codes " 0zz ") ≢ [])
    × (positional 0 (strip (codes " 0zz ")) ≡ some 3843)
    × (3843 < 2 ^ 128))
base62_to_uuid_exact_example = base62_to_uuid_exact (codes " 0zz ") 3843
