-- ===== src/Tests/Cbor.antt =====
-- The array [1, "a"] in CBOR, with a byte behind it.
use azeroth_core_web.Base.{◌≤◌, ◌≡◌, refl, [], ◌∷◌, ◌++◌, Text, length, take}
use azeroth_core_web.Base.Int.{pos}
use azeroth_core_web.Base.Words.{to_int64}
use azeroth_core_web.Db.{ok}
use azeroth_core_web.Cbor.{Value, Values, decode_cbor, read_value, read_length, read_body}
use azeroth_core_web.Cbor.Reads.{decode_cbor-prefix}

abbrev sample : Text
sample = 130 ∷ 1 ∷ 97 ∷ 97 ∷ 255 ∷ []

abbrev value : Value
value = Value.array (
    Values.value_then (Value.int (pos 1))
      (Values.value_then (Value.text (97 ∷ [])) Values.no_values))

sample_decoded : decode_cbor sample ≡ ok (value, 4)
unfolding decode_cbor read_value read_length read_body to_int64
sample_decoded = refl

decode_cbor-prefix_example :
    (4 ≤ length sample) × (decode_cbor (take 4 sample ++ 7 ∷ []) ≡ ok (value, 4))
decode_cbor-prefix_example = decode_cbor-prefix sample value 4 (7 ∷ []) sample_decoded
