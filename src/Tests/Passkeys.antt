-- ===== src/Tests/Passkeys.antt =====
-- An attestation object_bytes whose hash of the relying party is 32 times 9, and whose test of a point takes
-- every point.
use azeroth_core_web.Base.{
  ℕ, zero, suc, ◌≡◌, refl, true, [], ◌∷◌, ◌++◌, Text, codes, text_eq, List, contains, trim_space,
  trim_left, is_space, lower,
}
use azeroth_core_web.Base.Words.{to_int64}
use azeroth_core_web.Db.{ok}
use azeroth_core_web.Cbor.{
  decode_cbor, read_value, read_length, read_body, put, same_key, big_endian,
}
use azeroth_core_web.Passkeys.{
  PasskeyCredential, parse_none_attestation, attested, auth_data_of, parse_auth_data, credential_of,
  es256_key, coordinates, slice, bytes_of, is_int, is_text, item_at, clean_transports, clean_from,
  add_transport,
}
use azeroth_core_web.Passkeys.Attested.{IsAttested, parse_none_attestation-IsAttested}
use azeroth_core_web.Passkeys.Transports.{IsClean, clean_transports-IsClean}

abbrev times : ℕ → ℕ → Text
times zero c = []
times (suc n) c = c ∷ times n c

abbrev key_bytes : Text
key_bytes =
    (165 ∷ 1 ∷ 2 ∷ 3 ∷ 38 ∷ 32 ∷ 1 ∷ 33 ∷ 88 ∷ 32 ∷ [])
    ++ times 32 5
    ++ (34 ∷ 88 ∷ 32 ∷ [])
    ++ times 32 6

abbrev auth_bytes : Text
auth_bytes =
    times 32 9
    ++ (69 ∷ 0 ∷ 0 ∷ 0 ∷ 7 ∷ [])
    ++ times 16 0
    ++ (0 ∷ 16 ∷ [])
    ++ times 16 8
    ++ key_bytes

abbrev object_bytes : Text
object_bytes =
    (162 ∷ 99 ∷ [])
    ++ codes "fmt"
    ++ (100 ∷ [])
    ++ codes "none"
    ++ (104 ∷ [])
    ++ codes "authData"
    ++ (88 ∷ 148 ∷ [])
    ++ auth_bytes

abbrev credential : PasskeyCredential
credential = record { id = times 16 8; x = times 32 5; y = times 32 6; sign_count = 7 }

object_accepted : parse_none_attestation (times 32 9) (λ x y. true) object_bytes ≡ ok credential
unfolding parse_none_attestation attested auth_data_of parse_auth_data credential_of es256_key
    coordinates slice bytes_of is_int is_text item_at decode_cbor read_value read_length read_body
    put same_key big_endian to_int64 text_eq
object_accepted = refl

parse_none_attestation-IsAttested_example :
    IsAttested (times 32 9) (λ x y. true) credential object_bytes
parse_none_attestation-IsAttested_example =
    parse_none_attestation-IsAttested (times 32 9) (λ x y. true) object_bytes credential
      object_accepted

-- Two of the five are the same but for their case and white space, and one is unknown.
abbrev listed : List Text
listed = codes "USB" ∷ codes " usb" ∷ codes "smartcard" ∷ codes "internal" ∷ codes "nfc" ∷ []

listed_cleaned : clean_transports listed ≡ codes "usb" ∷ codes "internal" ∷ codes "nfc" ∷ []
unfolding clean_transports clean_from add_transport contains text_eq trim_space trim_left is_space
    lower
listed_cleaned = refl

clean_transports-IsClean_example :
    IsClean (clean_transports listed)
    × (clean_transports (clean_transports listed) ≡ clean_transports listed)
clean_transports-IsClean_example = clean_transports-IsClean listed
