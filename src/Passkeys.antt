-- ===== src/Passkeys.antt =====
-- internal/web/passkeys.go: the attestation of a new passkey and the transports that are kept with
-- it. The hash of the relying party and the test of a point on the curve P-256 are arguments. A map
-- of the source without the key gives nil, which no test below passes.
pub mod Entries
pub mod Slices
pub mod Attested
pub mod Transports
use Prim.Native.Nat.{bit_and}
use azeroth_core_web.Base.{
  ℕ, ◌+◌, ◌-◌, ◌&&◌, ◌||◌, not, Bool, true, false, Option, none, some, List, [], ◌∷◌, Text, codes,
  text_eq, ◌==◌, ltb, leb, if◌then◌else◌, length, take, drop, contains, trim_space, to_lower, ◌++◌,
}
use azeroth_core_web.Base.Int.{ℤ, pos, negsuc}
use azeroth_core_web.Db.{Result, ok, err}
use azeroth_core_web.Cbor.{Value, Pairs, CborError, same_key, big_endian, decode_cbor}

pub data PasskeyError : Type 0 where
  unsupported_attestation invalid_authenticator_data invalid_credential_id only_es256
        invalid_es256_key :
      PasskeyError

-- What `parseNoneAttestation` returns.
pub record PasskeyCredential : Type 0 where
  pub id : Text
  pub x : Text
  pub y : Text
  pub sign_count : ℕ

-- `items[key]`
unfoldable pub item_at : Value → Pairs → Option Value
item_at key Pairs.no_pairs = none
item_at key (Pairs.pair_then k v pairs) = if same_key k key then some v else item_at key pairs

-- `value == int64(n)` and `value == "..."`
unfoldable pub is_int : ℤ → Option Value → Bool
unfolding same_key
is_int n (some (Value.int m)) = same_key (Value.int m) (Value.int n)
is_int n _ = false

unfoldable pub is_text : Text → Option Value → Bool
is_text t (some (Value.text s)) = text_eq s t
is_text t _ = false

-- `value.([]byte)`
unfoldable pub bytes_of : Option Value → Option Text
bytes_of (some (Value.bytes s)) = some s
bytes_of _ = none

-- `data[start:end]`, for start and end within the data
unfoldable pub slice : ℕ → ℕ → Text → Text
slice start end s = take (end - start) (drop start s)

module _ (rp_hash : Text) (is_on_curve : Text → Text → Bool) where
  unfoldable pub coordinates : Option Text → Option Text → Result PasskeyError (Text × Text)
  coordinates (some x) (some y) =
      if not (length x == 32) || not (length y == 32) || not (is_on_curve x y)
      then err PasskeyError.invalid_es256_key
      else ok (x, y)
  coordinates _ _ = err PasskeyError.invalid_es256_key

  unfoldable pub es256_key : Result CborError (Value × ℕ) → Result PasskeyError (Text × Text)
  es256_key (ok (Value.table key, _)) =
      if not (is_int (pos 2) (item_at (Value.int (pos 1)) key))
        || not (is_int (negsuc 6) (item_at (Value.int (pos 3)) key))
        || not (is_int (pos 1) (item_at (Value.int (negsuc 0)) key))
      then err PasskeyError.only_es256
      else coordinates (bytes_of (item_at (Value.int (negsuc 1)) key))
          (bytes_of (item_at (Value.int (negsuc 2)) key))
  es256_key _ = err PasskeyError.only_es256

  unfoldable pub credential_of :
      Text → ℕ → Result PasskeyError (Text × Text) → Result PasskeyError PasskeyCredential
  credential_of id count (ok (x, y)) = ok record { id = id; x = x; y = y; sign_count = count }
  credential_of id count (err e) = err e

  -- The authenticator data: its hash, its flags (user present, user verified and attested data), its
  -- counter, and the credential.
  unfoldable pub parse_auth_data : Text → Result PasskeyError PasskeyCredential
  parse_auth_data auth =
      let size = big_endian 0 (slice 53 55 auth) in
      if ltb (length auth) 55
        || not (text_eq (slice 0 32 auth) rp_hash)
        || not (bit_and (big_endian 0 (slice 32 33 auth)) 69 == 69)
      then err PasskeyError.invalid_authenticator_data
      else if ltb size 16 || ltb 1024 size || leb (length auth) (55 + size)
      then err PasskeyError.invalid_credential_id
      else credential_of (slice 55 (55 + size) auth) (big_endian 0 (slice 33 37 auth))
          (es256_key (decode_cbor (drop (55 + size) auth)))

  unfoldable pub auth_data_of : Option Text → Result PasskeyError PasskeyCredential
  auth_data_of (some auth) = parse_auth_data auth
  auth_data_of none = err PasskeyError.invalid_authenticator_data

  unfoldable pub attested : Result CborError (Value × ℕ) → Result PasskeyError PasskeyCredential
  attested (ok (Value.table object, _)) =
      if is_text (codes "none") (item_at (Value.text (codes "fmt")) object)
      then auth_data_of (bytes_of (item_at (Value.text (codes "authData")) object))
      else err PasskeyError.unsupported_attestation
  attested _ = err PasskeyError.unsupported_attestation

  -- `parseNoneAttestation`
  unfoldable pub parse_none_attestation : Text → Result PasskeyError PasskeyCredential
  parse_none_attestation object = attested (decode_cbor object)

abbrev pub transports : List Text
transports = codes "usb" ∷ codes "nfc" ∷ codes "ble" ∷ codes "internal" ∷ codes "hybrid" ∷ []

-- One round of `cleanTransports`: what was kept is what was seen.
unfoldable pub add_transport : List Text → Text → List Text
add_transport out value =
    if contains transports value && not (contains out value) then out ++ value ∷ [] else out

unfoldable pub clean_from : List Text → List Text → List Text
unfolding add_transport
clean_from out [] = out
clean_from out (value ∷ values) =
    clean_from (add_transport out (to_lower (trim_space value))) values

-- `cleanTransports`
unfoldable pub clean_transports : List Text → List Text
unfolding clean_from
clean_transports values = clean_from [] values
