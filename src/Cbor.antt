-- ===== src/Cbor.antt =====
-- internal/web/cbor.go: the decoder for passkey attestations. The position in the data is kept as the
-- bytes that are still unread; `depth` counts down from 17, so that none is left where the source's
-- depth is over 16. A byte is a number below 256.
pub mod Reads
use azeroth_core_web.Base.{
  ℕ, zero, suc, ◌+◌, ◌-◌, ◌*◌, ◌/◌, ◌%◌, ◌^◌, ◌&&◌, ◌||◌, Bool, true, false, Option, none, some,
  List, [], ◌∷◌, ◌++◌, Text, text_eq, ◌==◌, ltb, leb, if◌then◌else◌, length, take, drop,
}
use azeroth_core_web.Base.Int.{ℤ, pos, negsuc}
use azeroth_core_web.Base.Words.{i64_limit, to_int64}
use azeroth_core_web.Db.{Result, ok, err}

mutual
  -- The decoded values; a map keeps its keys in the order of their first appearance.
  pub data Value : Type 0 where
    int : ℤ → Value
    bytes : Text → Value
    text : Text → Value
    array : Values → Value
    table : Pairs → Value
    bool : Bool → Value
    null : Value

  pub data Values : Type 0 where
    no_values : Values
    value_then : Value → Values → Values

  pub data Pairs : Type 0 where
    no_pairs : Pairs
    pair_then : Value → Value → Pairs → Pairs

pub data CborError : Type 0 where
  invalid truncated indefinite overflow invalid_string too_large unsupported_key
        unsupported_simple :
      CborError

-- What a read leaves: its result and the unread bytes.
abbrev pub Read : Type 0 → Type 0
Read A = Text → Result CborError (A × Text)

-- `binary.BigEndian`
unfoldable pub big_endian : ℕ → Text → ℕ
big_endian acc [] = acc
big_endian acc (b ∷ unread) = big_endian (acc * 256 + b) unread

read_number : ℕ → Read ℕ
read_number n unread =
    if ltb (length unread) n
    then err CborError.truncated
    else ok (big_endian 0 (take n unread), drop n unread)

-- `cborDecoder.length`
unfoldable pub read_length : ℕ → Read ℕ
unfolding read_number
read_length additional unread =
    if ltb additional 24
    then ok (additional, unread)
    else if additional == 24
    then read_number 1 unread
    else if additional == 25
    then read_number 2 unread
    else if additional == 26
    then read_number 4 unread
    else if additional == 27
    then read_number 8 unread
    else err CborError.indefinite

read_string : (Text → Value) → ℕ → Read Value
read_string wrap length' unread =
    if ltb (length unread) length' || ltb (2 ^ 20) length'
    then err CborError.invalid_string
    else ok (wrap (take length' unread), drop length' unread)

-- Go on with the unread bytes.
abbrev pub then_read :
    {A B : Type 0} → Result CborError (A × Text) → (A → Read B) → Result CborError (B × Text)
then_read (err e) k = err e
then_read (ok (a, unread)) k = k a unread

repeat_array : ℕ → Read Value → Read Values
repeat_array zero item unread = ok (no_values, unread)
repeat_array (suc n) item unread =
    then_read (item unread)
      λ v rest. then_read (repeat_array n item rest) λ vs rest'. ok (value_then v vs, rest')

-- A key is a string or an integer.
is_key : Value → Bool
is_key (int _) = true
is_key (text _) = true
is_key _ = false

unfoldable pub same_key : Value → Value → Bool
same_key (int (pos a)) (int (pos b)) = a == b
same_key (int (negsuc a)) (int (negsuc b)) = a == b
same_key (text a) (text b) = text_eq a b
same_key _ _ = false

-- `items[key] = value`
unfoldable pub put : Value → Value → Pairs → Pairs
unfolding same_key
put key v no_pairs = pair_then key v no_pairs
put key v (pair_then k w pairs) =
    let rest = put key v pairs in if same_key k key then pair_then k v pairs else pair_then k w rest

repeat_table : ℕ → Read Value → Pairs → Read Pairs
unfolding is_key
repeat_table zero item pairs unread = ok (pairs, unread)
repeat_table (suc n) item pairs unread = then_read (item unread) λ key rest.
    if is_key key
    then (then_read (item rest) λ v rest'. repeat_table n item (put key v pairs) rest')
    else err CborError.unsupported_key

read_array : ℕ → Read Value → Read Value
unfolding repeat_array
read_array length' item unread =
    if ltb 1024 length'
    then err CborError.too_large
    else then_read (repeat_array length' item unread) λ vs rest. ok (array vs, rest)

read_table : ℕ → Read Value → Read Value
unfolding repeat_table
read_table length' item unread =
    if ltb 1024 length'
    then err CborError.too_large
    else then_read (repeat_table length' item no_pairs unread) λ pairs rest. ok (table pairs, rest)

read_simple : ℕ → Read Value
read_simple additional unread =
    if additional == 20
    then ok (bool false, unread)
    else if additional == 21
    then ok (bool true, unread)
    else if (additional == 22) || (additional == 23)
    then ok (null, unread)
    else err CborError.unsupported_simple

-- `-1 - int64(length)`
negative_int : ℕ → Read Value
negative_int length' unread =
    if ltb (i64_limit - 1) length'
    then err CborError.overflow
    else ok (int (negsuc length'), unread)

-- The cases of `cborDecoder.value`, by the major type; an item is read one level deeper.
unfoldable pub read_body : Read Value → ℕ → ℕ → ℕ → Read Value
unfolding read_string read_array read_table read_simple negative_int
read_body item major additional length' unread =
    if major == 0
    then ok (int (to_int64 length'), unread)
    else if major == 1
    then negative_int length' unread
    else if major == 2
    then read_string bytes length' unread
    else if major == 3
    then read_string text length' unread
    else if major == 4
    then read_array length' item unread
    else if major == 5
    then read_table length' item unread
    else if major == 6
    then item unread
    else read_simple additional unread

-- `cborDecoder.value`
unfoldable pub read_value : ℕ → Read Value
read_value zero unread = err CborError.invalid
read_value (suc room) [] = err CborError.invalid
read_value (suc room) (initial ∷ unread) =
    then_read (read_length (initial % 32) unread)
      λ length' rest. read_body (read_value room) (initial / 32) (initial % 32) length' rest

-- `decodeCBOR`: the value and the position behind it
abbrev pub position : ℕ → Result CborError (Value × Text) → Result CborError (Value × ℕ)
position size (ok (v, rest)) = ok (v, size - length rest)
position size (err e) = err e

unfoldable pub decode_cbor : Text → Result CborError (Value × ℕ)
decode_cbor all = position (length all) (read_value 17 all)
