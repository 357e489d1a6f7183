-- ===== src/Accounts/Totp.antt =====
-- internal/web/security.go: the secret of an authenticator, encrypted and decrypted, and its codes.
use azeroth_core_web.Base.{
  ℕ, zero, suc, ◌+◌, ◌-◌, ◌*◌, ◌/◌, ◌%◌, ◌^◌, ◌||◌, Bool, false, Option, none, some, [], ◌∷◌, ◌++◌,
  Text, text_eq, ◌==◌, ltb, if◌then◌else◌, length, take, drop, get_elem?, has_prefix, trim_prefix,
  trim_space, to_upper, decimal, codes,
}
use azeroth_core_web.Base.Words.{u64_mod}
use azeroth_core_web.Accounts.{Crypto}

abbrev pub totp_aad : Text
totp_aad = codes "azeroth-portal:totp:v1"

-- `gcm.NonceSize()` of `cipher.NewGCM`
abbrev pub nonce_size : ℕ
nonce_size = 12

-- `encryptTOTP`, from the nonce, which `rand.Read` may fail to give. A key of 32 bytes is one that
-- `aes.NewCipher` takes.
unfoldable pub encrypt_totp : Crypto → Text → Option Text → Text → Option Text
encrypt_totp lib key none secret = none
encrypt_totp lib key (some nonce) secret =
    if length key == 32
    then some (codes "v1:" ++ lib.base64_encode (nonce ++ lib.seal key nonce secret totp_aad))
    else none

unfoldable pub open_payload : Crypto → Text → Option Text → Option Text
open_payload lib key none = none
open_payload lib key (some payload) =
    if ltb (length payload) nonce_size
    then none
    else lib.open_sealed key (take nonce_size payload) (drop nonce_size payload) totp_aad

-- `decryptTOTP`: a value without the prefix is an old one, in the clear.
unfoldable pub decrypt_totp : Crypto → Text → Text → Option Text
decrypt_totp lib key stored =
    if has_prefix stored (codes "v1:")
    then (if length key == 32
        then open_payload lib key (lib.base64_decode (trim_prefix stored (codes "v1:")))
        else none)
    else some stored

-- `binary.BigEndian.PutUint64`
unfoldable pub big_endian : ℕ → ℕ → Text → Text
big_endian zero n bytes = bytes
big_endian (suc size) n bytes = big_endian size (n / 256) ((n % 256) ∷ bytes)

-- `sum[i]`; the index is within a sum of 20 bytes, as those of HMAC-SHA-1 are.
abbrev pub byte_at : Text → ℕ → ℕ
byte_at sum i = elim (get_elem? sum i) [ none ↦ 0 | some b ↦ b ]

-- The 31 bits that the last byte of a sum points at.
unfoldable pub truncate : Text → ℕ
truncate sum =
    let i = byte_at sum (length sum - 1) % 16 in
    byte_at sum i % 128 * 2 ^ 24
    + byte_at sum (i + 1) * 2 ^ 16
    + byte_at sum (i + 2) * 2 ^ 8
    + byte_at sum (i + 3)

abbrev pub zeros : ℕ → Text
zeros zero = []
zeros (suc n) = 48 ∷ zeros n

-- `fmt.Sprintf("%06d", n)`
unfoldable pub decimal6 : ℕ → Text
decimal6 n = let digits = decimal n in zeros (6 - length digits) ++ digits

-- The code of a counter under a key.
unfoldable pub code_of : Crypto → Text → ℕ → Text
code_of lib raw counter =
    decimal6 (truncate (lib.hmac_sha1 raw (big_endian 8 counter [])) % 1000000)

-- The loop over the offsets -1, 0 and 1, here the numbers 0, 1 and 2 less 1; `steps` is the time in
-- periods of 30 seconds. A counter is a uint64.
unfoldable pub offset_loop : Crypto → Text → Text → ℕ → ℕ → ℕ → Bool
offset_loop lib raw code steps offset zero = false
offset_loop lib raw code steps offset (suc rounds) =
    text_eq (code_of lib raw ((steps + offset + (u64_mod - 1)) % u64_mod)) code
    || offset_loop lib raw code steps (suc offset) rounds

abbrev pub try_key : Crypto → Text → ℕ → Option Text → Bool
try_key lib code now none = false
try_key lib code now (some raw) =
    if length code == 6 then offset_loop lib raw code (now / 30) 0 3 else false

-- `validTOTP`
unfoldable pub valid_totp : Crypto → Text → Text → ℕ → Bool
valid_totp lib secret code now =
    try_key lib code now (lib.base32_decode (to_upper (trim_space secret)))
