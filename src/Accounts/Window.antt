-- ===== src/Accounts/Window.antt =====
-- internal/web/security.go: an encrypted secret is read back, and which codes are valid at a time.
use azeroth_core_web.Base.{
  ℕ, ◌+◌, ◌-◌, ◌/◌, ◌%◌, ◌<◌, ◌≤◌, ◌≡◌, ◌↔◌, refl, sym, Bool, true, false, ◌||◌, some, ◌++◌, Text,
  text_eq, text_eq→eq, text_eq_refl, ◌==◌, ==→eq, ltb, length, take, drop, has_prefix, trim_prefix,
  trim_space, to_upper, codes, arith, Bool-cases, inl, inr, take-append, drop-append, length-append,
}
use azeroth_core_web.Base.Words.{u64_mod}
use azeroth_core_web.Accounts.{Crypto}
use azeroth_core_web.Accounts.Totp.{
  totp_aad, nonce_size, encrypt_totp, decrypt_totp, open_payload, code_of, offset_loop, valid_totp,
}

-- What AES-GCM and base64 document: opening undoes sealing under the same key, nonce and data, and
-- decoding undoes encoding.
pub record IsReversible (lib : Crypto) : Type 0 where
  pub opens :
      (key nonce plain aad : Text)
      → lib.open_sealed key nonce (lib.seal key nonce plain aad) aad ≡ some plain
  pub decodes : (s : Text) → lib.base64_decode (lib.base64_encode s) ≡ some s

trim_version : (s : Text) → trim_prefix (codes "v1:" ++ s) (codes "v1:") ≡ s
unfolding trim_prefix has_prefix
trim_version s = refl

has_version : (s : Text) → has_prefix (codes "v1:" ++ s) (codes "v1:") ≡ true
unfolding has_prefix
has_version s = refl

open_payload-seal :
    (lib : Crypto) (key nonce secret : Text)
    → IsReversible lib
    → length nonce ≡ nonce_size
    → open_payload lib key (some (nonce ++ lib.seal key nonce secret totp_aad)) ≡ some secret
unfolding open_payload
open_payload-seal lib key nonce secret laws size =
    let box = lib.seal key nonce secret totp_aad in
    let head : take nonce_size (nonce ++ box) ≡ nonce = rw (sym size) (take-append nonce box) in
    let tail : drop nonce_size (nonce ++ box) ≡ box = rw (sym size) (drop-append nonce box) in
    let enough : ltb (length (nonce ++ box)) nonce_size ≡ false =
      ground (arith, length-append nonce box, size) in
    rw (enough, head, tail) (laws.opens key nonce secret totp_aad)

-- A secret that was encrypted is decrypted to itself, with a key of 32 bytes and a nonce of 12, where
-- AES-GCM and base64 are reversible.
pub decrypt_totp-encrypt_totp :
    (lib : Crypto) (key nonce secret : Text)
    → IsReversible lib
    → length key ≡ 32
    → length nonce ≡ nonce_size
    → (stored : Text) × (encrypt_totp lib key (some nonce) secret ≡ some stored)
      × (decrypt_totp lib key stored ≡ some secret)
unfolding encrypt_totp decrypt_totp
decrypt_totp-encrypt_totp lib key nonce secret laws long_key long_nonce =
    let sealed = lib.base64_encode (nonce ++ lib.seal key nonce secret totp_aad) in
    let long : (length key == 32) ≡ true = ground (arith, long_key) in
    (
      codes "v1:" ++ sealed,
      rw long refl,
      rw (has_version sealed, long, trim_version sealed, laws.decodes _)
          (open_payload-seal lib key nonce secret laws long_nonce),
    )

-- A counter that the loop tries: the period of the time, the one before or the one after.
abbrev pub InWindow : ℕ → ℕ → Type 0
InWindow now counter = (now / 30 ≤ counter + 1) × (counter ≤ now / 30 + 1)

-- The three comparisons of the loop, without the wrap-around.
abbrev tried : Crypto → Text → Text → ℕ → Bool
tried lib raw code steps =
    text_eq (code_of lib raw (steps - 1)) code
    || text_eq (code_of lib raw steps) code
    || text_eq (code_of lib raw (steps + 1)) code

offset_loop-tried :
    (lib : Crypto) (raw code : Text) (steps : ℕ)
    → 1 ≤ steps
    → steps + 1 < u64_mod
    → offset_loop lib raw code steps 0 3 ≡ tried lib raw code steps
unfolding offset_loop
offset_loop-tried lib raw code steps late fits =
    let before : (steps + 0 + (u64_mod - 1)) % u64_mod ≡ steps - 1 = omega (arith, late, fits) in
    let now : (steps + 1 + (u64_mod - 1)) % u64_mod ≡ steps = omega (arith, late, fits) in
    let after : (steps + 2 + (u64_mod - 1)) % u64_mod ≡ steps + 1 = omega (arith, late, fits) in
    rw (before, now, after) (ground arith)

tried_some :
    (lib : Crypto) (raw code : Text) (steps counter : ℕ)
    → 1 ≤ steps
    → steps ≤ counter + 1
    → counter ≤ steps + 1
    → code_of lib raw counter ≡ code
    → tried lib raw code steps ≡ true
tried_some lib raw code steps counter late low high h =
    let same : text_eq (code_of lib raw counter) code ≡ true = rw h (text_eq_refl code) in
    elim (Bool-cases (counter == steps)) [
      | inl now ↦
          let at : counter ≡ steps = ==→eq counter steps now in ground (arith, rw at at same)
      | inr other ↦ elim (Bool-cases (ltb counter steps)) [
        | inl earlier ↦
            let at : counter ≡ steps - 1 = ground (arith, earlier, low) in
            ground (arith, rw at at same)
        | inr later ↦
            let at : counter ≡ steps + 1 = ground (arith, later, other, high) in
            ground (arith, rw at at same)
      ]
    ]

tried_found :
    (lib : Crypto) (raw code : Text) (steps : ℕ)
    → tried lib raw code steps ≡ true
    → (counter : ℕ) × ((steps ≤ counter + 1) × (counter ≤ steps + 1))
      × (code_of lib raw counter ≡ code)
tried_found lib raw code steps h = elim (Bool-cases (text_eq (code_of lib raw (steps - 1)) code)) [
  | inl before ↦ (steps - 1, (omega arith, omega arith), text_eq→eq _ _ before)
  | inr missed ↦ elim (Bool-cases (text_eq (code_of lib raw steps) code)) [
    | inl now ↦ (steps, (omega arith, omega arith), text_eq→eq _ _ now)
    | inr none_yet ↦ (
      steps + 1,
      (omega arith, omega arith),
      text_eq→eq _ _ (ground (arith, h, missed, none_yet)),
    )
  ]
]

-- A code of six digits is valid at a time if and only if it is the code of the period of 30 seconds in
-- which the time lies, of the one before or of the one after, for a secret in base 32 and any time from
-- 30 seconds after the epoch on that fits into 64 bits.
pub valid_totp_exact :
    (lib : Crypto) (secret raw code : Text) (now : ℕ)
    → lib.base32_decode (to_upper (trim_space secret)) ≡ some raw
    → length code ≡ 6
    → 30 ≤ now
    → now < u64_mod
    → ((valid_totp lib secret code now ≡ true)
        ↔ ((counter : ℕ) × InWindow now counter × (code_of lib raw counter ≡ code)))
unfolding valid_totp
valid_totp_exact lib secret raw code now decoded size late fits =
    let six : (length code == 6) ≡ true = ground (arith, size) in
    let begun : 1 ≤ now / 30 = omega (arith, late) in
    let loop = offset_loop-tried lib raw code (now / 30) begun (omega (arith, fits)) in
    rw (decoded, six, loop)
      (
        λ h. tried_found lib raw code (now / 30) h,
        λ (counter, (low, high), h). tried_some lib raw code (now / 30) counter begun low high h,
      )
