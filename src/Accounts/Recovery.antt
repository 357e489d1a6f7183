-- ===== src/Accounts/Recovery.antt =====
-- internal/web/security.go: recovery codes, each of which stands in for the authenticator once.
use azeroth_core_web.Base.{
  ℕ, ◌+◌, ◌/◌, ◌%◌, ◌&&◌, not, Bool, false, Option, none, some, List, [], ◌∷◌, ◌++◌, map, Text,
  text_eq, ◌==◌, ltb, if◌then◌else◌, length, take, drop, keep_if, count_if, delete_if, trim_space,
  to_upper,
}
use azeroth_core_web.Db.{Exec, exec, update_or, pure, ◌>>=◌, ◌>>◌}
use azeroth_core_web.Accounts.{Accounts, RecoveryCode, Crypto}

-- `normalizeRecoveryCode`
unfoldable pub normalize_recovery_code : Text → Text
normalize_recovery_code code = to_upper (keep_if (λ c. not (c == 45)) (trim_space code))

-- `recoveryCodeHash`
unfoldable pub recovery_code_hash : Crypto → Text → Text
recovery_code_hash lib code = lib.sha256 (normalize_recovery_code code)

-- One digit of `hex.EncodeToString`, in lower case
abbrev pub hex_digit : ℕ → ℕ
hex_digit n = if ltb n 10 then 48 + n else 87 + n

unfoldable pub hex_encode : Text → Text
hex_encode [] = []
hex_encode (b ∷ bs) = hex_digit (b / 16) ∷ hex_digit (b % 16) ∷ hex_encode bs

-- Four groups of four digits.
unfoldable pub grouped : Text → Text
grouped value =
    take 4 value
    ++ 45 ∷ (take 4 (drop 4 value) ++ 45 ∷ (take 4 (drop 8 value) ++ 45 ∷ drop 12 value))

-- `generateRecoveryCodes`, from 8 random bytes for each code: the codes and their hashes
unfoldable pub generate_recovery_codes : Crypto → List Text → List Text × List Text
generate_recovery_codes lib raws =
    let codes = map (λ raw. grouped (to_upper (hex_encode raw))) raws in
    (codes, map (recovery_code_hash lib) codes)

abbrev pub is_code : ℕ → Text → RecoveryCode → Bool
is_code account hash x = (x.account == account) && text_eq x.code_hash hash

abbrev pub drop_code : ℕ → Text → Accounts → Accounts
drop_code account hash s = record s { codes = delete_if (is_code account hash) s.codes }

-- `consumeRecoveryCode`: a failed statement reads as a wrong code.
unfoldable pub consume_recovery_code : {E : Type 0} → Crypto → ℕ → Text → Exec Accounts E Bool
consume_recovery_code lib account code =
    if length (normalize_recovery_code code) == 16
    then (do
      rows ←
          update_or 0 (λ s. count_if (is_code account (recovery_code_hash lib code)) s.codes)
            (drop_code account (recovery_code_hash lib code))
      pure (rows == 1))
    else pure false

-- `INSERT INTO portal_totp_recovery_codes`: the account and the hash are the primary key.
unfoldable pub insert_code : ℕ → Text → Accounts → Option (Unit {0} × Accounts)
insert_code account hash s =
    if ltb 0 (count_if (is_code account hash) s.codes)
    then none
    else some
        (tt, record s { codes = s.codes ++ record { account = account; code_hash = hash } ∷ [] })

unfoldable pub insert_codes : {E : Type 0} → E → ℕ → List Text → Exec Accounts E Unit
insert_codes e account [] = pure tt
insert_codes e account (hash ∷ hashes) =
    exec e (insert_code account hash) >> insert_codes e account hashes
