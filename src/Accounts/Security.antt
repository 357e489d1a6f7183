-- ===== src/Accounts/Security.antt =====
-- internal/web/security.go: the handlers of an account's second factor, its confirmation of a session,
-- its password and its sessions. The link for the authenticator app is left out of the response.
use azeroth_core_web.Base.{
  ℕ, not, Bool, true, false, Option, none, some, List, [], ◌∷◌, ◌++◌, Text, ◌==◌, ltb,
  if◌then◌else◌, length, find_if, count_if, update_if, delete_if,
}
use azeroth_core_web.Http.{Problem, problem, or_problem}
use azeroth_core_web.Db.{
  Exec, update, query, query_or, transaction, stop_if, pure, lift, ◌>>=◌, ◌>>◌,
}
use azeroth_core_web.Accounts.{Accounts, AccountSecurity, RecoveryCode, Crypto}
use azeroth_core_web.Accounts.Totp.{encrypt_totp, decrypt_totp, valid_totp}
use azeroth_core_web.Accounts.Recovery.{
  normalize_recovery_code, recovery_code_hash, generate_recovery_codes, is_code, drop_code,
  insert_codes,
}
use azeroth_core_web.Accounts.Sessions.{auth}

abbrev pub of_account : ℕ → AccountSecurity → Bool
of_account account x = x.account == account

abbrev pub text_or_empty : Option Text → Text
text_or_empty none = []
text_or_empty (some s) = s

-- `SELECT totp_secret ...`: NULL is read as no bytes.
unfoldable pub secret_of : ℕ → Accounts → Option Text
secret_of account s = elim (find_if (of_account account) s.securities) [
  | none ↦ none
  | some x ↦ some (text_or_empty x.totp_secret)
]

-- `SELECT totp_enabled ...`, false where there is no row
unfoldable pub is_enabled : ℕ → Accounts → Bool
is_enabled account s = elim (find_if (of_account account) s.securities) [
  | none ↦ false
  | some x ↦ x.totp_enabled
]

-- `INSERT INTO portal_account_security ... ON DUPLICATE KEY UPDATE`
unfoldable pub save_secret : ℕ → Text → Accounts → Accounts
save_secret account secret s = record s {
  securities =
      if ltb 0 (count_if (of_account account) s.securities)
      then update_if (of_account account)
          (λ x. record x { totp_secret = some secret; totp_enabled = false }) s.securities
      else s.securities
        ++ record { account = account; totp_secret = some secret; totp_enabled = false } ∷ [];
}

-- `securityTOTPSetup`, from the random bytes of the secret and of the nonce: the secret
unfoldable pub security_totp_setup :
    Crypto → Text → ℕ → Option Text → Option Text → Option Text → Exec Accounts Problem Text
security_totp_setup lib key now cookie raw nonce = do
  a ← auth lib now cookie
  enabled ← query_or false (is_enabled a.id)
  stop_if enabled (problem 409 "Disable the current authenticator before enrolling a new one")
  stop_if (not (length key == 32))
      (problem 503 "Authenticator enrollment requires TOTP_ENCRYPTION_KEY")
  bytes ← lift (or_problem raw (problem 500 "Could not generate secret"))
  encrypted ← lift (
      or_problem (encrypt_totp lib key nonce (lib.base32_encode bytes))
        (problem 500 "Could not save authenticator setup"))
  update (problem 500 "Could not save authenticator setup") (λ _. tt {0})
      (save_secret a.id encrypted)
  pure (lib.base32_encode bytes)

abbrev pub matches : Crypto → Text → ℕ → Option Text → Bool
matches lib code now none = false
matches lib code now (some secret) = valid_totp lib secret code now

-- `decryptTOTP` and `validTOTP` of a stored secret
unfoldable pub is_current : Crypto → Text → ℕ → Text → Text → Bool
is_current lib key now stored code = matches lib code now (decrypt_totp lib key stored)

abbrev pub owned_code : ℕ → RecoveryCode → Bool
owned_code account x = x.account == account

abbrev pub drop_codes : ℕ → Accounts → Accounts
drop_codes account s = record s { codes = delete_if (owned_code account) s.codes }

abbrev pub set_enabled : ℕ → Accounts → Accounts
set_enabled account s = record s {
  securities = update_if (of_account account) (λ x. record x { totp_enabled = true }) s.securities;
}

unfoldable pub enable_body : ℕ → List Text → Exec Accounts Problem Unit
enable_body account hashes = do
  update (problem 500 "Could not enable authenticator") (λ _. tt {0}) (set_enabled account)
  update (problem 500 "Could not enable authenticator") (λ _. tt {0}) (drop_codes account)
  insert_codes (problem 500 "Could not enable authenticator") account hashes

-- `securityTOTPEnable`, from the random bytes of ten codes: the recovery codes
unfoldable pub security_totp_enable :
    Crypto → Text → ℕ → Option Text → Text → Option (List Text) → Exec Accounts Problem (List Text)
security_totp_enable lib key now cookie code raws = do
  a ← auth lib now cookie
  stored ← query (problem 422 "Invalid authenticator code") (secret_of a.id)
  stop_if (not (is_current lib key now stored code)) (problem 422 "Invalid authenticator code")
  random ← lift (or_problem raws (problem 500 "Could not generate recovery codes"))
  transaction (problem 503 "Database unavailable") (problem 500 "Could not enable authenticator")
      (enable_body a.id (generate_recovery_codes lib random).1)
  pure (generate_recovery_codes lib random).0

abbrev pub clear_secret : ℕ → Accounts → Accounts
clear_secret account s = record s {
  securities =
      update_if (of_account account) (λ x. record x { totp_secret = none; totp_enabled = false })
        s.securities;
}

-- A recovery code in place of the authenticator's.
unfoldable pub spend_code : Crypto → ℕ → Text → Exec Accounts Problem Unit
spend_code lib account code = do
  stop_if (not (length (normalize_recovery_code code) == 16))
      (problem 422 "Invalid authenticator or recovery code")
  rows ←
      update (problem 422 "Invalid authenticator or recovery code")
        (λ s.
          count_if (is_code account (recovery_code_hash lib (normalize_recovery_code code)))
            s.codes)
        (drop_code account (recovery_code_hash lib (normalize_recovery_code code)))
  stop_if (not (rows == 1)) (problem 422 "Invalid authenticator or recovery code")

unfoldable pub disable_body : Crypto → ℕ → Bool → Text → Exec Accounts Problem Unit
disable_body lib account totp_valid code = do
  if totp_valid then pure tt else spend_code lib account code
  update (problem 500 "Could not disable authenticator") (λ _. tt {0}) (clear_secret account)
  update (problem 500 "Could not disable authenticator") (λ _. tt {0}) (drop_codes account)

-- `securityTOTPDisable`
unfoldable pub security_totp_disable :
    Crypto → Text → ℕ → Option Text → Text → Exec Accounts Problem Unit
security_totp_disable lib key now cookie code = do
  a ← auth lib now cookie
  stored ←
      query (problem 422 "Invalid authenticator or recovery code")
        (λ s. if is_enabled a.id s then secret_of a.id s else none)
  transaction (problem 503 "Database unavailable") (problem 500 "Could not disable authenticator")
      (disable_body lib a.id (is_current lib key now stored code) code)
