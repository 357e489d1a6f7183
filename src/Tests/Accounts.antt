-- ===== src/Tests/Accounts.antt =====
-- An account with an authenticator, a session, a recovery code and a pending reset, under stand-ins for
-- the libraries.
use azeroth_core_web.Base.{
  ℕ, ◌≡◌, ◌≢◌, ◌↔◌, refl, some, none, true, false, [], ◌∷◌, ◌++◌, Text, codes, find_if, count_if,
  arith, update_if, delete_if, text_eq, trim_space, trim_left, is_space, upper, has_prefix, keep_if,
}
use azeroth_core_web.Db.{
  Conn, ok, transaction, ◌>>=◌, pure, lift, exec, update, query, stop_if, attempt,
}
use azeroth_core_web.Db.Atomic.{AllOrNothing}
use azeroth_core_web.Accounts.{Accounts, Crypto}
use azeroth_core_web.Accounts.Srp.{
  little_int, little_bytes, verify, registration, validate, all_bytes,
}
use azeroth_core_web.Accounts.Verify.{verify_exact, little_int-little_bytes}
use azeroth_core_web.Accounts.Totp.{encrypt_totp, decrypt_totp, valid_totp, code_of}
use azeroth_core_web.Accounts.Window.{
  IsReversible, InWindow, decrypt_totp-encrypt_totp, valid_totp_exact,
}
use azeroth_core_web.Accounts.Recovery.{normalize_recovery_code, recovery_code_hash}
use azeroth_core_web.Accounts.Sessions.{auth, account_of}
use azeroth_core_web.Accounts.Security.{
  security_totp_enable, security_totp_disable, is_enabled, secret_of, disable_body, is_current,
  spend_code,
}
use azeroth_core_web.Accounts.Guarded.{
  IsEnabled, IsDisabled, security_totp_enable-AllOrNothing, security_totp_disable-AllOrNothing,
}
use azeroth_core_web.Accounts.Password.{security_password}
use azeroth_core_web.Accounts.Reset.{password_reset_confirm, confirm_body, reset_account}
use azeroth_core_web.Accounts.Renewed.{
  IsChanged, security_password-AllOrNothing, reset_key, password_reset_confirm-once,
}
use azeroth_core_web.Wallet.Payments.{NoTwice}

abbrev twelve : Text
twelve = 1 ∷ 2 ∷ 3 ∷ 4 ∷ 5 ∷ 6 ∷ 7 ∷ 8 ∷ 9 ∷ 10 ∷ 11 ∷ 12 ∷ []

abbrev thirty_two : Text
thirty_two = twelve ++ (twelve ++ (1 ∷ 2 ∷ 3 ∷ 4 ∷ 5 ∷ 6 ∷ 7 ∷ 8 ∷ []))

-- A sealed text is the text, and every hash is its argument.
abbrev lib : Crypto
lib = record {
  sha1 = λ s. s;
  sha256 = λ s. s;
  hmac_sha1 = λ key message. twelve ++ (1 ∷ 2 ∷ 3 ∷ 4 ∷ 5 ∷ 6 ∷ 7 ∷ 8 ∷ []);
  seal = λ key nonce plain aad. plain;
  open_sealed = λ key nonce sealed aad. some sealed;
  base64_encode = λ s. s;
  base64_decode = λ s. some s;
  base32_encode = λ s. s;
  base32_decode = λ s. some (codes "KEY");
  hex_decode = λ s. some s;
  exp_mod = λ base exponent modulus. exponent;
}

lib-IsReversible : IsReversible lib
lib-IsReversible = record { opens = λ key nonce plain aad. refl; decodes = λ s. refl }

verify_exact_example :
    ((verify lib (codes "Anna") (codes "PassWord") (codes "salt") thirty_two ≡ true) ↔ (
      registration lib (codes "anna") (codes "password") (codes "salt")
      ≡ (codes "salt", thirty_two)))
unfolding upper
verify_exact_example =
    verify_exact lib (codes "anna") (codes "password") (codes "Anna") (codes "PassWord")
      (codes "salt") thirty_two refl refl

little_int-little_bytes_example : little_int (little_bytes 70000 4) ≡ 70000
little_int-little_bytes_example = little_int-little_bytes 4 70000 (omega arith)

decrypt_totp-encrypt_totp_example :
    (stored : Text) × (encrypt_totp lib thirty_two (some twelve) (codes "JBSWY3DP") ≡ some stored)
    × (decrypt_totp lib thirty_two stored ≡ some (codes "JBSWY3DP"))
decrypt_totp-encrypt_totp_example =
    decrypt_totp-encrypt_totp lib thirty_two twelve (codes "JBSWY3DP") lib-IsReversible refl refl

valid_totp_exact_example :
    ((valid_totp lib (codes "JBSWY3DP") (codes "123456") 59 ≡ true) ↔ (
      (counter : ℕ) × InWindow 59 counter × (code_of lib (codes "KEY") counter ≡ codes "123456")))
valid_totp_exact_example =
    valid_totp_exact lib (codes "JBSWY3DP") (codes "KEY") (codes "123456") 59 refl refl
      (omega arith) (omega arith)

abbrev tables : Accounts
tables = record {
  credentials =
      record {
        id = 7;
        username = codes "ANNA";
        email = codes "ANNA@EXAMPLE.ORG";
        salt = codes "salt";
        verifier = thirty_two;
        locked = false;
        banned = false;
      }
      ∷ [];
  securities =
      record { account = 7; totp_secret = some (codes "JBSWY3DP"); totp_enabled = true } ∷ [];
  codes = record { account = 7; code_hash = codes "0123456789ABCDEF" } ∷ [];
  sessions =
      record { token_hash = codes "cookie"; account = 7; expires_at = 9000; step_up_until = none }
      ∷ [];
  resets = record { token_hash = thirty_two; account = 7; expires_at = 5000 } ∷ [];
  forced = [];
  verifications = [];
  audits = [];
}

abbrev conn : Conn Accounts
conn = record { tables = tables; fault = λ _. false; tick = 0 }

security_totp_enable-AllOrNothing_example :
    AllOrNothing tables
      (IsEnabled lib thirty_two 1000
        (some (codes "cookie"))
        (codes "123456")
        (some (twelve ∷ []))
        tables)
      (security_totp_enable lib thirty_two 1000
        (some (codes "cookie"))
        (codes "123456")
        (some (twelve ∷ []))
        conn)
security_totp_enable-AllOrNothing_example =
    security_totp_enable-AllOrNothing lib thirty_two 1000 (some (codes "cookie")) (codes "123456")
      (some (twelve ∷ [])) conn

security_totp_disable-AllOrNothing_example :
    AllOrNothing tables
      (λ _ t.
        IsDisabled lib thirty_two 1000
          (some (codes "cookie"))
          (codes "0123-4567-89ab-cdef")
          tables
          t)
      (security_totp_disable lib thirty_two 1000
        (some (codes "cookie"))
        (codes "0123-4567-89ab-cdef")
        conn)
security_totp_disable-AllOrNothing_example =
    security_totp_disable-AllOrNothing lib thirty_two 1000 (some (codes "cookie"))
      (codes "0123-4567-89ab-cdef") conn

security_password-AllOrNothing_example :
    AllOrNothing tables
      (λ _ t.
        IsChanged lib 1000 (some (codes "cookie")) (codes "password") (codes "passw0rd") tables t)
      (security_password lib 1000
        (some (codes "cookie"))
        (codes "password")
        (codes "passw0rd")
        (some (codes "salt2"))
        conn)
security_password-AllOrNothing_example =
    security_password-AllOrNothing lib 1000 (some (codes "cookie")) (codes "password")
      (codes "passw0rd") (some (codes "salt2")) conn

NoTwice-at_start : NoTwice reset_key tables.resets
unfolding count_if
NoTwice-at_start hash = ground arith

reset_accepted :
    (password_reset_confirm lib 1000 thirty_two (codes "passw0rd") (some (codes "salt2")) conn).0
    ≡ ok tt
unfolding transaction ◌>>=◌ pure lift exec update query stop_if find_if update_if delete_if text_eq
    password_reset_confirm confirm_body reset_account validate all_bytes
reset_accepted = refl

-- The same connection, after the reset.
abbrev after_reset : Conn Accounts
after_reset =
    (password_reset_confirm lib 1000 thirty_two (codes "passw0rd") (some (codes "salt2")) conn).1

password_reset_confirm-once_example :
    (password_reset_confirm lib 2000 thirty_two
      (codes "passw1rd")
      (some (codes "salt3"))
      after_reset).0
    ≢ ok tt
password_reset_confirm-once_example =
    password_reset_confirm-once lib 1000 2000 thirty_two (codes "passw0rd") (codes "passw1rd")
      (some (codes "salt2")) (some (codes "salt3")) conn after_reset NoTwice-at_start reset_accepted
      refl

-- A recovery code, written in groups and in lower case, disables the authenticator.
disable_accepted :
    (security_totp_disable lib thirty_two 1000
      (some (codes "cookie"))
      (codes "0123-4567-89ab-cdef")
      conn).0
    ≡ ok tt
unfolding transaction ◌>>=◌ pure lift exec update query stop_if attempt find_if count_if update_if
    delete_if keep_if text_eq security_totp_disable auth account_of is_enabled secret_of
    disable_body is_current decrypt_totp valid_totp has_prefix normalize_recovery_code
    recovery_code_hash spend_code trim_space trim_left is_space upper
disable_accepted = refl
