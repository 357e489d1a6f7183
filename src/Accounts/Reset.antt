-- ===== src/Accounts/Reset.antt =====
-- internal/web/recovery.go and email_verification.go: a lost password, a reset that staff require, and
-- the confirmation of an address. The mail server is an argument where its answer is waited for.
use azeroth_core_web.Base.{
  ℕ, ◌+◌, ◌&&◌, ◌||◌, not, Bool, false, Option, none, some, [], ◌∷◌, ◌++◌, Text, text_eq, ◌==◌, ltb,
  if◌then◌else◌, length, find_if, count_if, update_if, delete_if, trim_space, contains_any, codes,
  to_upper,
}
use azeroth_core_web.Http.{Problem, problem, or_problem}
use azeroth_core_web.Db.{
  Exec, exec, update, query, query_or, transaction, attempt, stop_if, pure, lift, ◌>>=◌, ◌>>◌,
}
use azeroth_core_web.Accounts.{
  Accounts, Credential, Crypto, PasswordReset, ForcedReset, EmailVerification,
}
use azeroth_core_web.Accounts.Srp.{validate, registration}
use azeroth_core_web.Accounts.Recovery.{hex_encode}
use azeroth_core_web.Accounts.Password.{
  with_id, set_verifier, end_sessions, owned_session, or_invalid,
}

-- `DELETE FROM portal_password_resets WHERE account_id=? OR expires_at<NOW()`
abbrev pub drop_stale : ℕ → ℕ → Accounts → Accounts
drop_stale account now s = record s {
  resets =
      delete_if (λ (x : PasswordReset). (x.account == account) || ltb x.expires_at now) s.resets;
}

-- `INSERT INTO portal_password_resets`: the hash of the token is the primary key.
unfoldable pub insert_reset : Text → ℕ → ℕ → Accounts → Option (Unit {0} × Accounts)
insert_reset hash account expires s =
    if ltb 0 (count_if (λ (x : PasswordReset). text_eq x.token_hash hash) s.resets)
    then none
    else some (
      tt,
      record s {
        resets =
            s.resets ++ record { token_hash = hash; account = account; expires_at = expires } ∷ [];
      },
    )

unfoldable pub request_body : Crypto → ℕ → ℕ → Text → Exec Accounts Problem Unit
request_body lib now account token = do
  attempt (drop_stale account now)
  exec (problem 500 "Could not create reset request")
      (insert_reset (lib.sha256 token) account (now + 3600))

abbrev pub has_email : Text → Credential → Bool
has_email email a = text_eq a.email email && not a.locked

-- The reset of a known address: the token that is mailed. An unknown one gets the same answer.
unfoldable pub send_reset :
    Crypto → ℕ → Option Text → Option Credential → Exec Accounts Problem (Option Text)
send_reset lib now random none = pure none
send_reset lib now random (some a) = do
  raw ← lift (or_problem random (problem 500 "Could not create reset request"))
  transaction (problem 503 "Database unavailable") (problem 500 "Could not create reset request")
      (request_body lib now a.id (hex_encode raw))
  pure (some (hex_encode raw))

-- `passwordResetRequest`: a failed query reads as an unknown address.
unfoldable pub password_reset_request :
    Crypto → Bool → ℕ → Text → Option Text → Exec Accounts Problem (Option Text)
password_reset_request lib mail_configured now email random = do
  stop_if (not mail_configured) (problem 503 "Password recovery is not configured")
  found ← query_or none (λ s. find_if (has_email (to_upper (trim_space email))) s.credentials)
  send_reset lib now random found

abbrev pub is_reset : Text → ℕ → PasswordReset → Bool
is_reset hash now x = text_eq x.token_hash hash && ltb now x.expires_at

-- The account that a token resets, as long as it has not expired.
unfoldable pub reset_account : Text → ℕ → Accounts → Option Credential
reset_account hash now s = elim (find_if (is_reset hash now) s.resets) [
  | none ↦ none
  | some x ↦ find_if (with_id x.account) s.credentials
]

abbrev pub drop_resets : ℕ → Accounts → Accounts
drop_resets account s = record s {
  resets = delete_if (λ (x : PasswordReset). x.account == account) s.resets;
}

abbrev pub drop_forced : ℕ → Accounts → Accounts
drop_forced account s = record s {
  forced = delete_if (λ (x : ForcedReset). x.account == account) s.forced;
}

unfoldable pub confirm_body : Crypto → ℕ → Text → Text → Option Text → Exec Accounts Problem Unit
confirm_body lib now hash password random = do
  a ← query (problem 422 "Invalid or expired reset link") (reset_account hash now)
  lift (or_invalid (validate a.username password))
  salt ← lift (or_problem random (problem 500 "Could not secure password"))
  update (problem 500 "Could not reset password") (λ _. tt {0})
      (set_verifier a.id (registration lib a.username password salt))
  update (problem 500 "Could not reset password") (λ _. tt {0}) (end_sessions a.id)
  update (problem 500 "Could not reset password") (λ _. tt {0}) (drop_resets a.id)
  update (problem 500 "Could not reset password") (λ _. tt {0}) (drop_forced a.id)

-- A token is the 64 digits of 32 bytes.
abbrev pub is_token : Option Text → Bool
is_token none = false
is_token (some raw) = length raw == 32

-- `passwordResetConfirm`
unfoldable pub password_reset_confirm :
    Crypto → ℕ → Text → Text → Option Text → Exec Accounts Problem Unit
password_reset_confirm lib now token password random = do
  stop_if (not (is_token (lib.hex_decode token))) (problem 422 "Invalid or expired reset link")
  transaction (problem 503 "Database unavailable") (problem 500 "Could not reset password")
      (confirm_body lib now (lib.sha256 token) password random)

-- `INSERT INTO portal_forced_password_resets ... ON DUPLICATE KEY UPDATE`
unfoldable pub force_reset : ℕ → ℕ → Text → Accounts → Accounts
force_reset account actor reason s = record s {
  forced =
      if ltb 0 (count_if (λ (x : ForcedReset). x.account == account) s.forced)
      then update_if (λ (x : ForcedReset). x.account == account)
          (λ x. record x { actor = actor; reason = reason }) s.forced
      else s.forced ++ record { account = account; actor = actor; reason = reason } ∷ [];
}

-- The transaction of `adminRequirePasswordReset`: the mail is sent before it is committed. The number
-- of sessions that ended.
unfoldable pub require_body :
    Crypto → ℕ → ℕ → Credential → Text → Text → Bool → Exec Accounts Problem ℕ
require_body lib now actor a reason token mailed = do
  attempt (drop_stale a.id now)
  exec (problem 500 "Could not require password reset")
      (insert_reset (lib.sha256 token) a.id (now + 3600))
  update (problem 500 "Could not require password reset") (λ _. tt {0})
      (force_reset a.id actor reason)
  revoked ←
      update (problem 500 "Could not require password reset")
        (λ s. count_if (owned_session a.id) s.sessions) (end_sessions a.id)
  update (problem 500 "Could not require password reset") (λ _. tt {0})
      (λ s. record s {
        audits =
            s.audits
            ++ record {
              actor = actor;
              action = codes "account.password-reset.require";
              target = a.username;
            }
              ∷ [];
      })
  stop_if (not mailed)
      (problem 502 "Could not deliver the password reset email; the account was not changed")
  pure revoked

abbrev pub bad_reason : Text → Bool
bad_reason reason =
    ltb (length reason) 3 || ltb 255 (length reason) || contains_any reason (13 ∷ 10 ∷ [])

-- `adminRequirePasswordReset`; `mailed` is the mail server's answer
unfoldable pub admin_require_password_reset :
    Crypto → Bool → ℕ → Option ℕ → Option ℕ → Text → Option Text → Bool → Exec Accounts Problem ℕ
admin_require_password_reset lib mail_configured now caller path_id reason random mailed = do
  actor ← lift (or_problem caller (problem 403 "Administrator access required"))
  stop_if (not mail_configured) (problem 503 "Configure SMTP before requiring a password reset")
  id ← lift (or_problem path_id (problem 400 "Invalid account"))
  stop_if (id == 0) (problem 400 "Invalid account")
  stop_if (bad_reason (trim_space reason))
      (problem 422 "Reason must be 3–255 characters without line breaks")
  a ← query (problem 404 "Account not found") (λ s. find_if (with_id id) s.credentials)
  raw ← lift (or_problem random (problem 500 "Could not create reset request"))
  transaction (problem 503 "Database unavailable") (problem 500 "Could not require password reset")
      (require_body lib now actor a (trim_space reason) (hex_encode raw) mailed)

abbrev pub is_verification : Text → ℕ → EmailVerification → Bool
is_verification hash now x = text_eq x.token_hash hash && ltb now x.expires_at

-- The new address, or the activation of the account.
abbrev pub verified : EmailVerification → Accounts → Accounts
verified x s = record s {
  credentials =
      update_if (with_id x.account)
        (λ a.
          if text_eq x.pending_email []
          then record a { locked = false }
          else record a { email = x.pending_email })
        s.credentials;
}

abbrev pub drop_verifications : ℕ → Accounts → Accounts
drop_verifications account s = record s {
  verifications = delete_if (λ (x : EmailVerification). x.account == account) s.verifications;
}

unfoldable pub verification_body : ℕ → Text → Exec Accounts Problem Text
verification_body now hash = do
  x ←
      query (problem 422 "Invalid or expired verification link")
        (λ s. find_if (is_verification hash now) s.verifications)
  update (problem 500 "Could not verify account") (λ _. tt {0}) (verified x)
  update (problem 500 "Could not verify account") (λ _. tt {0}) (drop_verifications x.account)
  pure x.pending_email

-- `emailVerificationConfirm`: the address that was confirmed, none for an activation
unfoldable pub email_verification_confirm : Crypto → ℕ → Text → Exec Accounts Problem Text
email_verification_confirm lib now token = do
  stop_if (not (is_token (lib.hex_decode token)))
      (problem 422 "Invalid or expired verification link")
  transaction (problem 503 "Database unavailable") (problem 500 "Could not verify account")
      (verification_body now (lib.sha256 token))
