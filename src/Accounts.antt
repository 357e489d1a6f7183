-- ===== src/Accounts.antt =====
-- The tables of accounts and their security (internal/store/store.go, and the `account` table of the
-- worldserver), with the columns that signing in, the second factor and the recovery of a
-- password read or write. Times are seconds. A `BINARY` column is a string's bytes.
pub mod Srp
pub mod Verify
pub mod Totp
pub mod Window
pub mod Recovery
pub mod Security
pub mod Password
pub mod Guarded
pub mod Reset
pub mod Renewed
pub mod Sessions
use azeroth_core_web.Base.{ℕ, Bool, Option, List, Text}

-- A row of the worldserver's `account`; `banned` says whether it has an active ban.
pub record Credential : Type 0 where
  pub id : ℕ
  pub username : Text
  pub email : Text
  pub salt : Text
  pub verifier : Text
  pub locked : Bool
  pub banned : Bool

pub record AccountSecurity : Type 0 where
  pub account : ℕ
  pub totp_secret : Option Text
  pub totp_enabled : Bool

pub record RecoveryCode : Type 0 where
  pub account : ℕ
  pub code_hash : Text

pub record Session : Type 0 where
  pub token_hash : Text
  pub account : ℕ
  pub expires_at : ℕ
  pub step_up_until : Option ℕ

pub record PasswordReset : Type 0 where
  pub token_hash : Text
  pub account : ℕ
  pub expires_at : ℕ

pub record ForcedReset : Type 0 where
  pub account : ℕ
  pub actor : ℕ
  pub reason : Text

pub record EmailVerification : Type 0 where
  pub token_hash : Text
  pub account : ℕ
  pub pending_email : Text
  pub expires_at : ℕ

-- A row of portal_admin_audit.
pub record AccountAudit : Type 0 where
  pub actor : ℕ
  pub action : Text
  pub target : Text

pub record Accounts : Type 0 where
  pub credentials : List Credential
  pub securities : List AccountSecurity
  pub codes : List RecoveryCode
  pub sessions : List Session
  pub resets : List PasswordReset
  pub forced : List ForcedReset
  pub verifications : List EmailVerification
  pub audits : List AccountAudit

-- The libraries that the handlers call: hashes, AES-GCM under a key and a nonce with the additional
-- data, the encodings, and `big.Int.Exp`.
pub record Crypto : Type 0 where
  pub sha1 : Text → Text
  pub sha256 : Text → Text
  pub hmac_sha1 : Text → Text → Text
  pub seal : Text → Text → Text → Text → Text
  pub open_sealed : Text → Text → Text → Text → Option Text
  pub base64_encode : Text → Text
  pub base64_decode : Text → Option Text
  pub base32_encode : Text → Text
  pub base32_decode : Text → Option Text
  pub hex_decode : Text → Option Text
  pub exp_mod : ℕ → ℕ → ℕ → ℕ
