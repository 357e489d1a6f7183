-- ===== src/Accounts/Password.antt =====
-- internal/web/security.go: the confirmation of a session (`securityStepUp`, `stepUpValid`), the change
-- of a password and the end of a session elsewhere.
use azeroth_core_web.Base.{
  ℕ, ◌+◌, ◌&&◌, not, Bool, false, Option, none, some, Text, text_eq, ◌==◌, ltb, if◌then◌else◌,
  length, find_if, count_if, update_if, delete_if, String,
}
use azeroth_core_web.Http.{Problem, problem, or_problem}
use azeroth_core_web.Db.{
  Result, ok, err, Exec, update, query, transaction, stop_if, pure, lift, ◌>>=◌, ◌>>◌,
}
use azeroth_core_web.Accounts.{Accounts, Credential, Session, Crypto}
use azeroth_core_web.Accounts.Srp.{validate, verify, registration}
use azeroth_core_web.Accounts.Recovery.{consume_recovery_code}
use azeroth_core_web.Accounts.Sessions.{auth}
use azeroth_core_web.Accounts.Security.{secret_of, is_enabled, is_current, text_or_empty}

abbrev pub with_id : ℕ → Credential → Bool
with_id id a = a.id == id

-- The account with what its second factor is: no secret and not enabled where it has no row.
unfoldable pub load_factor : ℕ → Accounts → Option (Credential × Text × Bool)
load_factor account s = elim (find_if (with_id account) s.credentials) [
  | none ↦ none
  | some a ↦ some (a, text_or_empty (secret_of account s), is_enabled account s)
]

abbrev pub is_session : Text → ℕ → Session → Bool
is_session hash account x = text_eq x.token_hash hash && (x.account == account)

abbrev pub until_is : ℕ → Option ℕ → Bool
until_is t none = false
until_is t (some u) = u == t

-- `UPDATE portal_sessions SET step_up_until=...`: MySQL counts no row that has the value already.
abbrev pub confirm_session : Text → ℕ → ℕ → Accounts → Accounts
confirm_session hash account until s = record s {
  sessions =
      update_if (is_session hash account) (λ x. record x { step_up_until = some until }) s.sessions;
}

-- The second factor, where it is enabled: the authenticator's code, or else a recovery code.
unfoldable pub check_factor :
    Crypto → Text → ℕ → ℕ → Bool → Text → Text → Exec Accounts Problem Unit
check_factor lib key now account enabled stored code =
    if enabled
    then (if is_current lib key now stored code then pure tt else (do
      spent ← consume_recovery_code lib account code
      stop_if (not spent) (problem 401 "Authenticator or recovery code is incorrect")))
    else pure tt

-- `securityStepUp`: the session is confirmed for 600 seconds
unfoldable pub security_step_up :
    Crypto → Text → ℕ → Option Text → Text → Text → Exec Accounts Problem Unit
security_step_up lib key now cookie password code = do
  a ← auth lib now cookie
  (found, stored, enabled) ← query (problem 401 "Password is incorrect") (load_factor a.id)
  stop_if (not (verify lib a.username password found.salt found.verifier))
      (problem 401 "Password is incorrect")
  check_factor lib key now a.id enabled stored code
  value ← lift (or_problem cookie (problem 401 "Sign in required"))
  rows ←
      update (problem 500 "Could not confirm this session")
        (λ s.
          count_if
            (λ (x : Session).
              is_session (lib.sha256 value) a.id x && not (until_is (now + 600) x.step_up_until))
            s.sessions)
        (confirm_session (lib.sha256 value) a.id (now + 600))
  stop_if (not (rows == 1)) (problem 500 "Could not confirm this session")

abbrev pub is_after : ℕ → Option ℕ → Bool
is_after now none = false
is_after now (some t) = ltb now t

-- `stepUpValid`
unfoldable pub step_up_valid : Crypto → ℕ → Option Text → Accounts → Bool
step_up_valid lib now none s = false
step_up_valid lib now (some value) s =
    elim (find_if (λ (x : Session). text_eq x.token_hash (lib.sha256 value)) s.sessions) [
      | none ↦ false
      | some x ↦ is_after now x.step_up_until
    ]

abbrev pub set_verifier : ℕ → Text × Text → Accounts → Accounts
set_verifier account (salt, verifier) s = record s {
  credentials =
      update_if (with_id account) (λ a. record a { salt = salt; verifier = verifier })
        s.credentials;
}

abbrev pub owned_session : ℕ → Session → Bool
owned_session account x = x.account == account

abbrev pub end_sessions : ℕ → Accounts → Accounts
end_sessions account s = record s { sessions = delete_if (owned_session account) s.sessions }

unfoldable pub password_body : ℕ → Text × Text → Exec Accounts Problem Unit
password_body account secret = do
  update (problem 500 "Could not change password") (λ _. tt {0}) (set_verifier account secret)
  update (problem 500 "Could not change password") (λ _. tt {0}) (end_sessions account)

-- What is wrong with a name or a password.
abbrev pub or_invalid : Result String (Unit {0}) → Result Problem (Unit {0})
or_invalid (ok u) = ok u
or_invalid (err message) = err (problem 422 message)

-- `securityPassword`, from the random bytes of the salt
unfoldable pub security_password :
    Crypto → ℕ → Option Text → Text → Text → Option Text → Exec Accounts Problem Unit
security_password lib now cookie current_password new_password random = do
  a ← auth lib now cookie
  lift (or_invalid (validate a.username new_password))
  found ←
      query (problem 401 "Current password is incorrect")
        (λ s. find_if (with_id a.id) s.credentials)
  stop_if (not (verify lib a.username current_password found.salt found.verifier))
      (problem 401 "Current password is incorrect")
  salt ← lift (or_problem random (problem 500 "Could not secure password"))
  transaction (problem 503 "Database unavailable") (problem 500 "Could not change password")
      (password_body a.id (registration lib a.username new_password salt))

-- `securityRevokeSession`: whether a session was ended
unfoldable pub security_revoke_session :
    Crypto → ℕ → Option Text → Text → Exec Accounts Problem Bool
security_revoke_session lib now cookie path_id = do
  a ← auth lib now cookie
  hash ← lift (or_problem (lib.hex_decode path_id) (problem 400 "Invalid session"))
  stop_if (not (length hash == 32)) (problem 400 "Invalid session")
  rows ←
      update (problem 500 "Could not revoke session")
        (λ s. count_if (is_session hash a.id) s.sessions)
        (λ s. record s { sessions = delete_if (is_session hash a.id) s.sessions })
  pure (rows == 1)
