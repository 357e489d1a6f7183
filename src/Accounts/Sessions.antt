-- ===== src/Accounts/Sessions.antt =====
-- internal/web/server.go: `auth`, by which a handler knows its caller, and `logout`. When a session was
-- last seen is left out.
use azeroth_core_web.Base.{
  ℕ, ◌&&◌, not, Bool, Option, none, some, Text, text_eq, ◌==◌, ltb, find_if, delete_if,
}
use azeroth_core_web.Http.{Problem, problem, or_problem}
use azeroth_core_web.Db.{Exec, query, attempt, pure, lift, ◌>>=◌, ◌>>◌}
use azeroth_core_web.Accounts.{Accounts, Credential, Session, Crypto}

abbrev pub is_live : Text → ℕ → Session → Bool
is_live hash now x = text_eq x.token_hash hash && ltb now x.expires_at

-- Neither locked nor banned.
abbrev pub is_open : ℕ → Credential → Bool
is_open id a = (a.id == id) && not a.locked && not a.banned

-- The account of a session that has not expired.
unfoldable pub account_of : Text → ℕ → Accounts → Option Credential
account_of hash now s = elim (find_if (is_live hash now) s.sessions) [
  | none ↦ none
  | some x ↦ find_if (is_open x.account) s.credentials
]

-- `auth`, with the answer that every handler gives where it fails; the update of last_seen_at may fail.
unfoldable pub auth : Crypto → ℕ → Option Text → Exec Accounts Problem Credential
auth lib now cookie = do
  value ← lift (or_problem cookie (problem 401 "Sign in required"))
  a ← query (problem 401 "Sign in required") (account_of (lib.sha256 value) now)
  attempt (λ s. s)
  pure a

abbrev pub end_session : Text → Accounts → Accounts
end_session hash s = record s {
  sessions = delete_if (λ (x : Session). text_eq x.token_hash hash) s.sessions;
}

-- `logout`, of a request with the cookie
unfoldable pub logout : Crypto → Text → Exec Accounts Problem Unit
logout lib value = attempt (end_session (lib.sha256 value))
