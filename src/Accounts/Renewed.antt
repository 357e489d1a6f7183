-- ===== src/Accounts/Renewed.antt =====
-- internal/web/security.go and recovery.go: what a new password takes and does.
use azeroth_core_web.Base.{
  ℕ, ◌≡◌, ◌≢◌, inl, inr, refl, Bool, true, Option, none, some, String, Text, text_eq, ◌==◌, arith,
  find_if, count_if, delete_if, Option-cases, ==→eq, find_if-holds,
}
use azeroth_core_web.Base.Counts.{count_if-delete_if, count_if-deleted, find_if-narrow}
use azeroth_core_web.Db.{Conn, Result, ok, err}
use azeroth_core_web.Db.Rules.{query-bind, update-bind, stop_if-bind, lift-bind, update_end}
use azeroth_core_web.Db.Atomic.{
  OnOk, AllOrNothing, after_reading, rebase, transaction-AllOrNothing, OnOk-map, went_through,
}
use azeroth_core_web.Http.{Problem}
use azeroth_core_web.Accounts.{Accounts, Credential, PasswordReset, Crypto}
use azeroth_core_web.Wallet.Payments.{NoTwice}
use azeroth_core_web.Accounts.Srp.{validate, verify, registration}
use azeroth_core_web.Accounts.Password.{
  with_id, set_verifier, owned_session, end_sessions, password_body, or_invalid, security_password,
}
use azeroth_core_web.Accounts.Guarded.{IsCaller, auth-Reads}
use azeroth_core_web.Accounts.Reset.{
  is_reset, reset_account, drop_resets, drop_forced, confirm_body, password_reset_confirm,
}

-- What changing a password takes and does: the caller gave the password that the account has, the new one
-- is valid, and it is the account's from now on, without any session left.
pub record IsChanged (lib : Crypto) (now : ℕ) (cookie : Option Text)
    (current_password new_password : Text) (s : Accounts) (t : Accounts) : Type 0 where
  pub account : Credential
  pub caller : IsCaller lib now cookie s account
  pub valid : validate account.username new_password ≡ ok tt
  pub found : Credential
  pub stored : find_if (with_id account.id) s.credentials ≡ some found
  pub proved : verify lib account.username current_password found.salt found.verifier ≡ true
  pub salt : Text
  pub written :
      t
      ≡ end_sessions account.id
          (set_verifier account.id (registration lib account.username new_password salt) s)
  pub signed_out : count_if (owned_session account.id) t.sessions ≡ 0

password_body-OnOk :
    (account : ℕ) (secret : Text × Text) (c : Conn Accounts)
    → OnOk
        (λ _ t. t ≡ end_sessions account (set_verifier account secret c.tables))
        (password_body account secret c)
unfolding password_body
password_body-OnOk account secret c =
    let P = OnOk {E = Problem} (λ (_ : Unit {0}) (t : Accounts).
      t ≡ end_sessions account (set_verifier account secret c.tables)) in
    update-bind P _ _ _ _ _ tt (update_end P _ _ _ _ tt refl)

signed_out_after :
    (account : ℕ) (s t : Accounts)
    → t ≡ end_sessions account s
    → count_if (owned_session account) t.sessions ≡ 0
signed_out_after account s t h = rw h (count_if-delete_if (owned_session account) s.sessions)

valid_eq : (r : Result String (Unit {0})) (u : Unit {0}) → or_invalid r ≡ ok u → r ≡ ok tt
valid_eq (ok v) u h = refl
valid_eq (err m) u h = cc

-- A change of password is all or nothing. If it goes through, the caller is signed in, has given the
-- current password and a valid new one, the verifier is the one of the new password, and no
-- session of the account is left; if it stops, nothing has changed.
pub security_password-AllOrNothing :
    (lib : Crypto) (now : ℕ) (cookie : Option Text) (current_password new_password : Text)
    (random : Option Text) (c : Conn Accounts)
    → AllOrNothing c.tables
        (λ _ t. IsChanged lib now cookie current_password new_password c.tables t)
        (security_password lib now cookie current_password new_password random c)
unfolding security_password
security_password-AllOrNothing lib now cookie current_password new_password random c =
    let Q = λ (_ : Unit {0}) (t : Accounts).
      IsChanged lib now cookie current_password new_password c.tables t in
    after_reading c.tables (IsCaller lib now cookie c.tables) Q _ _ c (auth-Reads lib now cookie c)
      λ a d same caller.
        let P = AllOrNothing {E = Problem} c.tables Q in
        lift-bind P _ _ d (λ _ _. same)
          λ _ valid.
            query-bind P _ (λ s. find_if (with_id a.id) s.credentials) _ _ same
              λ found stored.
                stop_if-bind P _ _ _ _ (λ _. same)
                  λ proved.
                    lift-bind P _ _ _ (λ _ _. same)
                      λ salt _.
                        let secret = registration lib a.username new_password salt in
                        let R = λ (_ : Unit {0}) (t : Accounts).
                          t ≡ end_sessions a.id (set_verifier a.id secret d.tables) in
                        rebase Q c.tables d.tables _ same (
                          transaction-AllOrNothing Q _ _ _ _ (
                            OnOk-map R Q _ (password_body-OnOk a.id secret _) λ _ t done. record {
                              account = a;
                              caller = caller;
                              valid = valid_eq (validate a.username new_password) _ valid;
                              found = found;
                              stored = rw same at stored;
                              proved = ground (arith, proved);
                              salt = salt;
                              written = rw same at done;
                              signed_out = signed_out_after a.id _ t done;
                            }))

-- What a reset takes and does: the token is that of a reset of the account that has not expired, the
-- password is valid and the account's from now on, and no session, no reset and no demand of staff is left.
pub record IsReset (lib : Crypto) (now : ℕ) (hash password : Text) (s : Accounts) (t : Accounts)
    : Type 0 where
  pub row : PasswordReset
  pub found : find_if (is_reset hash now) s.resets ≡ some row
  pub account : Credential
  pub owner : find_if (with_id row.account) s.credentials ≡ some account
  pub valid : validate account.username password ≡ ok tt
  pub salt : Text
  pub written :
      t
      ≡ drop_forced account.id (
          drop_resets account.id (
            end_sessions account.id
              (set_verifier account.id (registration lib account.username password salt) s)))
  pub signed_out : count_if (owned_session account.id) t.sessions ≡ 0

reset_account_eq :
    (hash : Text) (now : ℕ) (s : Accounts) (a : Credential)
    → reset_account hash now s ≡ some a
    → (row : PasswordReset) × (find_if (is_reset hash now) s.resets ≡ some row)
      × (find_if (with_id row.account) s.credentials ≡ some a)
unfolding reset_account
reset_account_eq hash now s a h = elim (Option-cases (find_if (is_reset hash now) s.resets)) [
  | inl missing ↦ absurd (ground (arith, h, missing))
  | inr (row, found) ↦ (row, found, ground (arith, h, found))
]

confirm_body-OnOk :
    (lib : Crypto) (now : ℕ) (hash password : Text) (random : Option Text) (c : Conn Accounts)
    → OnOk
        (λ _ t. IsReset lib now hash password c.tables t)
        (confirm_body lib now hash password random c)
unfolding confirm_body
confirm_body-OnOk lib now hash password random c =
    let Q = λ (_ : Unit {0}) (t : Accounts). IsReset lib now hash password c.tables t in
    let P = OnOk {E = Problem} Q in
    query-bind P _ (reset_account hash now) _ c tt λ a known.
      lift-bind P _ _ _ (λ _ _. tt)
        λ _ valid.
          lift-bind P _ _ _ (λ _ _. tt)
            λ salt _. update-bind P _ _ _ _ _ tt (
              update-bind P _ _ _ _ _ tt (
                update-bind P _ _ _ _ _ tt (
                  update_end P _ _ _ _ tt (
                    let (row, found, owner) = reset_account_eq hash now c.tables a known in
                    record {
                      row = row;
                      found = found;
                      account = a;
                      owner = owner;
                      valid = valid_eq (validate a.username password) _ valid;
                      salt = salt;
                      written = refl;
                      signed_out = count_if-delete_if (owned_session a.id) c.tables.sessions;
                    }))))

-- A reset is all or nothing. If it goes through, the token had not expired, the password is valid, the
-- verifier of the token's account is the one of the new password, and no session, reset or demand of staff for a
-- reset of the account is left; if it stops, nothing has changed.
pub password_reset_confirm-AllOrNothing :
    (lib : Crypto) (now : ℕ) (token password : Text) (random : Option Text) (c : Conn Accounts)
    → AllOrNothing c.tables
        (λ _ t. IsReset lib now (lib.sha256 token) password c.tables t)
        (password_reset_confirm lib now token password random c)
unfolding password_reset_confirm
password_reset_confirm-AllOrNothing lib now token password random c =
    let Q =
      λ (_ : Unit {0}) (t : Accounts). IsReset lib now (lib.sha256 token) password c.tables t in
    let P = AllOrNothing {E = Problem} c.tables Q in
    stop_if-bind P _ _ _ c (λ _. refl)
      λ _.
        transaction-AllOrNothing Q _ _ _ c
          (confirm_body-OnOk lib now (lib.sha256 token) password random _)

-- The primary key of a reset.
abbrev pub reset_key : Text → PasswordReset → Bool
reset_key hash x = text_eq x.token_hash hash

is_reset-key :
    (hash : Text) (now : ℕ) (x : PasswordReset)
    → is_reset hash now x ≡ true
    → reset_key hash x ≡ true
is_reset-key hash now x h = ground (arith, h)

spent :
    (lib : Crypto) (now later : ℕ) (hash password : Text) (s t : Accounts)
    → NoTwice reset_key s.resets
    → IsReset lib now hash password s t
    → find_if (is_reset hash later) t.resets ≡ none
spent lib now later hash password s t one h =
    let mine : PasswordReset → Bool = λ x. x.account == h.account.id in
    let same : h.account.id ≡ h.row.account =
      ==→eq _ _ (find_if-holds (with_id h.row.account) h.account s.credentials h.owner) in
    let gone : count_if (reset_key hash) (delete_if mine s.resets) ≡ 0 =
      count_if-deleted mine (reset_key hash) (is_reset hash now) h.row s.resets
        (is_reset-key hash now) h.found (ground (arith, same)) (one hash) in
    rw h.written
      (find_if-narrow (reset_key hash) (is_reset hash later) _ (is_reset-key hash later) gone)

-- A token resets a password once: with one row for each token, after a reset that went through, no other
-- request with the same token goes through on the tables that it left, at any time, with any password and
-- whichever statements fail.
pub password_reset_confirm-once :
    (lib : Crypto) (now later : ℕ) (token password other : Text) (random again : Option Text)
    (c d : Conn Accounts)
    → NoTwice reset_key c.tables.resets
    → (password_reset_confirm lib now token password random c).0 ≡ ok tt
    → d.tables ≡ (password_reset_confirm lib now token password random c).1.tables
    → (password_reset_confirm lib later token other again d).0 ≢ ok tt
password_reset_confirm-once lib now later token password other random again c d one first same
      second =
    let done =
      went_through c.tables (λ _ t. IsReset lib now (lib.sha256 token) password c.tables t) _ tt
        (password_reset_confirm-AllOrNothing lib now token password random c) first in
    let redone =
      went_through d.tables (λ _ t. IsReset lib later (lib.sha256 token) other d.tables t) _ tt
        (password_reset_confirm-AllOrNothing lib later token other again d) second in
    let missing = spent lib now later (lib.sha256 token) password c.tables _ one done in
    let found = rw same at redone.found in absurd (ground (arith, missing, found))
