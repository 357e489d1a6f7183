-- ===== src/Accounts/Guarded.antt =====
-- internal/web/security.go: what it takes to enable or disable the second factor or to change a
-- password, and what these do.
use azeroth_core_web.Base.{
  ℕ, ◌≡◌, ◌⊎◌, inl, inr, refl, sym, ap, ◌∙◌, Bool, true, false, Option, none, some, List, [], ◌∷◌,
  ◌++◌, map, append-nil, append_assoc, Text, if◌then◌else◌, arith, count_if,
}
use azeroth_core_web.Base.Counts.{delete_if-absorbs}
use azeroth_core_web.Db.{Conn, ok}
use azeroth_core_web.Db.Rules.{
  exec-bind, query-bind, update-bind, stop_if-bind, lift-bind, attempt-bind, pure_end, update_end,
  stop_if_end, branch,
}
use azeroth_core_web.Db.Atomic.{
  OnOk, AllOrNothing, Reads, after_reading, rebase, answered, transaction-AllOrNothing, OnOk-map,
  chain,
}
use azeroth_core_web.Http.{Problem, or_problem}
use azeroth_core_web.Accounts.{Accounts, Credential, RecoveryCode, Crypto}
use azeroth_core_web.Accounts.Recovery.{
  normalize_recovery_code, recovery_code_hash, generate_recovery_codes, is_code, insert_code,
  insert_codes, drop_code,
}
use azeroth_core_web.Accounts.Sessions.{account_of, auth}
use azeroth_core_web.Accounts.Security.{
  is_enabled, secret_of, is_current, owned_code, drop_codes, set_enabled, clear_secret, enable_body,
  security_totp_enable, spend_code, disable_body, security_totp_disable,
}

-- The caller has a session that has not expired, of an account that is neither locked nor banned.
abbrev pub IsCaller : Crypto → ℕ → Option Text → Accounts → Credential → Type 0
IsCaller lib now cookie s a =
    (value : Text) × (cookie ≡ some value) × (account_of (lib.sha256 value) now s ≡ some a)

or_problem_ok :
    {A : Type 0} (o : Option A) (p : Problem) (a : A) → or_problem o p ≡ ok a → o ≡ some a
or_problem_ok none p a h = cc
or_problem_ok (some b) p a h = cc

pub auth-Reads :
    (lib : Crypto) (now : ℕ) (cookie : Option Text) (c : Conn Accounts)
    → Reads c.tables (IsCaller lib now cookie c.tables) (auth lib now cookie c)
unfolding auth
auth-Reads lib now cookie c =
    let P =
      AllOrNothing {E = Problem} c.tables
        (λ (a : Credential) (t : Accounts). (t ≡ c.tables) × IsCaller lib now cookie c.tables a) in
    lift-bind P _ _ c (λ _ _. refl)
      λ value given. query-bind P _ _ _ _ refl λ a found.
        let caller : IsCaller lib now cookie c.tables a =
          (value, or_problem_ok cookie _ value given, found) in
        attempt-bind P _ _ _ (pure_end P _ _ (refl, caller)) (pure_end P _ _ (refl, caller))

-- What disabling takes and does: the authenticator was enabled, its code or one of the account's recovery
-- codes was given, and afterwards the account has neither secret nor recovery codes.
pub record IsDisabled (lib : Crypto) (key : Text) (now : ℕ) (cookie : Option Text) (code : Text)
    (s : Accounts) (t : Accounts) : Type 0 where
  pub account : Credential
  pub caller : IsCaller lib now cookie s account
  pub stored : Text
  pub enrolled : (is_enabled account.id s ≡ true) × (secret_of account.id s ≡ some stored)
  pub proved :
      (is_current lib key now stored code ≡ true)
      ⊎ (count_if
            (is_code account.id (recovery_code_hash lib (normalize_recovery_code code)))
            s.codes
          ≡ 1)
  pub cleared : t ≡ clear_secret account.id (drop_codes account.id s)

abbrev IsProved : Crypto → ℕ → Bool → Text → Accounts → Type 0
IsProved lib account totp_valid code s =
    (totp_valid ≡ true)
    ⊎ (count_if (is_code account (recovery_code_hash lib (normalize_recovery_code code))) s.codes
        ≡ 1)

code_is_owned :
    (account : ℕ) (hash : Text) (x : RecoveryCode)
    → is_code account hash x ≡ true
    → owned_code account x ≡ true
code_is_owned account hash x h = ground (arith, h)

drop_code_again :
    (account : ℕ) (hash : Text) (s : Accounts)
    → drop_codes account (drop_code account hash s) ≡ drop_codes account s
drop_code_again account hash s =
    ap (λ (x : List RecoveryCode). record s { codes = x })
      (delete_if-absorbs (is_code account hash) (owned_code account) s.codes
        (code_is_owned account hash))

spend_code-OnOk :
    (lib : Crypto) (account : ℕ) (code : Text) (c : Conn Accounts)
    → OnOk
        (λ _ t.
          (drop_codes account t ≡ drop_codes account c.tables)
          × IsProved lib account false code c.tables)
        (spend_code lib account code c)
unfolding spend_code
spend_code-OnOk lib account code c =
    let P = OnOk {E = Problem} (λ (_ : Unit {0}) (t : Accounts).
      (drop_codes account t ≡ drop_codes account c.tables)
      × IsProved lib account false code c.tables) in
    stop_if-bind P _ _ _ c (λ _. tt)
      λ _. update-bind P _ _ _ _ _ tt (
        stop_if_end P _ _ _ (λ _. tt)
          λ one. (drop_code_again account _ c.tables, inr (ground (arith, one))))

disable_body-OnOk :
    (lib : Crypto) (account : ℕ) (totp_valid : Bool) (code : Text) (c : Conn Accounts)
    → OnOk
        (λ _ t.
          (t ≡ clear_secret account (drop_codes account c.tables))
          × IsProved lib account totp_valid code c.tables)
        (disable_body lib account totp_valid code c)
unfolding disable_body
disable_body-OnOk lib account totp_valid code c =
    let R = λ (_ : Unit {0}) (t : Accounts).
      (drop_codes account t ≡ drop_codes account c.tables)
      × IsProved lib account totp_valid code c.tables in
    let Q = λ (_ : Unit {0}) (t : Accounts).
      (t ≡ clear_secret account (drop_codes account c.tables))
      × IsProved lib account totp_valid code c.tables in
    let P = OnOk {E = Problem} Q in
    chain R Q _ _ c
      (branch (OnOk {E = Problem} R) totp_valid _ _ c
        (λ valid. pure_end (OnOk {E = Problem} R) _ _ (refl, inl valid))
        (λ _. OnOk-map _ R _ (spend_code-OnOk lib account code c) (λ _ t (same, proved).
          (same, elim proved [ inl wrong ↦ absurd (ground arith) | inr one ↦ inr one ]))))
      (λ _ d (same, proved).
        update-bind P _ _ _ _ _ tt
          (update_end P _ _ _ _ tt (ap (λ t. clear_secret account t) same, proved)))

enabled_found :
    (account : ℕ) (s : Accounts) (stored : Text)
    → (if is_enabled account s then secret_of account s else none) ≡ some stored
    → (is_enabled account s ≡ true) × (secret_of account s ≡ some stored)
enabled_found account s stored h = (ground (arith, h), ground (arith, h))

-- Disabling is all or nothing. If it goes through, the caller is signed in, the authenticator was
-- enabled, its code of that time or one of the account's recovery codes was given, and
-- the secret and all recovery codes of the account are gone; if it stops, nothing has changed.
pub security_totp_disable-AllOrNothing :
    (lib : Crypto) (key : Text) (now : ℕ) (cookie : Option Text) (code : Text) (c : Conn Accounts)
    → AllOrNothing c.tables
        (λ _ t. IsDisabled lib key now cookie code c.tables t)
        (security_totp_disable lib key now cookie code c)
unfolding security_totp_disable
security_totp_disable-AllOrNothing lib key now cookie code c =
    let Q = λ (_ : Unit {0}) (t : Accounts). IsDisabled lib key now cookie code c.tables t in
    after_reading c.tables (IsCaller lib now cookie c.tables) Q _ _ c (auth-Reads lib now cookie c)
      λ a d same caller.
        let P = AllOrNothing {E = Problem} c.tables Q in
        query-bind P _ (λ s. if is_enabled a.id s then secret_of a.id s else none) _ d same
          λ stored found.
            let R = λ (_ : Unit {0}) (t : Accounts).
              (t ≡ clear_secret a.id (drop_codes a.id d.tables))
              × IsProved lib a.id (is_current lib key now stored code) code d.tables in
            rebase Q c.tables d.tables _ same (
              transaction-AllOrNothing Q _ _ _ _ (
                OnOk-map R Q _ (disable_body-OnOk lib a.id _ code _) λ _ t (done, proved). record {
                  account = a;
                  caller = caller;
                  stored = stored;
                  enrolled = enabled_found a.id c.tables stored (rw same at found);
                  proved = rw same at proved;
                  cleared = rw same at done;
                }))

-- A recovery code of an account, by its hash.
abbrev pub code_row : ℕ → Text → RecoveryCode
code_row account hash = record { account = account; code_hash = hash }

abbrev pub add_codes : ℕ → List Text → Accounts → Accounts
add_codes account hashes s = record s { codes = s.codes ++ map (code_row account) hashes }

insert_code_eq :
    (account : ℕ) (hash : Text) (s t : Accounts) (a : Unit {0})
    → insert_code account hash s ≡ some (a, t)
    → t ≡ add_codes account (hash ∷ []) s
unfolding insert_code
insert_code_eq account hash s t a h = ground (arith, h)

insert_codes-OnOk :
    (e : Problem) (account : ℕ) (hashes : List Text) (c : Conn Accounts)
    → OnOk (λ _ t. t ≡ add_codes account hashes c.tables) (insert_codes e account hashes c)
unfolding insert_codes
insert_codes-OnOk e account [] c =
    let P =
      OnOk {E = Problem} (λ (_ : Unit {0}) (t : Accounts). t ≡ add_codes account [] c.tables) in
    pure_end P _ _ (
      ap (λ (x : List RecoveryCode). record c.tables { codes = x })
        (sym (append-nil c.tables.codes)))
insert_codes-OnOk e account (hash ∷ hashes) c =
    let Q = λ (_ : Unit {0}) (t : Accounts). t ≡ add_codes account (hash ∷ hashes) c.tables in
    let P = OnOk {E = Problem} Q in
    exec-bind P _ _ _ c tt λ a t wrote.
      OnOk-map (λ (_ : Unit {0}) (u : Accounts). u ≡ add_codes account hashes t) Q _
        (insert_codes-OnOk e account hashes _)
        λ _ u done.
          let written : t ≡ add_codes account (hash ∷ []) c.tables =
            insert_code_eq account hash c.tables t a wrote in
          done
          ∙ rw written (
              ap (λ (x : List RecoveryCode). record c.tables { codes = x })
                (append_assoc c.tables.codes (code_row account hash ∷ [])
                  (map (code_row account) hashes)))

-- What enabling takes and does: the code of the enrolled secret was given, the authenticator is enabled and the
-- account's recovery codes are the new ones.
pub record IsEnabled (lib : Crypto) (key : Text) (now : ℕ) (cookie : Option Text) (code : Text)
    (raws : Option (List Text)) (s : Accounts) (shown : List Text) (t : Accounts) : Type 0 where
  pub account : Credential
  pub caller : IsCaller lib now cookie s account
  pub stored : Text
  pub enrolled : secret_of account.id s ≡ some stored
  pub proved : is_current lib key now stored code ≡ true
  pub random : List Text
  pub drawn : raws ≡ some random
  pub codes_shown : shown ≡ (generate_recovery_codes lib random).0
  pub renewed :
      t
      ≡ add_codes account.id
          (generate_recovery_codes lib random).1
          (drop_codes account.id (set_enabled account.id s))

enable_body-OnOk :
    (account : ℕ) (hashes : List Text) (c : Conn Accounts)
    → OnOk
        (λ _ t. t ≡ add_codes account hashes (drop_codes account (set_enabled account c.tables)))
        (enable_body account hashes c)
unfolding enable_body
enable_body-OnOk account hashes c =
    let P = OnOk {E = Problem} (λ (_ : Unit {0}) (t : Accounts).
      t ≡ add_codes account hashes (drop_codes account (set_enabled account c.tables))) in
    update-bind P _ _ _ _ _ tt (update-bind P _ _ _ _ _ tt (insert_codes-OnOk _ account hashes _))

-- Enabling is all or nothing. If it goes through, the caller is signed in, the code is the current one of
-- the stored secret, the authenticator is enabled and the account's recovery codes are exactly the hashes of
-- the codes shown; if the transaction or a check stops it, nothing has changed.
pub security_totp_enable-AllOrNothing :
    (lib : Crypto) (key : Text) (now : ℕ) (cookie : Option Text) (code : Text)
    (raws : Option (List Text)) (c : Conn Accounts)
    → AllOrNothing c.tables
        (IsEnabled lib key now cookie code raws c.tables)
        (security_totp_enable lib key now cookie code raws c)
unfolding security_totp_enable
security_totp_enable-AllOrNothing lib key now cookie code raws c =
    let Q = IsEnabled lib key now cookie code raws c.tables in
    after_reading c.tables (IsCaller lib now cookie c.tables) Q _ _ c (auth-Reads lib now cookie c)
      λ a d same caller.
        let P = AllOrNothing {E = Problem} c.tables Q in
        query-bind P _ (secret_of a.id) _ d same λ stored found.
          stop_if-bind P _ _ _ _ (λ _. same)
            λ proved.
              lift-bind P _ _ _ (λ _ _. same)
                λ random drawn.
                  let (shown, hashes) = generate_recovery_codes lib random in
                  let R = λ (_ : Unit {0}) (t : Accounts).
                    t ≡ add_codes a.id hashes (drop_codes a.id (set_enabled a.id d.tables)) in
                  answered c.tables (λ _ t. R tt t) Q shown _ _
                    (rebase (λ _ t. R tt t) c.tables d.tables _ same
                      (transaction-AllOrNothing (λ _ t. R tt t) _ _ _ _
                        (enable_body-OnOk a.id hashes _)))
                    λ _ t done. record {
                      account = a;
                      caller = caller;
                      stored = stored;
                      enrolled = rw same at found;
                      proved = ground (arith, proved);
                      random = random;
                      drawn = or_problem_ok raws _ random drawn;
                      codes_shown = refl;
                      renewed = rw same at done;
                    }
