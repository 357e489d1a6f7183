-- ===== src/Events/Once.antt =====
-- internal/web/events.go, `rewardEventAccount` and `adminEventRewards`: who attended an event is
-- rewarded for it once.
use azeroth_core_web.Base.{
  ℕ, ◌≡◌, refl, sym, ap, ◌∙◌, map, not, Bool, true, false, ◌||◌, Option, none, some, List, [], ◌∷◌,
  ◌++◌, Text, ◌==◌, ltb, arith, find_if, count_if, contains_num, Bool-cases, inl, inr, length,
  trim_space,
}
use azeroth_core_web.Base.Int.{ℤ, pos}
use azeroth_core_web.Db.{Conn, Result, ok, err}
use azeroth_core_web.Db.Rules.{exec-bind, query-bind, update-bind, stop_if-bind, pure_end}
use azeroth_core_web.Db.Atomic.{OnOk, AllOrNothing, transaction-AllOrNothing, OnOk-map}
use azeroth_core_web.Tables.{State, RealmEvent, EventGrant, Attendance, Reason}
use azeroth_core_web.Wallet.{deposit, entry, with_wallets_eq}
use azeroth_core_web.Wallet.Settled.{Settled, deposit-Settled}
use azeroth_core_web.Wallet.Payments.{
  NoTwice, NoTwice-append, payments, payments-append, map-append_one,
}
use azeroth_core_web.Events.{event_here, attendance_of}
use azeroth_core_web.Events.Staff.{
  NoReward, is_grant, is_attended, new_grant, record_grant, grant_row, pay_grant, reward_body,
  reward_event_account, reward_each, admin_event_rewards,
}

-- What the books show of a grant: its row, the entry of the ledger and the wallet.
pub record IsGranted (g : EventGrant) (s : State) (credits : ℕ) (t : State) : Type 0 where
  pub worth : credits ≡ g.credits
  pub fresh : count_if (is_grant g.event g.account) s.event_grants ≡ 0
  pub noted : t.event_grants ≡ s.event_grants ++ g ∷ []
  pub paid : deposit g.account g.credits s.wallets ≡ some t.wallets
  pub booked :
      t.ledger
      ≡ s.ledger ++ entry g.granted_by g.account (pos g.credits) (Reason.event_reward g.reason) ∷ []

-- What a reward that goes through has found and done.
pub record IsRewarded (realm : Text) (actor id account : ℕ) (reason : Text) (s : State)
    (credits : ℕ) (t : State) : Type 0 where
  pub event : RealmEvent
  pub found : find_if (event_here id realm) s.events ≡ some event
  pub attended : attendance_of id account s ≡ some Attendance.attended
  pub done : IsGranted (grant_row id account event.reward_credits actor reason) s credits t

record_grant_eq :
    (g : EventGrant) (s : State)
    → (new_grant g s == 0) ≡ false
    → (count_if (is_grant g.event g.account) s.event_grants ≡ 0)
      × (record_grant g s ≡ record s { event_grants = s.event_grants ++ g ∷ [] })
unfolding new_grant record_grant
record_grant_eq g s h = (ground arith, ground arith)

pay_grant-IsGranted :
    (g : EventGrant) (c : Conn State) → OnOk (IsGranted g c.tables) (pay_grant g c)
unfolding pay_grant
pay_grant-IsGranted g c =
    let P = OnOk {E = NoReward} (IsGranted g c.tables) in
    update-bind P _ _ _ _ _ tt (
      stop_if-bind P _ _ _ _ (λ _. tt)
        λ changed.
          let (fresh, noted) = record_grant_eq g c.tables changed in
          exec-bind P _ _ _ _ tt λ a t paid.
            let (wallets, deposited, moved) = with_wallets_eq (record_grant g c.tables) _ paid in
            update-bind P _ _ _ _ _ tt (
              pure_end P _ _ (
                rw (moved, noted)
                  (record {
                    worth = refl;
                    fresh = fresh;
                    noted = refl;
                    paid = rw noted at deposited;
                    booked = refl;
                  }))))

is_attended_eq : (a : Attendance) → not (is_attended (some a)) ≡ false → a ≡ Attendance.attended
is_attended_eq Attendance.attended h = refl
is_attended_eq Attendance.registered h = cc
is_attended_eq Attendance.no_show h = cc
is_attended_eq Attendance.cancelled h = cc

reward_body-IsRewarded :
    (realm : Text) (actor id account : ℕ) (reason : Text) (c : Conn State)
    → OnOk
        (IsRewarded realm actor id account reason c.tables)
        (reward_body realm actor id account reason c)
unfolding reward_body
reward_body-IsRewarded realm actor id account reason c =
    let Q = IsRewarded realm actor id account reason c.tables in
    let P = OnOk {E = NoReward} Q in
    query-bind P _ _ _ c tt λ e found.
      stop_if-bind P _ _ _ _ (λ _. tt)
        λ _. query-bind P _ _ _ _ tt λ status known.
          stop_if-bind P _ _ _ _ (λ _. tt)
            λ there.
              OnOk-map _ Q _
                (pay_grant-IsGranted (grant_row id account e.reward_credits actor reason) _)
                λ credits t done. record {
                  event = e;
                  found = found;
                  attended = known ∙ ap (λ a. some a) (is_attended_eq status there);
                  done = done;
                }

-- A reward is all or nothing. If it goes through, the event is one of the realm, the account is marked
-- as having attended it and had no reward for it before, and the grant, the credits and the ledger
-- entry are written; if it stops, no table has changed.
pub reward_event_account-AllOrNothing :
    (realm : Text) (actor id account : ℕ) (reason : Text) (c : Conn State)
    → AllOrNothing c.tables
        (IsRewarded realm actor id account reason c.tables)
        (reward_event_account realm actor id account reason c)
unfolding reward_event_account
reward_event_account-AllOrNothing realm actor id account reason c =
    transaction-AllOrNothing (IsRewarded realm actor id account reason c.tables) _ _
      (reward_body realm actor id account reason) c
      (reward_body-IsRewarded realm actor id account reason _)

abbrev pub is_event_reward : Reason → Bool
is_event_reward (Reason.event_reward reason) = true
is_event_reward _ = false

abbrev pub prize : EventGrant → ℕ × ℤ
prize g = (g.account, pos g.credits)

-- An event and an account.
abbrev pub grant_key : ℕ × ℕ → EventGrant → Bool
grant_key (event, account) g = is_grant event account g

-- No account has two grants for an event, the ledger pays each grant once, in order, and the wallets
-- agree with the ledger.
pub record GrantedOnce (s : State) : Type 0 where
  pub once : NoTwice grant_key s.event_grants
  pub exact : payments is_event_reward s.ledger ≡ map prize s.event_grants
  pub settled : Settled s.wallets s.ledger

grant_key-own : (g : EventGrant) (k : ℕ × ℕ) → grant_key k g ≡ true → k ≡ (g.event, g.account)
grant_key-own g (event, account) h =
    let same_event : event ≡ g.event = ground arith in
    let same_account : account ≡ g.account = ground arith in rw (same_event, same_account) refl

granted-GrantedOnce :
    (g : EventGrant) (s : State) (credits : ℕ) (t : State)
    → IsGranted g s credits t
    → GrantedOnce s
    → GrantedOnce t
granted-GrantedOnce g s credits t done h = record {
  once = rw done.noted (
      NoTwice-append grant_key (g.event, g.account) g s.event_grants (grant_key-own g) done.fresh
        h.once);
  exact =
      rw (done.booked, done.noted)
        (payments-append is_event_reward _ s.ledger refl
          ∙ (ap (λ xs. xs ++ prize g ∷ []) h.exact ∙ sym (map-append_one prize g s.event_grants)));
  settled =
      rw done.booked
        (deposit-Settled g.granted_by g.account g.credits (Reason.event_reward g.reason) s.wallets
          t.wallets s.ledger done.paid h.settled).0;
}

outcome-GrantedOnce :
    (realm : Text) (actor id account : ℕ) (reason : Text) (s : State)
    (o : Result NoReward ℕ × Conn State)
    → AllOrNothing s (IsRewarded realm actor id account reason s) o
    → GrantedOnce s
    → GrantedOnce o.1.tables
outcome-GrantedOnce realm actor id account reason s (ok credits, d) h before =
    granted-GrantedOnce _ s credits d.tables h.done before
outcome-GrantedOnce realm actor id account reason s (err e, d) same before = rw same before

reward_each-GrantedOnce :
    (realm : Text) (actor id : ℕ) (reason : Text) (seen accounts : List ℕ) (c : Conn State)
    → GrantedOnce c.tables
    → GrantedOnce (reward_each realm actor id reason seen accounts c).1.tables
reward_each-GrantedOnce realm actor id reason seen [] c h = h
reward_each-GrantedOnce realm actor id reason seen (account ∷ accounts) c h =
    elim (Bool-cases ((account == 0) || contains_num seen account)) [
      | inl skip ↦ rw skip (reward_each-GrantedOnce realm actor id reason seen accounts c h)
      | inr try ↦
          let o = reward_event_account realm actor id account reason c in
          rw try (
            reward_each-GrantedOnce realm actor id reason (account ∷ seen) accounts o.1 (
              outcome-GrantedOnce realm actor id account reason c.tables o
                (reward_event_account-AllOrNothing realm actor id account reason c) h))
    ]

-- Rewarding a list of accounts rewards none twice for the event, now or again: if no account had two
-- grants for one event, the ledger paid exactly the recorded grants in their order, and every balance was the sum
-- of its ledger entries, then so it is afterwards, whatever the list holds and whichever statements fail.
pub admin_event_rewards-GrantedOnce :
    (realm : Text) (caller path_id : Option ℕ) (accounts : List ℕ) (reason : Text) (c : Conn State)
    → GrantedOnce c.tables
    → GrantedOnce (admin_event_rewards realm caller path_id accounts reason c).1.tables
unfolding admin_event_rewards
admin_event_rewards-GrantedOnce realm none path_id accounts reason c h = h
admin_event_rewards-GrantedOnce realm (some actor) none accounts reason c h = h
admin_event_rewards-GrantedOnce realm (some actor) (some id) accounts reason c h =
    let text = trim_space reason in
    elim (Bool-cases (id == 0)) [
      | inl zero_id ↦ rw zero_id h
      | inr id_given ↦
          elim (Bool-cases (
            (length accounts == 0)
            || ltb 100 (length accounts)
            || ltb (length text) 3
            || ltb 255 (length text))) [
              | inl bad ↦ rw (id_given, bad) h
              | inr good ↦
                  rw (id_given, good) (reward_each-GrantedOnce realm actor id text [] accounts c h)
            ]
    ]
