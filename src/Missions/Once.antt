-- ===== src/Missions/Once.antt =====
-- internal/web/reward_progress.go, `claimPlayerMission`: a mission is paid once a month.
use azeroth_core_web.Base.{
  ℕ, ◌≤◌, ◌≡◌, refl, sym, ap, ◌∙◌, map, text_eq→eq, not, Bool, true, false, Option, some, List, [],
  ◌∷◌, ◌++◌, Text, ◌==◌, arith, find_if, count_if,
}
use azeroth_core_web.Base.Int.{ℤ, pos}
use azeroth_core_web.Db.{Conn, Result, ok, err}
use azeroth_core_web.Http.{Problem, or_problem-some}
use azeroth_core_web.Db.Rules.{
  exec-bind, query-bind, update-bind, stop_if-bind, lift-bind, pure_end,
}
use azeroth_core_web.Db.Atomic.{OnOk, AllOrNothing, transaction-AllOrNothing, OnOk-map}
use azeroth_core_web.Tables.{State, Mission, MissionClaim, Reason}
use azeroth_core_web.Wallet.{deposit, entry, with_wallets_eq}
use azeroth_core_web.Wallet.Settled.{Settled, deposit-Settled}
use azeroth_core_web.Wallet.Payments.{
  NoTwice, NoTwice-append, payments, payments-append, map-append_one,
}
use azeroth_core_web.Missions.{
  Telemetry, Month, mission_progress, mission_here, is_claim, new_claim, record_claim, claim_row,
  claim_body, claim_player_mission,
}

-- What the books show of a claim: its row, the entry of the ledger and the wallet.
pub record IsClaimed (name : Text) (x : MissionClaim) (s : State) (credits : ℕ) (t : State)
    : Type 0 where
  pub worth : credits ≡ x.credits
  pub fresh : count_if (is_claim x.mission x.account x.period) s.mission_claims ≡ 0
  pub noted : t.mission_claims ≡ s.mission_claims ++ x ∷ []
  pub paid : deposit x.account x.credits s.wallets ≡ some t.wallets
  pub booked :
      t.ledger ≡ s.ledger ++ entry 0 x.account (pos x.credits) (Reason.monthly_mission name) ∷ []

-- What a claim that goes through has found and done.
pub record IsEarned (telemetry : Telemetry) (realm : Text) (month : Month)
    (path_id caller : Option ℕ) (s : State) (credits : ℕ) (t : State) : Type 0 where
  pub mission : Mission
  pub account : ℕ
  pub id : ℕ
  pub progress : ℕ
  pub named : path_id ≡ some id
  pub signed_in : caller ≡ some account
  pub found : find_if (mission_here id realm) s.missions ≡ some mission
  pub measured :
      mission_progress telemetry realm account mission.metric month.start s ≡ some progress
  pub reached : mission.target ≤ progress
  pub done :
      IsClaimed mission.name (claim_row id account month.name mission.reward_credits) s credits t

record_claim_eq :
    (x : MissionClaim) (s : State)
    → not (new_claim x s == 1) ≡ false
    → (count_if (is_claim x.mission x.account x.period) s.mission_claims ≡ 0)
      × (record_claim x s ≡ record s { mission_claims = s.mission_claims ++ x ∷ [] })
unfolding new_claim record_claim
record_claim_eq x s h = (ground arith, ground arith)

claim_body-IsClaimed :
    (x : MissionClaim) (name : Text) (c : Conn State)
    → OnOk (IsClaimed name x c.tables) (claim_body x name c)
unfolding claim_body
claim_body-IsClaimed x name c =
    let P = OnOk {E = Problem} (IsClaimed name x c.tables) in
    update-bind P _ _ _ _ _ tt (
      stop_if-bind P _ _ _ _ (λ _. tt)
        λ changed.
          let (fresh, noted) = record_claim_eq x c.tables changed in
          exec-bind P _ _ _ _ tt λ a t paid.
            let (wallets, deposited, moved) = with_wallets_eq (record_claim x c.tables) _ paid in
            update-bind P _ _ _ _ _ tt (
              pure_end P _ _ (
                rw (moved, noted)
                  (record {
                    worth = refl;
                    fresh = fresh;
                    noted = refl;
                    paid = rw noted at deposited;
                    booked = refl;
                  }))))

-- A claim is all or nothing. If it goes through, the caller is signed in, the mission is the active one
-- of the realm that the path names, the caller's account has reached its target in the month and had not
-- claimed it in that month, and the claim of that account, its credits and its ledger entry are
-- written; if it stops, no table has changed.
pub claim_player_mission-AllOrNothing :
    (telemetry : Telemetry) (realm : Text) (month : Month) (path_id caller : Option ℕ)
    (c : Conn State)
    → AllOrNothing c.tables
        (IsEarned telemetry realm month path_id caller c.tables)
        (claim_player_mission telemetry realm month path_id caller c)
unfolding claim_player_mission
claim_player_mission-AllOrNothing telemetry realm month path_id caller c =
    let Q = IsEarned telemetry realm month path_id caller c.tables in
    let P = AllOrNothing {E = Problem} c.tables Q in
    lift-bind P _ _ c (λ _ _. refl)
      λ id named.
        stop_if-bind P _ _ _ _ (λ _. refl)
          λ _.
            lift-bind P _ _ _ (λ _ _. refl)
              λ account signed_in. query-bind P _ _ _ _ refl λ m found.
                query-bind P _ _ _ _ refl λ progress measured.
                  stop_if-bind P _ _ _ _ (λ _. refl)
                    λ reached. transaction-AllOrNothing Q _ _ _ _ (
                      OnOk-map _ Q _
                        (claim_body-IsClaimed (claim_row id account month.name m.reward_credits)
                          m.name _)
                        λ credits t done. record {
                          mission = m;
                          account = account;
                          id = id;
                          progress = progress;
                          named = or_problem-some _ _ id named;
                          signed_in = or_problem-some _ _ account signed_in;
                          found = found;
                          measured = measured;
                          reached = ground (arith, reached);
                          done = done;
                        })

abbrev pub is_mission : Reason → Bool
is_mission (Reason.monthly_mission name) = true
is_mission _ = false

abbrev pub prize : MissionClaim → ℕ × ℤ
prize x = (x.account, pos x.credits)

-- A mission, an account and a month.
abbrev pub claim_key : ℕ × ℕ × Text → MissionClaim → Bool
claim_key (mission, account, period) x = is_claim mission account period x

-- No mission is claimed twice by an account in a month, and the ledger pays each claim once, in order.
pub record ClaimedOnce (s : State) : Type 0 where
  pub once : NoTwice claim_key s.mission_claims
  pub exact : payments is_mission s.ledger ≡ map prize s.mission_claims

claim_key-own :
    (x : MissionClaim) (k : ℕ × ℕ × Text)
    → claim_key k x ≡ true
    → k ≡ (x.mission, x.account, x.period)
claim_key-own x (mission, account, period) h =
    let same_mission : mission ≡ x.mission = ground arith in
    let same_account : account ≡ x.account = ground arith in
    let same_period : period ≡ x.period = sym (text_eq→eq x.period period (ground arith)) in
    rw (same_mission, same_account, same_period) refl

claimed-ClaimedOnce :
    (name : Text) (x : MissionClaim) (s : State) (credits : ℕ) (t : State)
    → IsClaimed name x s credits t
    → ClaimedOnce s
    → ClaimedOnce t
claimed-ClaimedOnce name x s credits t done h = record {
  once = rw done.noted (
      NoTwice-append claim_key (x.mission, x.account, x.period) x s.mission_claims (claim_key-own x)
        done.fresh h.once);
  exact =
      rw (done.booked, done.noted)
        (payments-append is_mission _ s.ledger refl
          ∙ (ap (λ xs. xs ++ prize x ∷ []) h.exact
              ∙ sym (map-append_one prize x s.mission_claims)));
}

-- A claim, as it reaches the portal.
pub record Claim : Type 0 where
  pub month : Month
  pub path_id : Option ℕ
  pub caller : Option ℕ

-- A sequence of claims on one database.
abbrev pub claims : Telemetry → Text → List Claim → Conn State → Conn State
claims telemetry realm [] c = c
claims telemetry realm (x ∷ xs) c =
    claims telemetry realm xs (claim_player_mission telemetry realm x.month x.path_id x.caller c).1

-- The claims and the wallets agree with the ledger.
abbrev pub IsExact : State → Type 0
IsExact s = ClaimedOnce s × Settled s.wallets s.ledger

outcome-IsExact :
    (telemetry : Telemetry) (realm : Text) (month : Month) (path_id caller : Option ℕ) (s : State)
    (o : Result Problem ℕ × Conn State)
    → AllOrNothing s (IsEarned telemetry realm month path_id caller s) o
    → IsExact s
    → IsExact o.1.tables
outcome-IsExact telemetry realm month path_id caller s (ok credits, d) h (once, settled) =
    let x = claim_row h.id h.account month.name h.mission.reward_credits in
    (
      claimed-ClaimedOnce h.mission.name x s credits d.tables h.done once,
      rw h.done.booked
          (deposit-Settled 0 h.account x.credits (Reason.monthly_mission h.mission.name) s.wallets
            d.tables.wallets s.ledger h.done.paid settled).0,
    )
outcome-IsExact telemetry realm month path_id caller s (err e, d) same h = rw same h

-- No sequence of claims pays a mission twice to an account in a month: if no claim was recorded
-- twice, the ledger paid exactly the recorded claims in their order, and every balance was the sum of its
-- ledger entries, then so it is afterwards, whoever claims what and whichever statements fail.
pub claims-IsExact :
    (telemetry : Telemetry) (realm : Text) (xs : List Claim) (c : Conn State)
    → IsExact c.tables
    → IsExact (claims telemetry realm xs c).tables
claims-IsExact telemetry realm [] c h = h
claims-IsExact telemetry realm (x ∷ xs) c h =
    let o = claim_player_mission telemetry realm x.month x.path_id x.caller c in
    claims-IsExact telemetry realm xs o.1 (
      outcome-IsExact telemetry realm x.month x.path_id x.caller c.tables o
        (claim_player_mission-AllOrNothing telemetry realm x.month x.path_id x.caller c) h)
