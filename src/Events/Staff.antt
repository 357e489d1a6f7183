-- ===== src/Events/Staff.antt =====
-- internal/web/events.go: what staff do with the participants of an event, adminEventParticipantStatus,
-- adminEventRewards and rewardEventAccount.
use azeroth_core_web.Base.{
  ℕ, ◌&&◌, ◌||◌, not, Bool, true, false, Option, none, some, List, [], ◌∷◌, ◌++◌, Text, ◌==◌, ltb,
  if◌then◌else◌, find_if, count_if, update_if, codes, length, trim_space, to_lower, contains_num,
}
use azeroth_core_web.Base.Int.{pos}
use azeroth_core_web.Http.{Problem, problem, or_problem}
use azeroth_core_web.Db.{
  Conn, Result, ok, err, Exec, exec, update, query, transaction, attempt, stop_if, pure, lift,
  ◌>>=◌, ◌>>◌,
}
use azeroth_core_web.Tables.{State, EventGrant, Attendance, Reason}
use azeroth_core_web.Wallet.{deposit, entry, with_wallets}
use azeroth_core_web.Events.{
  event_here, is_registration, attendance_of, has_other, read_attendance, participant,
}

-- `adminEventParticipantStatus`
unfoldable pub set_attendance : Option ℕ → Option ℕ → Option ℕ → Text → Exec State Problem Unit
set_attendance caller path_event path_account text = do
  actor ← lift (or_problem caller (problem 403 "Content access required"))
  id ← lift (or_problem path_event (problem 400 "Invalid event participant"))
  account ← lift (or_problem path_account (problem 400 "Invalid event participant"))
  status ← lift (
      or_problem (read_attendance (to_lower (trim_space text)))
        (problem 422 "Invalid attendance status"))
  changed ←
      update (problem 500 "Could not update attendance")
        (λ s. count_if (has_other id account status) s.registrations)
        (λ s. record s {
          registrations =
              update_if (is_registration id account) (λ g. record g { status = status })
                s.registrations;
        })
  stop_if (changed == 0) (problem 404 "Event participant not found")
  attempt (λ s. record s {
    audits =
        s.audits
        ++ record {
          actor = actor;
          action = codes "event.attendance";
          target = participant id account;
        }
          ∷ [];
  })

-- How a reward ends without one, with the message.
pub data NoReward : Type 0 where
  skipped duplicate failed : Text → NoReward

abbrev pub is_attended : Option Attendance → Bool
is_attended (some Attendance.attended) = true
is_attended _ = false

abbrev pub is_grant : ℕ → ℕ → EventGrant → Bool
is_grant event account g = (g.event == event) && (g.account == account)

-- `INSERT IGNORE INTO portal_event_reward_grants`: the event and the account are the primary key.
unfoldable pub new_grant : EventGrant → State → ℕ
new_grant g s = if ltb 0 (count_if (is_grant g.event g.account) s.event_grants) then 0 else 1

unfoldable pub record_grant : EventGrant → State → State
record_grant g s =
    if ltb 0 (count_if (is_grant g.event g.account) s.event_grants)
    then s
    else record s { event_grants = s.event_grants ++ g ∷ [] }

abbrev pub grant_row : ℕ → ℕ → ℕ → ℕ → Text → EventGrant
grant_row event account credits actor reason = record {
  event = event;
  account = account;
  credits = credits;
  granted_by = actor;
  reason = reason;
}

-- The statements that pay a grant.
unfoldable pub pay_grant : EventGrant → Exec State NoReward ℕ
pay_grant g = do
  changed ← update (failed (codes "Could not record reward")) (new_grant g) (record_grant g)
  stop_if (changed == 0) (duplicate (codes "Reward already granted"))
  exec (failed (codes "Could not credit wallet"))
      (λ s. with_wallets s (deposit g.account g.credits s.wallets))
  update (failed (codes "Could not credit wallet")) (λ _. tt {0})
      (λ s. record s {
        ledger =
            s.ledger
            ++ entry g.granted_by g.account (pos g.credits) (Reason.event_reward g.reason) ∷ [];
      })
  pure g.credits

unfoldable pub reward_body : Text → ℕ → ℕ → ℕ → Text → Exec State NoReward ℕ
reward_body realm actor id account reason = do
  e ←
      query (skipped (codes "Event has no configured credit reward"))
        (λ s. find_if (event_here id realm) s.events)
  stop_if (e.reward_credits == 0) (skipped (codes "Event has no configured credit reward"))
  status ← query (skipped (codes "Attendance is not confirmed")) (attendance_of id account)
  stop_if (not (is_attended (some status))) (skipped (codes "Attendance is not confirmed"))
  pay_grant (grant_row id account e.reward_credits actor reason)

-- `rewardEventAccount`: the credits that the account got
unfoldable pub reward_event_account : Text → ℕ → ℕ → ℕ → Text → Exec State NoReward ℕ
reward_event_account realm actor id account reason =
    transaction (failed (codes "Database unavailable")) (failed (codes "Could not credit wallet"))
      (reward_body realm actor id account reason)

-- One line of the response: the account and how its reward ended.
pub record RewardResult : Type 0 where
  pub account : ℕ
  pub outcome : Result NoReward ℕ

abbrev pub not_tried : ℕ → RewardResult
not_tried account = record {
  account = account;
  outcome = err (skipped (codes "Invalid or duplicate account"));
}

-- The accounts one after the other; `seen` has those that were tried.
abbrev pub reward_each :
    Text → ℕ → ℕ → Text → List ℕ → List ℕ → Conn State → List RewardResult × Conn State
reward_each realm actor id reason seen [] c = ([], c)
reward_each realm actor id reason seen (account ∷ accounts) c =
    if (account == 0) || contains_num seen account
    then (let (rest, d) = reward_each realm actor id reason seen accounts c in
        (not_tried account ∷ rest, d))
    else (let (outcome, d) = reward_event_account realm actor id account reason c in
        let (rest, e) = reward_each realm actor id reason (account ∷ seen) accounts d in
        (record { account = account; outcome = outcome } ∷ rest, e))

-- `adminEventRewards`
unfoldable pub admin_event_rewards :
    Text
    → Option ℕ
    → Option ℕ
    → List ℕ
    → Text
    → Conn State
    → Result Problem (List RewardResult) × Conn State
admin_event_rewards realm none path_id accounts reason c =
    (err (problem 403 "Credit management access required"), c)
admin_event_rewards realm (some actor) none accounts reason c =
    (err (problem 400 "Invalid event"), c)
admin_event_rewards realm (some actor) (some id) accounts reason c =
    let text = trim_space reason in
    if id == 0
    then (err (problem 400 "Invalid event"), c)
    else (if (length accounts == 0)
          || ltb 100 (length accounts)
          || ltb (length text) 3
          || ltb 255 (length text)
        then (err (problem 422 "Choose 1–100 accounts and provide a reward reason"), c)
        else (let (results, d) = reward_each realm actor id text [] accounts c in (ok results, d)))
