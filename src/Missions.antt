-- ===== src/Missions.antt =====
-- internal/web/reward_progress.go: missions of a month, their claims, and the levels of loyalty. The
-- telemetry of the realm is an argument, and so are the start of the month, in seconds, and
-- the month's name; notifications are left out.
pub mod Once
pub mod Loyalty
use azeroth_core_web.Base.{
  ℕ, ◌&&◌, ◌||◌, not, Bool, true, false, Option, none, some, List, [], ◌∷◌, ◌++◌, Text, text_eq,
  ◌==◌, ltb, leb, if◌then◌else◌, find_if, count_if, codes, length, trim_space, to_lower,
}
use azeroth_core_web.Base.Int.{pos}
use azeroth_core_web.Http.{Problem, problem, or_problem}
use azeroth_core_web.Db.{Exec, exec, update, query, transaction, stop_if, pure, lift, ◌>>=◌, ◌>>◌}
use azeroth_core_web.Tables.{State, Mission, MissionClaim, VoteEvent, Reason}
use azeroth_core_web.Wallet.{deposit, entry, with_wallets}

-- What the realm reports of an account since a time; `none` where a query fails. `characters`
-- counts the account's characters.
pub record Telemetry : Type 0 where
  pub achievements : ℕ → ℕ → Option ℕ
  pub characters : ℕ → Option ℕ
  pub raid_kills : ℕ → ℕ → Option ℕ
  pub honorable_kills : ℕ → ℕ → Option ℕ

-- The month in which a request falls: when it began, and its name.
pub record Month : Type 0 where
  pub start : ℕ
  pub name : Text

-- `account_id=? AND realm_key=? AND voted_at>=?`
abbrev pub voted_since : ℕ → Text → ℕ → VoteEvent → Bool
voted_since account realm since v =
    (v.account == account) && text_eq v.realm_key realm && leb since v.voted_at

-- The kills of an account's characters: none without a character.
unfoldable pub kills_of : Option ℕ → Option ℕ → Option ℕ
kills_of none kills = none
kills_of (some characters) kills = if characters == 0 then some 0 else kills

-- `missionProgress`
unfoldable pub mission_progress : Telemetry → Text → ℕ → Text → ℕ → State → Option ℕ
mission_progress realm_data realm account metric since s =
    if text_eq metric (codes "verified_votes")
    then some (count_if (voted_since account realm since) s.vote_events)
    else (if text_eq metric (codes "achievements")
        then realm_data.achievements account since
        else (if text_eq metric (codes "raid_kills")
            then kills_of (realm_data.characters account) (realm_data.raid_kills account since)
            else (if text_eq metric (codes "honorable_kills")
                then kills_of (realm_data.characters account)
                    (realm_data.honorable_kills account since)
                else none)))

abbrev pub mission_here : ℕ → Text → Mission → Bool
mission_here id realm m = (m.id == id) && text_eq m.realm_key realm && m.active

abbrev pub is_claim : ℕ → ℕ → Text → MissionClaim → Bool
is_claim mission account period x =
    (x.mission == mission) && (x.account == account) && text_eq x.period period

-- `INSERT IGNORE INTO portal_mission_claims`: mission, account and period are the primary key.
unfoldable pub new_claim : MissionClaim → State → ℕ
new_claim x s =
    if ltb 0 (count_if (is_claim x.mission x.account x.period) s.mission_claims) then 0 else 1

unfoldable pub record_claim : MissionClaim → State → State
record_claim x s =
    if ltb 0 (count_if (is_claim x.mission x.account x.period) s.mission_claims)
    then s
    else record s { mission_claims = s.mission_claims ++ x ∷ [] }

abbrev pub claim_row : ℕ → ℕ → Text → ℕ → MissionClaim
claim_row mission account period credits = record {
  mission = mission;
  account = account;
  period = period;
  credits = credits;
}

unfoldable pub claim_body : MissionClaim → Text → Exec State Problem ℕ
claim_body x name = do
  changed ← update (problem 500 "Could not claim mission") (new_claim x) (record_claim x)
  stop_if (not (changed == 1)) (problem 409 "Mission reward already claimed")
  exec (problem 500 "Could not credit mission reward")
      (λ s. with_wallets s (deposit x.account x.credits s.wallets))
  update (problem 500 "Could not credit mission reward") (λ _. tt {0})
      (λ s. record s {
        ledger = s.ledger ++ entry 0 x.account (pos x.credits) (Reason.monthly_mission name) ∷ [];
      })
  pure x.credits

-- `claimPlayerMission`: the credits that the account got
unfoldable pub claim_player_mission :
    Telemetry → Text → Month → Option ℕ → Option ℕ → Exec State Problem ℕ
claim_player_mission realm_data realm month path_id caller = do
  id ← lift (or_problem path_id (problem 400 "Invalid mission"))
  stop_if (id == 0) (problem 400 "Invalid mission")
  account ← lift (or_problem caller (problem 401 "Sign in required"))
  m ← query (problem 404 "Mission not found") (λ s. find_if (mission_here id realm) s.missions)
  progress ←
      query (problem 503 "Mission progress is temporarily unavailable")
        (mission_progress realm_data realm account m.metric month.start)
  stop_if (ltb progress m.target) (problem 409 "Mission target has not been reached")
  transaction (problem 503 "Database unavailable") (problem 500 "Could not credit mission reward")
      (claim_body (claim_row id account month.name m.reward_credits) m.name)
