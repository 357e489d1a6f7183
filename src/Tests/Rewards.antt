-- ===== src/Tests/Rewards.antt =====
-- A vote for the sample site, a claim of the sample mission and a reward for the sample event.
use azeroth_core_web.Base.{
  get_elem?, ◌≡◌, ◌≤◌, ◌-◌, refl, some, none, true, List, [], ◌∷◌, codes, find_if, count_if, arith,
  update_if, if◌then◌else◌, text_eq, trim_space, upper, is_space, trim_left, contains_num, ltb,
  trim_prefix, has_prefix,
}
use azeroth_core_web.Base.Int.{◌+ℤ◌}
use azeroth_core_web.Db.{
  ok, transaction, ◌>>=◌, pure, lift, exec, update, query, query_or, stop_if, attempt,
}
use azeroth_core_web.Db.Atomic.{AllOrNothing}
use azeroth_core_web.Tables.{VoteEvent}
use azeroth_core_web.Wallet.{balance_of, deposit, set_balance}
use azeroth_core_web.Wallet.Settled.{Settled}
use azeroth_core_web.Votes.Callback.{
  VoteCall, VoteConfig, vote_site_callback, callback_body, check_network, award, has_secret,
  bad_names, new_vote, record_vote, hash_ip, same_hash, last_vote, is_cooling, recent_of,
}
use azeroth_core_web.Votes.Once.{
  IsAwarded, RewardedOnce, callbacks, vote_site_callback-AllOrNothing, callbacks-RewardedOnce,
}
use azeroth_core_web.Votes.Cooldown.{is_cooling-last_vote}
use azeroth_core_web.Missions.{
  Telemetry, Month, claim_player_mission, claim_body, mission_progress, kills_of, new_claim,
  record_claim,
}
use azeroth_core_web.Missions.Once.{
  IsEarned, Claim, IsExact, claims, claim_player_mission-AllOrNothing, claims-IsExact,
}
use azeroth_core_web.Missions.Loyalty.{
  levels, reached, IsNext, loyalty_for_points, loyalty_for_points_exact,
}
use azeroth_core_web.Events.{Action, attendance_of}
use azeroth_core_web.Events.Staff.{
  admin_event_rewards, reward_event_account, reward_body, pay_grant, new_grant, record_grant,
}
use azeroth_core_web.Events.Once.{GrantedOnce, admin_event_rewards-GrantedOnce}
use azeroth_core_web.Events.Places.{WithinCapacity}
use azeroth_core_web.Events.Capacity.{Ask, asks, asks-WithinCapacity}
use azeroth_core_web.Tests.Samples.{realm, wallets, ledger, tables, conn}

abbrev config : VoteConfig
config = record {
  realm = realm;
  secret = codes "s3cret";
  account_named = λ name. if text_eq name (codes "ANNA") then some 7 else none;
  parse_ip = λ s. some s;
  sha256 = λ s. s;
}

abbrev call : VoteCall
call = record {
  authorization = codes "Bearer s3cret";
  slug = codes "top";
  username = codes " anna";
  event = codes "e1";
  ip = codes "10.0.0.1";
  now = 100000;
}

Settled-at_start : Settled wallets ledger
unfolding balance_of find_if ◌+ℤ◌
Settled-at_start a = ground arith

RewardedOnce-at_start : RewardedOnce tables
unfolding count_if
RewardedOnce-at_start = record { once = λ k. ground arith; exact = refl }

vote_site_callback-AllOrNothing_example :
    AllOrNothing tables (IsAwarded config call tables) (vote_site_callback config call conn)
vote_site_callback-AllOrNothing_example = vote_site_callback-AllOrNothing config call conn

abbrev twice : List VoteCall
twice = call ∷ record call { now = 900000 } ∷ []

callbacks-RewardedOnce_example :
    let t = (callbacks config twice conn).tables in RewardedOnce t × Settled t.wallets t.ledger
callbacks-RewardedOnce_example =
    callbacks-RewardedOnce config twice conn RewardedOnce-at_start Settled-at_start

vote_accepted : (vote_site_callback config call conn).0 ≡ ok 20
unfolding transaction ◌>>=◌ pure lift exec update query query_or stop_if attempt find_if count_if
    update_if text_eq balance_of deposit set_balance vote_site_callback callback_body check_network
    award has_secret bad_names trim_prefix has_prefix trim_space trim_left is_space upper hash_ip
    new_vote record_vote same_hash
vote_accepted = refl

-- The second call pays nothing.
vote_paid_once : balance_of 7 (callbacks config twice conn).tables.wallets ≡ some 520
unfolding transaction ◌>>=◌ pure lift exec update query query_or stop_if attempt find_if count_if
    update_if text_eq balance_of deposit set_balance vote_site_callback callback_body check_network
    award has_secret bad_names trim_prefix has_prefix trim_space trim_left is_space upper hash_ip
    new_vote record_vote same_hash
vote_paid_once = refl

abbrev vote : VoteEvent
vote = record {
  site = 3;
  account = 7;
  realm_key = realm;
  event = codes "e1";
  credits = 20;
  ip_hash = none;
  voted_at = 1000;
}

is_cooling-last_vote_example :
    is_cooling (last_vote 3 7 (vote ∷ [])) 720 2000
    ≡ ltb 0 (count_if (recent_of 3 7 720 2000) (vote ∷ []))
is_cooling-last_vote_example = is_cooling-last_vote 3 7 720 2000 (vote ∷ [])

abbrev telemetry : Telemetry
telemetry = record {
  achievements = λ account since. some 0;
  characters = λ account. some 1;
  raid_kills = λ account since. some 0;
  honorable_kills = λ account since. some 0;
}

abbrev month : Month
month = record { start = 0; name = codes "2024-05" }

claim_player_mission-AllOrNothing_example :
    AllOrNothing tables
      (IsEarned telemetry realm month (some 4) (some 7) tables)
      (claim_player_mission telemetry realm month (some 4) (some 7) conn)
claim_player_mission-AllOrNothing_example =
    claim_player_mission-AllOrNothing telemetry realm month (some 4) (some 7) conn

abbrev claim : Claim
claim = record { month = month; path_id = some 4; caller = some 7 }

IsExact-at_start : IsExact tables
unfolding count_if
IsExact-at_start = (record { once = λ k. ground arith; exact = refl }, Settled-at_start)

claims-IsExact_example : IsExact (claims telemetry realm (claim ∷ claim ∷ []) conn).tables
claims-IsExact_example = claims-IsExact telemetry realm (claim ∷ claim ∷ []) conn IsExact-at_start

-- Two votes and two claims: the mission is paid once.
claim_paid_once :
    balance_of 7
      (claims telemetry realm
        (claim ∷ claim ∷ [])
        (record conn { tables = record tables { vote_events = vote ∷ vote ∷ [] } })).tables.wallets
    ≡ some 530
unfolding transaction ◌>>=◌ pure lift exec update query query_or stop_if attempt find_if count_if
    update_if text_eq balance_of deposit set_balance claim_player_mission claim_body
    mission_progress kills_of new_claim record_claim
claim_paid_once = refl

loyalty_for_points_exact_example :
    let l = loyalty_for_points 120 in
    (l.points ≡ 120)
    × (get_elem? levels (reached 120 - 1)
        ≡ some record { name = l.name; description = l.description; floor = l.floor })
    × (l.floor ≤ 120)
    × IsNext l (get_elem? levels (reached 120))
loyalty_for_points_exact_example = loyalty_for_points_exact 120

GrantedOnce-at_start : GrantedOnce tables
unfolding count_if
GrantedOnce-at_start = record { once = λ k. ground arith; exact = refl; settled = Settled-at_start }

admin_event_rewards-GrantedOnce_example :
    GrantedOnce
      (admin_event_rewards realm (some 1) (some 9) (7 ∷ 7 ∷ []) (codes "raid") conn).1.tables
admin_event_rewards-GrantedOnce_example =
    admin_event_rewards-GrantedOnce realm (some 1) (some 9) (7 ∷ 7 ∷ []) (codes "raid") conn
      GrantedOnce-at_start

reward_paid_once :
    balance_of 7
      (admin_event_rewards realm
        (some 1)
        (some 9)
        (7 ∷ 7 ∷ [])
        (codes "raid")
        conn).1.tables.wallets
    ≡ some 515
unfolding transaction ◌>>=◌ pure lift exec update query query_or stop_if attempt find_if count_if
    update_if text_eq balance_of deposit set_balance admin_event_rewards reward_event_account
    reward_body pay_grant new_grant record_grant attendance_of trim_space trim_left is_space
    contains_num
reward_paid_once = refl

WithinCapacity-at_start : WithinCapacity realm tables
unfolding count_if find_if text_eq
WithinCapacity-at_start = record {
  one_row = λ k. ground arith;
  fits = λ id e found limited. ground (arith, found);
}

abbrev requests : List Ask
requests =
    record { caller = some 8; path_id = some 9; now = 1000; action = Action.register 80 }
    ∷ record { caller = some 10; path_id = some 9; now = 1000; action = Action.register 90 }
    ∷ []

asks-WithinCapacity_example :
    WithinCapacity realm (asks (λ character account. true) realm requests conn).tables
asks-WithinCapacity_example =
    asks-WithinCapacity (λ character account. true) realm requests conn WithinCapacity-at_start
