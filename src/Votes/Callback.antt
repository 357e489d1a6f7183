-- ===== src/Votes/Callback.antt =====
-- internal/web/votes.go, `voteSiteCallback` and `visitVoteSite`. The account database, the parsing of
-- an IP address and SHA-256 are arguments; `now` is UTC_TIMESTAMP() in seconds. Notifications
-- are left out.
use azeroth_core_web.Base.{
  ℕ, ◌+◌, ◌*◌, ◌&&◌, ◌||◌, not, Bool, false, Option, none, some, List, [], ◌∷◌, ◌++◌, Text, text_eq,
  ◌==◌, ltb, if◌then◌else◌, find_if, count_if, trim_space, to_upper, codes, length, trim_prefix,
}
use azeroth_core_web.Base.Int.{pos}
use azeroth_core_web.Http.{Problem, problem, or_problem}
use azeroth_core_web.Db.{
  Exec, Result, ok, err, exec, update, query, transaction, stop_if, pure, lift, attempt, ◌>>=◌,
  ◌>>◌,
}
use azeroth_core_web.Tables.{State, VoteSite, VoteEvent, Reason}
use azeroth_core_web.Wallet.{deposit, entry, with_wallets}

-- What the provider sends, and when.
pub record VoteCall : Type 0 where
  pub authorization : Text
  pub slug : Text
  pub username : Text
  pub event : Text
  pub ip : Text
  pub now : ℕ

-- What the portal is configured with, and the libraries that it calls.
pub record VoteConfig : Type 0 where
  pub realm : Text
  pub secret : Text
  pub account_named : Text → Option ℕ
  pub parse_ip : Text → Option Text
  pub sha256 : Text → Text

-- How a callback ends without an award: with a problem, or as one that was rewarded before.
pub data NoAward : Type 0 where
  refused : Problem → NoAward
  duplicate : NoAward

abbrev pub site_here : Text → Text → VoteSite → Bool
site_here realm slug v = text_eq v.slug slug && text_eq v.realm_key realm && v.active

abbrev pub is_event : ℕ → Text → VoteEvent → Bool
is_event site event v = (v.site == site) && text_eq v.event event

-- `voted_at>UTC_TIMESTAMP()-INTERVAL ? MINUTE`
abbrev pub is_recent : ℕ → ℕ → VoteEvent → Bool
is_recent cooldown now v = ltb now (v.voted_at + cooldown * 60)

-- `site_id=? AND account_id=? AND voted_at>...`
abbrev pub recent_of : ℕ → ℕ → ℕ → ℕ → VoteEvent → Bool
recent_of site account cooldown now v =
    (v.site == site) && (v.account == account) && is_recent cooldown now v

-- `ip_hash=?`: NULL equals nothing.
unfoldable pub same_hash : Option Text → Text → Bool
same_hash none hash = false
same_hash (some known) hash = text_eq known hash

-- `site_id=? AND ip_hash=? AND voted_at>...`
abbrev pub recent_from : ℕ → Text → ℕ → ℕ → VoteEvent → Bool
recent_from site hash cooldown now v =
    (v.site == site) && same_hash v.ip_hash hash && is_recent cooldown now v

-- The secret, a zero byte and the address, hashed.
unfoldable pub hash_ip : VoteConfig → Text → Text
hash_ip config address = config.sha256 (config.secret ++ 0 ∷ address)

-- `INSERT IGNORE INTO portal_vote_events`: the site and the provider's event are a unique key.
unfoldable pub new_vote : ℕ → Text → State → ℕ
new_vote site event s = if ltb 0 (count_if (is_event site event) s.vote_events) then 0 else 1

unfoldable pub record_vote : VoteEvent → State → State
record_vote v s =
    if ltb 0 (count_if (is_event v.site v.event) s.vote_events)
    then s
    else record s { vote_events = s.vote_events ++ v ∷ [] }

abbrev pub audit_vote : Text → State → State
audit_vote username s = record s {
  audits = s.audits ++ record { actor = 0; action = codes "vote.reward"; target = username } ∷ [];
}

-- `net.ParseIP`, nil where the text is no address
abbrev pub parsed : Option Text → Result NoAward Text
parsed none = err (refused (problem 422 "ip must be a valid voter IPv4 or IPv6 address"))
parsed (some address) = ok address

-- The cooldown of the voter's network, where the provider tells the address.
unfoldable pub check_network : VoteConfig → VoteCall → VoteSite → Exec State NoAward (Option Text)
check_network config r v = if text_eq (trim_space r.ip) [] then pure none else (do
  address ← lift (parsed (config.parse_ip (trim_space r.ip)))
  recent ← query (refused (problem 500 "Could not validate vote network cooldown")) (λ s.
      some (
        count_if (recent_from v.id (hash_ip config address) v.cooldown_minutes r.now)
          s.vote_events))
  stop_if (ltb 0 recent) (
      refused
        (problem 409 "This voting site was already rewarded from that network during its cooldown"))
  pure (some (hash_ip config address)))

abbrev pub vote_row : Text → VoteCall → VoteSite → ℕ → Text → Option Text → VoteEvent
vote_row realm r v account event hash = record {
  site = v.id;
  account = account;
  realm_key = realm;
  event = event;
  credits = v.reward_credits;
  ip_hash = hash;
  voted_at = r.now;
}

-- The statements that pay for a vote.
unfoldable pub award : Text → Text → VoteSite → ℕ → Exec State NoAward ℕ
award slug username v account = do
  exec (refused (problem 500 "Could not award vote"))
      (λ s. with_wallets s (deposit account v.reward_credits s.wallets))
  update (refused (problem 500 "Could not award vote")) (λ _. tt {0})
      (λ s. record s {
        ledger =
            s.ledger ++ entry 0 account (pos v.reward_credits) (Reason.verified_vote slug) ∷ [];
      })
  update (refused (problem 500 "Could not award vote")) (λ _. tt {0}) (audit_vote username)
  pure v.reward_credits

unfoldable pub callback_body : VoteConfig → VoteCall → Text → Text → Exec State NoAward ℕ
callback_body config r username event = do
  v ←
      query (refused (problem 404 "Voting site not found"))
        (λ s. find_if (site_here config.realm r.slug) s.vote_sites)
  account ← query (refused (problem 404 "Account not found")) (λ _. config.account_named username)
  known ←
      query (refused (problem 500 "Could not validate vote event"))
        (λ s. some (count_if (is_event v.id event) s.vote_events))
  stop_if (ltb 0 known) duplicate
  recent ←
      query (refused (problem 409 "Vote is inside the site cooldown"))
        (λ s. some (count_if (recent_of v.id account v.cooldown_minutes r.now) s.vote_events))
  stop_if (ltb 0 recent) (refused (problem 409 "Vote is inside the site cooldown"))
  hash ← check_network config r v
  inserted ←
      update (refused (problem 500 "Could not record vote")) (new_vote v.id event)
        (record_vote (vote_row config.realm r v account event hash))
  stop_if (inserted == 0) duplicate
  award r.slug username v account

-- `s.c.VoteCallbackSecret == "" || len(provided) != len(...) || ConstantTimeCompare(...) != 1`
unfoldable pub has_secret : VoteConfig → VoteCall → Bool
has_secret config r =
    let provided = trim_prefix r.authorization (codes "Bearer ") in
    not (text_eq config.secret [])
    && (length provided == length config.secret)
    && text_eq provided config.secret

unfoldable pub bad_names : Text → Text → Bool
bad_names username event =
    text_eq username [] || ltb 32 (length username) || text_eq event [] || ltb 128 (length event)

abbrev pub caller_name : VoteCall → Text
caller_name r = to_upper (trim_space r.username)

abbrev pub event_name : VoteCall → Text
event_name r = trim_space r.event

-- `voteSiteCallback`: the credits that were awarded
unfoldable pub vote_site_callback : VoteConfig → VoteCall → Exec State NoAward ℕ
vote_site_callback config r = do
  stop_if (not (has_secret config r)) (refused (problem 401 "Invalid vote callback credentials"))
  stop_if (bad_names (caller_name r) (event_name r))
      (refused (problem 422 "username and a unique eventId are required"))
  transaction (refused (problem 503 "Database unavailable"))
      (refused (problem 500 "Could not award vote"))
      (callback_body config r (caller_name r) (event_name r))

abbrev pub later : ℕ → Option ℕ → ℕ
later a none = a
later a (some b) = if ltb a b then b else a

-- `MAX(voted_at)`, NULL where there is no row.
unfoldable pub last_vote : ℕ → ℕ → List VoteEvent → Option ℕ
last_vote site account [] = none
last_vote site account (v ∷ votes) =
    let rest = last_vote site account votes in
    if (v.site == site) && (v.account == account) then some (later v.voted_at rest) else rest

-- `last.Valid && last.Time.Add(cooldown).After(time.Now())`
unfoldable pub is_cooling : Option ℕ → ℕ → ℕ → Bool
is_cooling none cooldown now = false
is_cooling (some t) cooldown now = ltb now (t + cooldown * 60)

abbrev pub site_with : ℕ → Text → VoteSite → Bool
site_with id realm v = (v.id == id) && text_eq v.realm_key realm && v.active

-- `SELECT url,cooldown_minutes,(SELECT MAX(voted_at) ...) FROM portal_vote_sites ...`
unfoldable pub site_and_last : Text → ℕ → ℕ → State → Option (VoteSite × Option ℕ)
site_and_last realm id account s = elim (find_if (site_with id realm) s.vote_sites) [
  | none ↦ none
  | some v ↦ some (v, last_vote id account s.vote_events)
]

-- `visitVoteSite`: the address of the site
unfoldable pub visit_vote_site : Text → ℕ → Option ℕ → Option ℕ → Exec State Problem Text
visit_vote_site realm now caller path_id = do
  account ← lift (or_problem caller (problem 401 "Sign in required"))
  id ← lift (or_problem path_id (problem 400 "Invalid voting site"))
  (v, last) ← query (problem 404 "Voting site not found") (site_and_last realm id account)
  stop_if (is_cooling last v.cooldown_minutes now)
      (problem 409 "This voting site is still on cooldown")
  attempt (λ s. record s {
    vote_clicks = s.vote_clicks ++ record { site = id; account = account; realm_key = realm } ∷ [];
  })
  pure v.url
