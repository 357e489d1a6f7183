-- ===== src/Votes/Once.antt =====
-- internal/web/votes.go, `voteSiteCallback`: an event of a provider is rewarded once.
use azeroth_core_web.Base.{
  ℕ, ◌≡◌, refl, sym, ap, ◌∙◌, map, text_eq→eq, Bool, true, false, Option, none, some, List, [], ◌∷◌,
  ◌++◌, Text, text_eq, ◌==◌, arith, find_if, count_if, trim_space,
}
use azeroth_core_web.Base.Int.{ℤ, pos}
use azeroth_core_web.Db.{Conn, Result, ok, err}
use azeroth_core_web.Db.Rules.{
  exec-bind, query-bind, update-bind, stop_if-bind, lift-bind, pure_end, branch,
}
use azeroth_core_web.Db.Atomic.{OnOk, AllOrNothing, transaction-AllOrNothing, chain, OnOk-map}
use azeroth_core_web.Tables.{State, VoteSite, VoteEvent, Reason}
use azeroth_core_web.Wallet.{deposit, entry, with_wallets_eq}
use azeroth_core_web.Wallet.Settled.{Settled, deposit-Settled}
use azeroth_core_web.Wallet.Payments.{
  NoTwice, NoTwice-append, payments, payments-append, map-append_one,
}
use azeroth_core_web.Votes.Callback.{
  VoteCall, VoteConfig, NoAward, site_here, is_event, recent_of, recent_from, parsed, hash_ip,
  vote_row, check_network, new_vote, record_vote, award, callback_body, has_secret, bad_names,
  caller_name, event_name, vote_site_callback,
}

-- What the books show of a vote: the row of the event, the entry of the ledger and the wallet.
pub record IsPaid (slug : Text) (row : VoteEvent) (s t : State) : Type 0 where
  pub noted : t.vote_events ≡ s.vote_events ++ row ∷ []
  pub paid : deposit row.account row.credits s.wallets ≡ some t.wallets
  pub booked :
      t.ledger ≡ s.ledger ++ entry 0 row.account (pos row.credits) (Reason.verified_vote slug) ∷ []

-- The network was not rewarded within the cooldown, or the provider told no address.
abbrev pub IsFreshNetwork : VoteConfig → VoteCall → VoteSite → Option Text → State → Type 0
IsFreshNetwork config r v none s = trim_space r.ip ≡ []
IsFreshNetwork config r v (some hash) s =
    (address : Text) × (config.parse_ip (trim_space r.ip) ≡ some address)
    × (hash ≡ config.sha256 (config.secret ++ 0 ∷ address))
    × (count_if (recent_from v.id hash v.cooldown_minutes r.now) s.vote_events ≡ 0)

-- What a callback that is rewarded has found and done.
pub record IsAwarded (config : VoteConfig) (r : VoteCall) (s : State) (credits : ℕ) (t : State)
    : Type 0 where
  pub authorized : has_secret config r ≡ true
  pub named : bad_names (caller_name r) (event_name r) ≡ false
  pub site : VoteSite
  pub account : ℕ
  pub hash : Option Text
  pub found : find_if (site_here config.realm r.slug) s.vote_sites ≡ some site
  pub voter : config.account_named (caller_name r) ≡ some account
  pub worth : credits ≡ site.reward_credits
  pub fresh : count_if (is_event site.id (event_name r)) s.vote_events ≡ 0
  pub rested : count_if (recent_of site.id account site.cooldown_minutes r.now) s.vote_events ≡ 0
  pub network : IsFreshNetwork config r site hash s
  pub done : IsPaid r.slug (vote_row config.realm r site account (event_name r) hash) s t

parsed_ok :
    (found : Option Text) (address : Text) → parsed found ≡ ok address → found ≡ some address
parsed_ok none address h = cc
parsed_ok (some known) address h = cc

check_network-IsFreshNetwork :
    (config : VoteConfig) (r : VoteCall) (v : VoteSite) (c : Conn State)
    → OnOk
        (λ hash t. (t ≡ c.tables) × IsFreshNetwork config r v hash t)
        (check_network config r v c)
unfolding check_network hash_ip
check_network-IsFreshNetwork config r v c =
    let P =
      OnOk {E = NoAward}
        (λ (hash : Option Text) (t : State). (t ≡ c.tables) × IsFreshNetwork config r v hash t) in
    branch P (text_eq (trim_space r.ip) []) _ _ c
      (λ empty. pure_end P _ _ (refl, text_eq→eq (trim_space r.ip) [] empty))
      (λ _.
        lift-bind P _ _ _ (λ _ _. tt)
          λ address valid. query-bind P _ _ _ _ tt λ recent count.
            stop_if-bind P _ _ _ _ (λ _. tt)
              λ quiet.
                pure_end P _ _
                  (refl, (address, parsed_ok _ address valid, refl, ground (arith, count, quiet))))

record_vote_eq :
    (v : VoteEvent) (s : State)
    → (new_vote v.site v.event s == 0) ≡ false
    → (count_if (is_event v.site v.event) s.vote_events ≡ 0)
      × (record_vote v s ≡ record s { vote_events = s.vote_events ++ v ∷ [] })
unfolding new_vote record_vote
record_vote_eq v s h = (ground arith, ground arith)

award-IsPaid :
    (slug username : Text) (v : VoteSite) (row : VoteEvent) (s : State) (c : Conn State)
    → row.credits ≡ v.reward_credits
    → c.tables ≡ record s { vote_events = s.vote_events ++ row ∷ [] }
    → OnOk
        (λ credits t. (credits ≡ v.reward_credits) × IsPaid slug row s t)
        (award slug username v row.account c)
unfolding award
award-IsPaid slug username v row s c worth before =
    let P =
      OnOk {E = NoAward}
        (λ (credits : ℕ) (t : State). (credits ≡ v.reward_credits) × IsPaid slug row s t) in
    exec-bind P _ _ _ _ tt λ a t paid.
      let (wallets, deposited, moved) = with_wallets_eq c.tables _ paid in
      update-bind P _ _ _ _ _ tt (
        update-bind P _ _ _ _ _ tt (
          pure_end P _ _ (
            refl,
            rw (moved, before)
                (record {
                  noted = refl;
                  paid = rw (worth) (rw before at deposited);
                  booked = rw worth refl;
                }),
          )))

callback_body-IsAwarded :
    (config : VoteConfig) (r : VoteCall) (c : Conn State)
    → has_secret config r ≡ true
    → bad_names (caller_name r) (event_name r) ≡ false
    → OnOk (IsAwarded config r c.tables) (callback_body config r (caller_name r) (event_name r) c)
unfolding callback_body
callback_body-IsAwarded config r c authorized named =
    let Q = IsAwarded config r c.tables in
    let P = OnOk {E = NoAward} Q in
    query-bind P _ _ _ c tt λ v found. query-bind P _ _ _ _ tt λ account voter.
      query-bind P _ _ _ _ tt λ known count.
        stop_if-bind P _ _ _ _ (λ _. tt)
          λ fresh. query-bind P _ _ _ _ tt λ recent rest.
            stop_if-bind P _ _ _ _ (λ _. tt)
              λ rested.
                chain
                  (λ (hash : Option Text) (t : State).
                    (t ≡ c.tables) × IsFreshNetwork config r v hash t)
                  Q _ _ _ (check_network-IsFreshNetwork config r v _)
                  λ hash d quiet. update-bind P _ _ _ _ _ tt (
                    stop_if-bind P _ _ _ _ (λ _. tt)
                      λ inserted.
                        let row = vote_row config.realm r v account (event_name r) hash in
                        let (once, wrote) = record_vote_eq row d.tables inserted in
                        OnOk-map _ Q _
                          (award-IsPaid r.slug (caller_name r) v row c.tables _ refl (
                            wrote
                            ∙ ap
                                (λ (x : State). record x {
                                  vote_events = x.vote_events ++ row ∷ [];
                                })
                                quiet.0))
                          λ credits t paid. record {
                            authorized = authorized;
                            named = named;
                            site = v;
                            account = account;
                            hash = hash;
                            found = found;
                            voter = voter;
                            worth = paid.0;
                            fresh = rw quiet.0 at once;
                            rested = ground (arith, rest, rested);
                            network = rw quiet.0 at quiet.1;
                            done = paid.1;
                          })

-- A callback is all or nothing. If it is rewarded, the secret was right, the site is one of the realm
-- and active, the account exists, the event was not recorded before, the account was not rewarded at
-- the site within the cooldown, nor was the hash of the address that the provider tells, if it tells
-- one, and the event with that hash, the credits and the ledger entry are written; if it ends otherwise, as a duplicate too, no table has changed.
pub vote_site_callback-AllOrNothing :
    (config : VoteConfig) (r : VoteCall) (c : Conn State)
    → AllOrNothing c.tables (IsAwarded config r c.tables) (vote_site_callback config r c)
unfolding vote_site_callback
vote_site_callback-AllOrNothing config r c =
    let P = AllOrNothing {E = NoAward} c.tables (IsAwarded config r c.tables) in
    stop_if-bind P _ _ _ c (λ _. refl)
      λ secret.
        stop_if-bind P _ _ _ _ (λ _. refl)
          λ named.
            transaction-AllOrNothing (IsAwarded config r c.tables) _ _ _ _
              (callback_body-IsAwarded config r _ (ground (arith, secret)) named)

abbrev pub is_vote : Reason → Bool
is_vote (Reason.verified_vote slug) = true
is_vote _ = false

abbrev pub reward : VoteEvent → ℕ × ℤ
reward v = (v.account, pos v.credits)

-- A provider's event at a site.
abbrev pub event_key : ℕ × Text → VoteEvent → Bool
event_key (site, event) v = is_event site event v

-- No event of a site is recorded twice, and the ledger pays each recorded event, in order, once.
pub record RewardedOnce (s : State) : Type 0 where
  pub once : NoTwice event_key s.vote_events
  pub exact : payments is_vote s.ledger ≡ map reward s.vote_events

event_key-own : (v : VoteEvent) (k : ℕ × Text) → event_key k v ≡ true → k ≡ (v.site, v.event)
event_key-own v (site, event) h =
    let same_site : site ≡ v.site = ground arith in
    let same_event : event ≡ v.event = sym (text_eq→eq v.event event (ground arith)) in
    rw (same_site, same_event) refl

paid-RewardedOnce :
    (slug : Text) (v : VoteEvent) (s t : State)
    → count_if (is_event v.site v.event) s.vote_events ≡ 0
    → IsPaid slug v s t
    → RewardedOnce s
    → RewardedOnce t
paid-RewardedOnce slug v s t fresh paid h = record {
  once =
      rw paid.noted
        (NoTwice-append event_key (v.site, v.event) v s.vote_events (event_key-own v) fresh h.once);
  exact =
      rw (paid.booked, paid.noted)
        (payments-append is_vote _ s.ledger refl
          ∙ (ap (λ xs. xs ++ reward v ∷ []) h.exact ∙ sym (map-append_one reward v s.vote_events)));
}

outcome-RewardedOnce :
    (config : VoteConfig) (r : VoteCall) (s : State) (o : Result NoAward ℕ × Conn State)
    → AllOrNothing s (IsAwarded config r s) o
    → RewardedOnce s
    → RewardedOnce o.1.tables
outcome-RewardedOnce config r s (ok credits, d) h before =
    paid-RewardedOnce r.slug (vote_row config.realm r h.site h.account (event_name r) h.hash) s
      d.tables h.fresh h.done before
outcome-RewardedOnce config r s (err e, d) same before = rw same before

outcome-Settled :
    (config : VoteConfig) (r : VoteCall) (s : State) (o : Result NoAward ℕ × Conn State)
    → AllOrNothing s (IsAwarded config r s) o
    → Settled s.wallets s.ledger
    → Settled o.1.tables.wallets o.1.tables.ledger
outcome-Settled config r s (ok credits, d) h before =
    rw h.done.booked
      (deposit-Settled 0 h.account h.site.reward_credits (Reason.verified_vote r.slug) s.wallets
        d.tables.wallets s.ledger h.done.paid before).0
outcome-Settled config r s (err e, d) same before = rw same before

-- A sequence of callbacks on one database, whatever the requests say and whichever statements fail.
abbrev pub callbacks : VoteConfig → List VoteCall → Conn State → Conn State
callbacks config [] c = c
callbacks config (r ∷ rs) c = callbacks config rs (vote_site_callback config r c).1

-- No sequence of callbacks rewards an event of a site twice: if no event was recorded twice, the ledger
-- paid exactly the recorded events in their order, and every balance was the sum of its ledger
-- entries, then all of this holds afterwards, for every sequence of requests and whichever statements fail.
pub callbacks-RewardedOnce :
    (config : VoteConfig) (rs : List VoteCall) (c : Conn State)
    → RewardedOnce c.tables
    → Settled c.tables.wallets c.tables.ledger
    → let t = (callbacks config rs c).tables in RewardedOnce t × Settled t.wallets t.ledger
callbacks-RewardedOnce config [] c once settled = (once, settled)
callbacks-RewardedOnce config (r ∷ rs) c once settled =
    let h = vote_site_callback-AllOrNothing config r c in
    let o = vote_site_callback config r c in
    callbacks-RewardedOnce config rs o.1 (outcome-RewardedOnce config r c.tables o h once)
      (outcome-Settled config r c.tables o h settled)
