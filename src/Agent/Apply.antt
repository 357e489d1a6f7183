-- ===== src/Agent/Apply.antt =====
-- internal/realmagent/agent.go: who may use the agent, which settings it takes, and `apply`. JSON and the
-- files are arguments: what the configuration holds, whether it was saved and written; a number is what
-- `configValue` asks of it, whether it is in range, and how it is printed.
use azeroth_core_web.Base.{
  ℕ, ◌&&◌, ◌||◌, not, Bool, true, false, Option, none, some, List, [], ◌∷◌, ◌++◌, map, Text, String,
  text_eq, ◌==◌, ltb, if◌then◌else◌, length, codes,
}
use azeroth_core_web.Db.{Result, ok, err}
use azeroth_core_web.Agent.{replace_values}

-- `mapping`, with the stable name of the setting
pub record Mapping : Type 0 where
  pub name : Text
  pub keys : List Text
  pub boolean : Bool
  pub restart_required : Bool

abbrev pub rate_of : Text → Text → Mapping
rate_of name key = record {
  name = name;
  keys = key ∷ [];
  boolean = false;
  restart_required = false;
}

abbrev pub faction_of : Text → Text → Mapping
faction_of name key = record {
  name = name;
  keys = key ∷ [];
  boolean = true;
  restart_required = true;
}

abbrev pub drop_keys : List Text
drop_keys =
    codes "Rate.Drop.Item.Poor"
    ∷ codes "Rate.Drop.Item.Normal"
    ∷ codes "Rate.Drop.Item.Uncommon"
    ∷ codes "Rate.Drop.Item.Rare"
    ∷ codes "Rate.Drop.Item.Epic"
    ∷ codes "Rate.Drop.Item.Legendary"
    ∷ codes "Rate.Drop.Item.Artifact"
    ∷ codes "Rate.Drop.Item.Referenced"
    ∷ []

abbrev pub allowed : List Mapping
allowed =
    rate_of (codes "rate.xp.quest") (codes "Rate.XP.Quest")
    ∷ rate_of (codes "rate.xp.kill") (codes "Rate.XP.Kill")
    ∷ rate_of (codes "rate.xp.explore") (codes "Rate.XP.Explore")
    ∷ record (rate_of (codes "rate.drop.item") []) { keys = drop_keys }
    ∷ rate_of (codes "rate.reputation") (codes "Rate.Reputation.Gain")
    ∷ rate_of (codes "rate.honor") (codes "Rate.Honor")
    ∷ rate_of (codes "rate.profession") (codes "Rate.Skill.Discovery")
    ∷ faction_of (codes "cross_faction.accounts") (codes "AllowTwoSide.Accounts")
    ∷ faction_of (codes "cross_faction.calendar") (codes "AllowTwoSide.Interaction.Calendar")
    ∷ faction_of (codes "cross_faction.channels") (codes "AllowTwoSide.Interaction.Channel")
    ∷ faction_of (codes "cross_faction.groups") (codes "AllowTwoSide.Interaction.Group")
    ∷ faction_of (codes "cross_faction.guilds") (codes "AllowTwoSide.Interaction.Guild")
    ∷ faction_of (codes "cross_faction.auctions") (codes "AllowTwoSide.Interaction.Auction")
    ∷ faction_of (codes "cross_faction.mail") (codes "AllowTwoSide.Interaction.Mail")
    ∷ faction_of (codes "cross_faction.who") (codes "AllowTwoSide.Who.List")
    ∷ faction_of (codes "cross_faction.friends") (codes "AllowTwoSide.Add.Friend")
    ∷ faction_of (codes "cross_faction.trade") (codes "AllowTwoSide.Trade")
    ∷ []

-- A value of the request: a JSON Boolean, a JSON number with its test and its print, or another.
pub data Raw : Type 0 where
  flag : Bool → Raw
  number : Bool → Text → Raw
  other : Raw

-- `configValue`
unfoldable pub config_value : Raw → Bool → Option Text
config_value (flag value) true = some (if value then codes "1" else codes "0")
config_value (number in_range printed) false = if in_range then some printed else none
config_value _ _ = none

abbrev pub spec_of : Text → List Mapping → Option Mapping
spec_of name [] = none
spec_of name (m ∷ ms) = if text_eq m.name name then some m else spec_of name ms

abbrev pub set_all : List Text → Text → List (Text × Text)
set_all keys value = map (λ key. (key, value)) keys

-- What is wrong with a request.
pub data Refused : Type 0 where
  refused : ℕ → String → Refused

abbrev pub value_for : Option Mapping → Raw → Result Refused (List (Text × Text))
value_for none raw = err (refused 422 "unsupported configuration key")
value_for (some m) raw = elim (config_value raw m.boolean) [
  | none ↦ err (refused 422 "invalid value")
  | some value ↦ ok (set_all m.keys value)
]

abbrev pub and_then :
    Result Refused (List (Text × Text))
    → Result Refused (List (Text × Text))
    → Result Refused (List (Text × Text))
and_then (err e) rest = err e
and_then (ok new) (err e) = err e
and_then (ok new) (ok more) = ok (new ++ more)

-- The loop over the values of a request, in the order in which they come.
unfoldable pub validated : List (Text × Raw) → Result Refused (List (Text × Text))
validated [] = ok []
validated ((name, raw) ∷ values) =
    and_then (value_for (spec_of name allowed) raw) (validated values)

-- The configuration file: what is read, and whether saving a copy and writing succeed.
pub record File : Type 0 where
  pub content : Option Text
  pub saved : Bool
  pub written : Bool

-- A request that was decoded.
pub record ApplyRequest : Type 0 where
  pub realm_key : Text
  pub values : List (Text × Raw)

abbrev pub write_config : File → List (Text × Text) → Result Refused Text
write_config file new = elim file.content [
  | none ↦ err (refused 500 "configuration could not be read")
  | some text ↦
      if not file.saved
      then err (refused 500 "configuration backup failed")
      else (if not file.written
          then err (refused 500 "configuration update failed")
          else ok (replace_values new text))
]

abbrev pub apply_validated : File → Result Refused (List (Text × Text)) → Result Refused Text
apply_validated file (err e) = err e
apply_validated file (ok new) = write_config file new

-- `apply`: what the configuration holds afterwards
unfoldable pub apply_config : Text → File → Option ApplyRequest → Result Refused Text
apply_config realm file none = err (refused 422 "invalid configuration request")
apply_config realm file (some r) =
    if not (text_eq r.realm_key realm)
      || (length r.values == 0)
      || ltb (length allowed) (length r.values)
    then err (refused 422 "invalid configuration request")
    else apply_validated file (validated r.values)

-- `authorize`: the hash of the token and the realm have to be the agent's.
unfoldable pub is_authorized : (Text → Text) → Text → Text → Text → Text → Bool
is_authorized sha256 token realm authorization portal_realm =
    text_eq (sha256 (codes "Bearer " ++ token)) (sha256 authorization) && text_eq portal_realm realm
