-- ===== src/Events/Capacity.antt =====
-- internal/web/events.go, `eventRegistrationAction`: an event has no more participants than places.
use azeroth_core_web.Base.{
  ◌⊎◌, ℕ, ◌<◌, ◌≡◌, refl, not, Bool, true, ◌&&◌, inl, inr, Option, none, List, [], ◌∷◌, Text, ltb,
  arith, count_if,
}
use azeroth_core_web.Db.{Conn}
use azeroth_core_web.Db.Rules.{
  query-bind, stop_if-bind, pure_end, stop_if_end, update_end, branch, query_or-read,
}
use azeroth_core_web.Db.Atomic.{OnOk, transaction-Keeps, chain}
use azeroth_core_web.Db.Keeps.{Keeps, Keeps-bind, Keeps-update, keeps_rules}
use azeroth_core_web.Http.{Problem}
use azeroth_core_web.Tables.{State, RealmEvent, Attendance}
use azeroth_core_web.Events.{
  holds_place, placed, attendance_of, check_places, register_body, cancel_registration, Action,
  register_place, serve_action, event_registration_action,
}
use azeroth_core_web.Events.Places.{WithinCapacity, upsert-WithinCapacity, cancel-WithinCapacity}

-- The account has a place or one is left.
abbrev HasRoom : RealmEvent → ℕ → Option Attendance → State → Type 0
HasRoom e id current s =
    0 < e.max_participants
    → (placed current ≡ true) ⊎ (count_if (holds_place id) s.registrations < e.max_participants)

check_places-HasRoom :
    (e : RealmEvent) (id : ℕ) (current : Option Attendance) (c : Conn State)
    → OnOk (λ _ t. (t ≡ c.tables) × HasRoom e id current t) (check_places e id current c)
unfolding check_places
check_places-HasRoom e id current c =
    let P =
      OnOk {E = Problem} (λ (_ : Unit {0}) (t : State). (t ≡ c.tables) × HasRoom e id current t) in
    branch P (ltb 0 e.max_participants && not (placed current)) _ _ c
      (λ asked. query-bind P _ _ _ _ tt λ taken counted.
        stop_if_end P _ _ _ (λ _. tt)
          λ left. (refl, λ limited. inr (ground (arith, counted, left))))
      (λ skipped. pure_end P _ _ (refl, λ limited. inl (ground (arith, limited, skipped))))

-- What was read, or nothing if the read failed.
read_room :
    (e : RealmEvent) (id account : ℕ) (current : Option Attendance) (s : State)
    → (current ≡ none) ⊎ (current ≡ attendance_of id account s)
    → HasRoom e id current s
    → HasRoom e id (attendance_of id account s) s
read_room e id account current s (inl lost) room limited = elim (room limited) [
  | inl had ↦ absurd (ground (arith, had, lost))
  | inr left ↦ inr left
]
read_room e id account current s (inr read) room limited = rw read at (room limited)

register_body-WithinCapacity :
    (realm : Text) (now id account character : ℕ) (c : Conn State)
    → WithinCapacity realm c.tables
    → OnOk (λ _ t. WithinCapacity realm t) (register_body realm now id account character c)
unfolding register_body
register_body-WithinCapacity realm now id account character c h =
    let Q = λ (_ : Unit {0}) (t : State). WithinCapacity realm t in
    let P = OnOk {E = Problem} Q in
    query-bind P _ _ _ c tt λ e found.
      stop_if-bind P _ _ _ _ (λ _. tt)
        λ _. query_or-read P _ _ _ _ λ current read.
          chain (λ (_ : Unit {0}) (t : State). (t ≡ c.tables) × HasRoom e id current t) Q _ _ _
            (check_places-HasRoom e id current _)
            λ _ d quiet. update_end P _ _ _ _ tt (
              let room = read_room e id account current c.tables read (rw quiet.0 at quiet.1) in
              rw quiet.0 (upsert-WithinCapacity id account character c.tables realm e h found room))

register_place-Keeps :
    (owned : ℕ → ℕ → Bool) (realm : Text) (now id account character : ℕ)
    → Keeps (WithinCapacity realm) (register_place owned realm now id account character)
unfolding register_place
register_place-Keeps owned realm now id account character =
    search
      (
        keeps_rules,
        transaction-Keeps (WithinCapacity realm) _ _ (register_body realm now id account character)
            (register_body-WithinCapacity realm now id account character),
      )
      depth 10

cancel_registration-Keeps :
    (realm : Text) (id account : ℕ) → Keeps (WithinCapacity realm) (cancel_registration id account)
unfolding cancel_registration
cancel_registration-Keeps realm id account =
    Keeps-bind _ _ (Keeps-update _ _ _ (λ s h. cancel-WithinCapacity id account s realm h))
      (λ changed. search keeps_rules)

-- A request of a player: who asks, for which event, when, and for what.
pub record Ask : Type 0 where
  pub caller : Option ℕ
  pub path_id : Option ℕ
  pub now : ℕ
  pub action : Action

serve_action-Keeps :
    (owned : ℕ → ℕ → Bool) (realm : Text) (now id account : ℕ) (action : Action)
    → Keeps (WithinCapacity realm) (serve_action owned realm now id account action)
serve_action-Keeps owned realm now id account Action.cancel =
    cancel_registration-Keeps realm id account
serve_action-Keeps owned realm now id account (Action.register character) =
    register_place-Keeps owned realm now id account character

event_registration_action-Keeps :
    (owned : ℕ → ℕ → Bool) (realm : Text) (now : ℕ) (caller path_id : Option ℕ) (action : Action)
    → Keeps (WithinCapacity realm) (event_registration_action owned realm now caller path_id action)
unfolding event_registration_action
event_registration_action-Keeps owned realm now caller path_id action =
    search (keeps_rules, serve_action-Keeps) depth 10

-- A sequence of requests of players on one database.
abbrev pub asks : (ℕ → ℕ → Bool) → Text → List Ask → Conn State → Conn State
asks owned realm [] c = c
asks owned realm (x ∷ xs) c =
    asks owned realm xs
      (event_registration_action owned realm x.now x.caller x.path_id x.action c).1

-- No sequence of requests overbooks an event: if every event of the realm with a limit had at most that
-- many participants who are registered or attended, and no account two rows for an event, then so it is
-- after any requests of players to register or to cancel, whichever statements fail.
pub asks-WithinCapacity :
    (owned : ℕ → ℕ → Bool) (realm : Text) (xs : List Ask) (c : Conn State)
    → WithinCapacity realm c.tables
    → WithinCapacity realm (asks owned realm xs c).tables
asks-WithinCapacity owned realm [] c h = h
asks-WithinCapacity owned realm (x ∷ xs) c h =
    asks-WithinCapacity owned realm xs _
      ((event_registration_action-Keeps owned realm x.now x.caller x.path_id x.action).at c h)
