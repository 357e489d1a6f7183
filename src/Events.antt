-- ===== src/Events.antt =====
-- internal/web/events.go: registration for an event, attendance and rewards. The database of the
-- characters is an argument; times are seconds, and notifications are left out.
pub mod Staff
pub mod Places
pub mod Capacity
pub mod Once
use azeroth_core_web.Base.{
  ℕ, ◌&&◌, ◌||◌, not, Bool, true, false, Option, none, some, List, [], ◌∷◌, ◌++◌, Text, text_eq,
  ◌==◌, ltb, leb, if◌then◌else◌, find_if, count_if, update_if, codes, decimal,
}
use azeroth_core_web.Http.{Problem, problem, or_problem}
use azeroth_core_web.Db.{
  Exec, exec, update, query, query_or, transaction, attempt, stop_if, pure, lift, ◌>>=◌, ◌>>◌,
}
use azeroth_core_web.Tables.{State, RealmEvent, EventStatus, Registration, Attendance}

abbrev pub event_here : ℕ → Text → RealmEvent → Bool
event_here id realm e = (e.id == id) && text_eq e.realm_key realm

abbrev pub is_registration : ℕ → ℕ → Registration → Bool
is_registration event account g = (g.event == event) && (g.account == account)

abbrev pub is_scheduled : EventStatus → Bool
is_scheduled EventStatus.scheduled = true
is_scheduled _ = false

-- `status IN ('registered','attended')`
abbrev pub has_place : Attendance → Bool
has_place Attendance.registered = true
has_place Attendance.attended = true
has_place _ = false

abbrev pub holds_place : ℕ → Registration → Bool
holds_place event g = (g.event == event) && has_place g.status

unfoldable pub past_deadline : Option ℕ → ℕ → Bool
past_deadline none now = false
past_deadline (some deadline) now = ltb deadline now

-- `!event.SignupEnabled || event.Status != "scheduled" || !event.StartsAt.After(time.Now()) || ...`
unfoldable pub is_closed : ℕ → RealmEvent → Bool
is_closed now e =
    not e.signup_enabled
    || not (is_scheduled e.status)
    || leb e.starts_at now
    || past_deadline e.registration_deadline now

-- The status of the account's registration, none where it has no row.
unfoldable pub attendance_of : ℕ → ℕ → State → Option Attendance
attendance_of event account s = elim (find_if (is_registration event account) s.registrations) [
  | none ↦ none
  | some g ↦ some g.status
]

abbrev pub placed : Option Attendance → Bool
placed none = false
placed (some status) = has_place status

abbrev pub take_place : ℕ → Registration → Registration
take_place character g = record g { character = character; status = Attendance.registered }

-- `INSERT INTO portal_event_registrations ... ON DUPLICATE KEY UPDATE`
unfoldable pub upsert_registration : ℕ → ℕ → ℕ → State → State
upsert_registration event account character s = record s {
  registrations =
      if ltb 0 (count_if (is_registration event account) s.registrations)
      then update_if (is_registration event account) (take_place character) s.registrations
      else s.registrations
        ++ record {
          event = event;
          account = account;
          character = character;
          status = Attendance.registered;
        }
          ∷ [];
}

-- An event with a limit has a place left, unless the account has one.
unfoldable pub check_places : RealmEvent → ℕ → Option Attendance → Exec State Problem Unit
check_places e id current =
    if ltb 0 e.max_participants && not (placed current)
    then (do
      taken ←
          query (problem 409 "This event is full")
            (λ s. some (count_if (holds_place id) s.registrations))
      stop_if (leb e.max_participants taken) (problem 409 "This event is full"))
    else pure tt

unfoldable pub register_body : Text → ℕ → ℕ → ℕ → ℕ → Exec State Problem Unit
register_body realm now id account character = do
  e ←
      query (problem 409 "Registration is closed for this event")
        (λ s. find_if (event_here id realm) s.events)
  stop_if (is_closed now e) (problem 409 "Registration is closed for this event")
  current ← query_or none (attendance_of id account)
  check_places e id current
  update (problem 500 "Could not reserve an event place") (λ _. tt {0})
      (upsert_registration id account character)

abbrev pub may_cancel : ℕ → ℕ → Registration → Bool
may_cancel event account g =
    is_registration event account g && elim g.status [ Attendance.registered ↦ true | _ ↦ false ]

abbrev pub cancel_row : Registration → Registration
cancel_row g = record g { status = Attendance.cancelled }

abbrev pub cancel_place : ℕ → ℕ → State → State
cancel_place id account s = record s {
  registrations = update_if (may_cancel id account) cancel_row s.registrations;
}

-- The branch of DELETE.
unfoldable pub cancel_registration : ℕ → ℕ → Exec State Problem Unit
cancel_registration id account = do
  changed ←
      update (problem 500 "Could not cancel event registration")
        (λ s. count_if (may_cancel id account) s.registrations) (cancel_place id account)
  stop_if (changed == 0) (problem 404 "Active event registration not found")

-- What the account asks for: a place for a character, or to give its place back.
pub data Action : Type 0 where
  register : ℕ → Action
  cancel : Action

-- The branch of POST. `owned` says whether a character is the account's.
unfoldable pub register_place : (ℕ → ℕ → Bool) → Text → ℕ → ℕ → ℕ → ℕ → Exec State Problem Unit
register_place owned realm now id account character = do
  stop_if (character == 0) (problem 422 "Choose a character")
  _ ←
      query (problem 404 "Character not found on this account")
        (λ _. if owned character account then some (tt {0}) else none)
  transaction (problem 503 "Database unavailable") (problem 500 "Could not reserve an event place")
      (register_body realm now id account character)

abbrev pub serve_action : (ℕ → ℕ → Bool) → Text → ℕ → ℕ → ℕ → Action → Exec State Problem Unit
serve_action owned realm now id account cancel = cancel_registration id account
serve_action owned realm now id account (register character) =
    register_place owned realm now id account character

-- `eventRegistrationAction`
unfoldable pub event_registration_action :
    (ℕ → ℕ → Bool) → Text → ℕ → Option ℕ → Option ℕ → Action → Exec State Problem Unit
event_registration_action owned realm now caller path_id action = do
  account ← lift (or_problem caller (problem 401 "Sign in required"))
  id ← lift (or_problem path_id (problem 400 "Invalid event"))
  stop_if (id == 0) (problem 400 "Invalid event")
  serve_action owned realm now id account action

abbrev pub same_attendance : Attendance → Attendance → Bool
same_attendance Attendance.registered Attendance.registered = true
same_attendance Attendance.attended Attendance.attended = true
same_attendance Attendance.no_show Attendance.no_show = true
same_attendance Attendance.cancelled Attendance.cancelled = true
same_attendance _ _ = false

-- The rows that the UPDATE changes: MySQL does not count a row that keeps its values.
abbrev pub has_other : ℕ → ℕ → Attendance → Registration → Bool
has_other id account status g =
    is_registration id account g && not (same_attendance g.status status)

-- `map[string]bool{"registered": true, "attended": true, "no_show": true, "cancelled": true}`
unfoldable pub read_attendance : Text → Option Attendance
read_attendance t =
    if text_eq t (codes "registered")
    then some Attendance.registered
    else (if text_eq t (codes "attended")
        then some Attendance.attended
        else (if text_eq t (codes "no_show")
            then some Attendance.no_show
            else if text_eq t (codes "cancelled")
            then some Attendance.cancelled
            else none))

-- `fmt.Sprintf("%d:%d", eventID, accountID)`
abbrev pub participant : ℕ → ℕ → Text
participant id account = decimal id ++ 58 ∷ decimal account
