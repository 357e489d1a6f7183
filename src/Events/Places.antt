-- ===== src/Events/Places.antt =====
-- internal/web/events.go, `eventRegistrationAction`: how the statements move the places of an event.
use native.Mathlib.Nat.{le_trans}
use azeroth_core_web.Base.{
  ◌⊎◌, ℕ, ◌+◌, ◌≤◌, ◌<◌, ◌≡◌, refl, sym, Bool, true, false, Bool-cases, inl, inr, some, Text, ◌==◌,
  ltb, if◌then◌else◌, arith, find_if, count_if, count_if-append_one, find_if-holds, Option-cases,
}
use azeroth_core_web.Base.Counts.{
  count_if-never, count_if-kept, find_if-absent, newly, count_if-newly, count_if-found,
  count_if-update_if,
}
use azeroth_core_web.Tables.{State, RealmEvent, Registration, Attendance}
use azeroth_core_web.Wallet.Payments.{NoTwice, NoTwice-append}
use azeroth_core_web.Events.{
  event_here, is_registration, holds_place, take_place, placed, attendance_of, upsert_registration,
  may_cancel, cancel_row, cancel_place,
}

-- The primary key of a registration.
abbrev pub registration_key : ℕ × ℕ → Registration → Bool
registration_key (event, account) g = is_registration event account g

-- An event with a limit has at most so many participants, and no account has two rows for an event.
pub record WithinCapacity (realm : Text) (s : State) : Type 0 where
  pub one_row : NoTwice registration_key s.registrations
  pub fits :
      (id : ℕ) (e : RealmEvent)
      → find_if (event_here id realm) s.events ≡ some e
      → 0 < e.max_participants
      → count_if (holds_place id) s.registrations ≤ e.max_participants

module _ (id account character : ℕ) (s : State) where
  abbrev places : ℕ → State → ℕ
  places event t = count_if (holds_place event) t.registrations

  abbrev after : State
  after = upsert_registration id account character s

  abbrev mine : Registration → Bool
  mine = is_registration id account

  abbrev brought : ℕ → Registration → Bool
  brought event = newly mine (holds_place event) (take_place character)

  abbrev fresh_row : Registration
  fresh_row = record {
    event = id;
    account = account;
    character = character;
    status = Attendance.registered;
  }

  -- Whether the account had a row or not, no more places are taken than newly come up.
  known_places :
      (event : ℕ)
      → ltb 0 (count_if mine s.registrations) ≡ true
      → places event after ≤ places event s + count_if (brought event) s.registrations
  unfolding upsert_registration
  known_places event known =
      rw known (count_if-update_if mine (holds_place event) (take_place character) s.registrations)

  new_places :
      (event : ℕ)
      → ltb 0 (count_if mine s.registrations) ≡ false
      → places event after ≡ places event s + (if id == event then 1 else 0)
  unfolding upsert_registration
  new_places event new =
      rw new (ground (arith, count_if-append_one (holds_place event) fresh_row s.registrations))

  brought_other : (event : ℕ) → (id == event) ≡ false → (g : Registration) → brought event g ≡ false
  brought_other event other g = ground (arith, other)

  upsert_other : (event : ℕ) → (id == event) ≡ false → places event after ≤ places event s
  upsert_other event other = elim (Bool-cases (ltb 0 (count_if mine s.registrations))) [
    | inl known ↦ ground (
      arith,
      known_places event known,
      count_if-never (brought event) s.registrations (brought_other event other),
    )
    | inr new ↦ ground (arith, new_places event new, other)
  ]

  upsert_one : NoTwice registration_key s.registrations → places id after ≤ places id s + 1
  upsert_one one = elim (Bool-cases (ltb 0 (count_if mine s.registrations))) [
    | inl known ↦ omega (
      arith,
      known_places id known,
      count_if-newly mine (holds_place id) (take_place character) s.registrations,
      one (id, account),
    )
    | inr new ↦ ground (arith, new_places id new)
  ]

  placed_found :
      placed (attendance_of id account s) ≡ true
      → (g : Registration) × (find_if mine s.registrations ≡ some g) × (holds_place id g ≡ true)
  unfolding attendance_of
  placed_found h = elim (Option-cases (find_if mine s.registrations)) [
    | inl missing ↦ absurd (ground (arith, h, missing))
    | inr (g, found) ↦
        (g, found, ground (arith, h, found, find_if-holds mine g s.registrations found))
  ]

  upsert_placed :
      NoTwice registration_key s.registrations
      → placed (attendance_of id account s) ≡ true
      → places id after ≤ places id s
  upsert_placed one h =
      let (g, found, holds) = placed_found h in
      elim (Bool-cases (ltb 0 (count_if mine s.registrations))) [
        | inl known ↦ omega (
          arith,
          known_places id known,
          count_if-found mine (holds_place id) (take_place character) g s.registrations found holds
              (one (id, account)),
        )
        | inr new ↦
            absurd
              (ground (arith, found, find_if-absent mine s.registrations (ground (arith, new))))
      ]

  registration_key-own :
      (g : Registration) (k : ℕ × ℕ) → registration_key k g ≡ true → k ≡ (g.event, g.account)
  registration_key-own g (event, owner) h =
      let same_event : event ≡ g.event = ground arith in
      let same_owner : owner ≡ g.account = ground arith in rw (same_event, same_owner) refl

  registration_key-kept :
      (k : ℕ × ℕ) (g : Registration)
      → registration_key k (take_place character g) ≡ registration_key k g
  registration_key-kept (event, owner) g = refl

  upsert-NoTwice :
      NoTwice registration_key s.registrations → NoTwice registration_key after.registrations
  unfolding upsert_registration
  upsert-NoTwice one = elim (Bool-cases (ltb 0 (count_if mine s.registrations))) [
    | inl known ↦ rw known (λ k.
        rw
          (count_if-kept (registration_key k) mine (take_place character) s.registrations
            (registration_key-kept k))
          (one k))
    | inr new ↦ rw new (
        NoTwice-append registration_key (id, account) fresh_row s.registrations
          (registration_key-own fresh_row) (ground (arith, new)) one)
  ]

  -- The place is one that the account had, or one that was left.
  pub upsert-WithinCapacity :
      (realm : Text) (e : RealmEvent)
      → WithinCapacity realm s
      → find_if (event_here id realm) s.events ≡ some e
      → (0 < e.max_participants
          → (placed (attendance_of id account s) ≡ true) ⊎ (places id s < e.max_participants))
      → WithinCapacity realm after
  unfolding upsert_registration
  upsert-WithinCapacity realm e h found free = record {
    one_row = upsert-NoTwice h.one_row;
    fits = λ event x here limited. elim (Bool-cases (id == event)) [
      | inl same ↦
          let at_event : id ≡ event = ground (arith, same) in own_fits event x at_event here limited
      | inr other ↦ le_trans (upsert_other event other) (h.fits event x here limited)
    ];
  }
    where
      own_fits :
          (event : ℕ) (x : RealmEvent)
          → id ≡ event
          → find_if (event_here event realm) s.events ≡ some x
          → 0 < x.max_participants
          → places event after ≤ x.max_participants
      own_fits event x at_event here limited =
          let one_event : e ≡ x = ground (arith, found, rw (sym at_event) at here) in
          let room = free (rw one_event limited) in
          rw (sym at_event) (elim room [
            | inl had ↦
                le_trans (upsert_placed h.one_row had)
                  (h.fits id x (rw (sym at_event) at here) limited)
            | inr left ↦ omega (arith, upsert_one h.one_row, rw one_event at left)
          ])

-- Who cancels takes no place.
cancelled_never :
    (id account event : ℕ) (g : Registration)
    → newly (may_cancel id account) (holds_place event) cancel_row g ≡ false
cancelled_never id account event g = ground arith

cancelled_key :
    (k : ℕ × ℕ) (g : Registration) → registration_key k (cancel_row g) ≡ registration_key k g
cancelled_key (event, owner) g = refl

pub cancel-WithinCapacity :
    (id account : ℕ) (s : State) (realm : Text)
    → WithinCapacity realm s
    → WithinCapacity realm (cancel_place id account s)
cancel-WithinCapacity id account s realm h = record {
  one_row = λ k.
      rw
        (count_if-kept (registration_key k) (may_cancel id account) cancel_row s.registrations
          (cancelled_key k))
        (h.one_row k);
  fits = λ event e here limited. omega (
    arith,
    h.fits event e here limited,
    count_if-update_if (may_cancel id account) (holds_place event) cancel_row s.registrations,
    count_if-never (newly (may_cancel id account) (holds_place event) cancel_row) s.registrations
        (cancelled_never id account event),
  );
}
