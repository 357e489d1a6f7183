-- ===== src/Delivery/State/Status.antt =====
-- How the statements on portal_order_steps move the status that a later read finds.
use azeroth_core_web.Base.{
  ℕ, ◌≡◌, refl, Bool, true, ◌&&◌, Option, none, some, List, Text, text_eq, text_eq→eq, text_eq_refl,
  [], ◌==◌, if◌then◌else◌, arith, inl, inr, Option-cases, find_if, find_if-holds, find_if-update_if,
  find_if-append_one,
}
use azeroth_core_web.Tables.{OrderStep, StepStatus}
use azeroth_core_web.Delivery.State.{
  at_step, step_status, add_step, startable_at, executing_at, start_step, close_step, is_startable,
  is_executing, start_row, close_row,
}

-- Two names of a step are one.
abbrev pub same_step : ℕ → Text → ℕ → Text → Bool
same_step o k o' k' = (o' == o) && text_eq k' k

pub same_step_refl : (o : ℕ) (k : Text) → same_step o k o k ≡ true
same_step_refl o k = ground (arith, text_eq_refl k)

at_step_other :
    (o : ℕ) (k : Text) (o' : ℕ) (k' : Text) (s : OrderStep)
    → at_step o' k' s ≡ true
    → at_step o k s ≡ same_step o k o' k'
unfolding at_step
at_step_other o k o' k' s h = ground (arith, text_eq→eq s.key k')

abbrev pub map_status : (StepStatus → StepStatus) → Option StepStatus → Option StepStatus
map_status f none = none
map_status f (some st) = some (f st)

abbrev pub started : StepStatus → StepStatus
started st = if is_startable st then StepStatus.executing else st

abbrev pub closed : StepStatus → StepStatus → StepStatus
closed v st = if is_executing st then v else st

at_step-start_row : (o : ℕ) (k : Text) (s : OrderStep) → at_step o k (start_row s) ≡ at_step o k s
unfolding at_step
at_step-start_row o k s = refl

at_step-close_row :
    (o : ℕ) (k : Text) (v : StepStatus) (response : Text) (s : OrderStep)
    → at_step o k (close_row v response s) ≡ at_step o k s
unfolding at_step
at_step-close_row o k v response s = refl

-- A step that is there under one name is there under the other.
find_if-same :
    (o : ℕ) (k : Text) (o' : ℕ) (k' : Text) (steps : List OrderStep)
    → same_step o k o' k' ≡ true
    → find_if (at_step o' k') steps ≡ find_if (at_step o k) steps
find_if-same o k o' k' steps h =
    let p : o' ≡ o = ground arith in let q : k' ≡ k = ground (arith, text_eq→eq k' k) in cc

module _ (o : ℕ) (k : Text) (o' : ℕ) (k' : Text) where
  -- Starting a step moves its own status, from pending or failed to executing, and no other.
  pub step_status-start_step :
      (steps : List OrderStep)
      → step_status o' k' (start_step o k steps) ≡ (
          if same_step o k o' k'
          then map_status started (step_status o' k' steps)
          else step_status o' k' steps)
  unfolding step_status start_step startable_at
  step_status-start_step steps =
      let update =
        find_if-update_if (at_step o' k') (startable_at o k) start_row (at_step-start_row o' k')
          steps in
      elim (Option-cases (find_if (at_step o' k') steps)) [
        | inl e ↦ ground (arith, e, update)
        | inr (s, e) ↦
            ground
              (arith, e, update, at_step_other o k o' k' s, find_if-holds (at_step o' k') s steps)
      ]

  -- Closing a step moves its own status if that is executing, and no other.
  pub step_status-close_step :
      (v : StepStatus) (response : Text) (steps : List OrderStep)
      → step_status o' k' (close_step o k v response steps) ≡ (
          if same_step o k o' k'
          then map_status (closed v) (step_status o' k' steps)
          else step_status o' k' steps)
  unfolding step_status close_step executing_at
  step_status-close_step v response steps =
      let update =
        find_if-update_if (at_step o' k') (executing_at o k) (close_row v response)
          (at_step-close_row o' k' v response) steps in
      elim (Option-cases (find_if (at_step o' k') steps)) [
        | inl e ↦ ground (arith, e, update)
        | inr (s, e) ↦
            ground
              (arith, e, update, at_step_other o k o' k' s, find_if-holds (at_step o' k') s steps)
      ]

  at_step_new :
      (kind response : Text) (st : StepStatus) (n : ℕ)
      → at_step o' k' (record {
        order = o;
        key = k;
        kind = kind;
        status = st;
        attempts = n;
        response = response;
      })
        ≡ same_step o' k' o k
  unfolding at_step
  at_step_new kind response st n = refl

  pub same_step_sym : same_step o' k' o k ≡ same_step o k o' k'
  same_step_sym = ground (arith, text_eq→eq k k', text_eq→eq k' k, text_eq_refl k, text_eq_refl k')

  -- A step that was not there is pending.
  pub step_status-add_step :
      (kind : Text) (steps : List OrderStep)
      → step_status o' k' (add_step o k kind steps) ≡ elim (step_status o' k' steps) [
        | none ↦ if same_step o k o' k' then some StepStatus.pending else none
        | some st ↦ some st
      ]
  unfolding step_status add_step
  step_status-add_step kind steps = ground (
    arith,
    find_if-append_one (at_step o' k')
        (record {
          order = o;
          key = k;
          kind = kind;
          status = StepStatus.pending;
          attempts = 0;
          response = [];
        })
        steps,
    at_step_new kind [] StepStatus.pending 0,
    same_step_sym,
    find_if-same o k o' k' steps,
  )
