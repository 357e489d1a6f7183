-- ===== src/Delivery/Steps/Once.antt =====
-- internal/web/delivery.go, `runOrderStep`: a step that the realm confirmed is not run again.
use azeroth_core_web.Base.{
  ℕ, suc, ◌≤◌, ◌≡◌, refl, true, false, ◌&&◌, ◌||◌, ltb, Option, none, some, List, [], ◌∷◌, Text,
  text_eq→eq, if◌then◌else◌, arith, inl, inr, take,
}
use azeroth_core_web.Db.{Conn, Result, ok, err, Result-cases, sent, pure, fail, ◌>>=◌}
use azeroth_core_web.Db.Rules.{
  wrote, update_end, attempt-bind, fail_end, update-bind, query-bind, stop_if-bind, branch,
}
use azeroth_core_web.Tables.{StepStatus, Send, OrderStep, Note}
use azeroth_core_web.Delivery.State.{
  State, is_startable, is_completed, is_executing, step_status, add_step, start_step, close_step,
}
use azeroth_core_web.Delivery.State.Status.{
  same_step, same_step_refl, same_step_sym, step_status-start_step, step_status-close_step,
  step_status-add_step,
}
use azeroth_core_web.Delivery.Steps.{Run, perform, finish_step, start_and_run, run_order_step}

-- How often the realm was asked for a step from its first confirmation on: a request counts if the
-- realm confirmed it, or if an earlier request of the step was confirmed. The log begins with the
-- latest request.
abbrev pub confirmed : ℕ → Text → List Send → ℕ
confirmed o k [] = 0
confirmed o k (e ∷ sends) =
    if same_step o k e.order e.key && (e.confirmed || ltb 0 (confirmed o k sends))
    then suc (confirmed o k sends)
    else confirmed o k sends

-- How many such requests a step may have that is recorded so: one if it is executing or completed,
-- else none.
abbrev pub allowance : Option StepStatus → ℕ
allowance none = 0
allowance (some StepStatus.pending) = 0
allowance (some StepStatus.failed) = 0
allowance (some StepStatus.executing) = 1
allowance (some StepStatus.completed) = 1

-- Every step has at most as many such requests as its record allows; so at most one.
abbrev pub AtMostOnce : State → Type 0
AtMostOnce s = (o : ℕ) (k : Text) → confirmed o k s.sends ≤ allowance (step_status o k s.steps)

-- A run that touches neither the steps nor the log.
abbrev pub IsQuiet : Run → Type 0
IsQuiet run =
    (c : Conn State)
    → ((run c).1.tables.steps ≡ c.tables.steps) × ((run c).1.tables.sends ≡ c.tables.sends)

allowance-add_step :
    (o : ℕ) (k kind : Text) (steps : List OrderStep) (o' : ℕ) (k' : Text)
    → allowance (step_status o' k' (add_step o k kind steps)) ≡ allowance (step_status o' k' steps)
allowance-add_step o k kind steps o' k' = ground (arith, step_status-add_step o k o' k' kind steps)

-- While a step runs: it was not confirmed yet and is executing; the others are as they should be.
abbrev IsRunning : ℕ → Text → State → Type 0
IsRunning o k s =
    (confirmed o k s.sends ≡ 0)
    × (step_status o k s.steps ≡ some StepStatus.executing)
    × AtMostOnce s

start_step-AtMostOnce :
    (o : ℕ) (k : Text) (s : State)
    → AtMostOnce s
    → AtMostOnce (record s { steps = start_step o k s.steps })
start_step-AtMostOnce o k s h o' k' =
    ground (arith, h o' k', step_status-start_step o k o' k' s.steps)

step_status-same :
    (o : ℕ) (k : Text) (o' : ℕ) (k' : Text) (steps : List OrderStep)
    → same_step o k o' k' ≡ true
    → step_status o' k' steps ≡ step_status o k steps
step_status-same o k o' k' steps h =
    let p : o' ≡ o = ground arith in let q : k' ≡ k = ground (arith, text_eq→eq k' k) in cc

-- Two equal names count the same requests.
confirmed-same :
    (o : ℕ) (k : Text) (o' : ℕ) (k' : Text) (sends : List Send)
    → same_step o k o' k' ≡ true
    → confirmed o' k' sends ≡ confirmed o k sends
confirmed-same o k o' k' sends h =
    let p : o' ≡ o = ground arith in let q : k' ≡ k = ground (arith, text_eq→eq k' k) in cc

-- The count of those requests against the record, of one step, after a piece of the handler.
abbrev Within : ℕ → Text → Result Note (Unit {0}) × Conn State → Type 0
Within o k r = confirmed o k r.1.tables.sends ≤ allowance (step_status o k r.1.tables.steps)

finish_ok-AtMostOnce :
    (o : ℕ) (k response : Text) (c : Conn State)
    → AtMostOnce c.tables
    → AtMostOnce (finish_step o k (ok response) c).1.tables
unfolding finish_step
finish_ok-AtMostOnce o k response c h o' k' =
    update_end (Within o' k') Note.step_unrecorded _ _ c (h o' k') (
      ground (
        arith,
        h o' k',
        step_status-close_step o k o' k' StepStatus.completed (take 500 response) c.tables.steps,
      ))

finish_err-AtMostOnce :
    (o : ℕ) (k message : Text) (c : Conn State)
    → confirmed o k c.tables.sends ≡ 0
    → AtMostOnce c.tables
    → AtMostOnce (finish_step o k (err message) c).1.tables
unfolding finish_step
finish_err-AtMostOnce o k message c z h o' k' =
    attempt-bind (Within o' k') _ _ c (fail_end (Within o' k') _ (sent c) (h o' k')) (
      fail_end (Within o' k') _
        (wrote c (record c.tables {
          steps = close_step o k StepStatus.failed (take 500 message) c.tables.steps;
        }))
        (ground (
          arith,
          h o' k',
          step_status-close_step o k o' k' StepStatus.failed (take 500 message) c.tables.steps,
          confirmed-same o k o' k' c.tables.sends,
        )))

perform-AtMostOnce :
    (o : ℕ) (k : Text) (run : Run) (c : Conn State)
    → IsQuiet run
    → IsRunning o k c.tables
    → AtMostOnce (perform o k run c).1.tables
unfolding perform
perform-AtMostOnce o k run c quiet (z, e, h) o' k' =
    let (steps, sends) = quiet c in
    rw (steps, sends)
      (ground (
        arith,
        h o' k',
        z,
        e,
        same_step_sym o k o' k',
        step_status-same o k o' k' c.tables.steps,
        confirmed-same o k o' k' c.tables.sends,
      ))

perform_err_confirmed :
    (o : ℕ) (k message : Text) (run : Run) (c : Conn State)
    → IsQuiet run
    → (run c).0 ≡ err message
    → confirmed o k c.tables.sends ≡ 0
    → confirmed o k (perform o k run c).1.tables.sends ≡ 0
unfolding perform
perform_err_confirmed o k message run c quiet e z = rw (e, (quiet c).1, z) (ground arith)

perform_result : (o : ℕ) (k : Text) (run : Run) (c : Conn State) → (perform o k run c).0 ≡ (run c).0
unfolding perform
perform_result o k run c = refl

run_and_finish-AtMostOnce :
    (o : ℕ) (k : Text) (run : Run) (c : Conn State)
    → IsQuiet run
    → IsRunning o k c.tables
    → let (r, c') = perform o k run c in AtMostOnce (finish_step o k r c').1.tables
run_and_finish-AtMostOnce o k run c quiet h = elim (Result-cases (run c).0) [
  | inl (response, e) ↦
      rw (perform_result o k run c, e)
        (finish_ok-AtMostOnce o k response (perform o k run c).1
          (perform-AtMostOnce o k run c quiet h))
  | inr (message, e) ↦
      rw (perform_result o k run c, e)
        (finish_err-AtMostOnce o k message (perform o k run c).1
          (perform_err_confirmed o k message run c quiet e h.0)
          (perform-AtMostOnce o k run c quiet h))
]

startable_allowance : (st : StepStatus) → is_startable st ≡ true → allowance (some st) ≡ 0
startable_allowance st h = ground arith

startable :
    (st : StepStatus) → is_completed st ≡ false → is_executing st ≡ false → is_startable st ≡ true
startable st h g = ground arith

-- A claimed step is executing and was not confirmed before.
start_step-IsRunning :
    (o : ℕ) (k : Text) (s : State) (st : StepStatus)
    → step_status o k s.steps ≡ some st
    → is_startable st ≡ true
    → AtMostOnce s
    → IsRunning o k (record s { steps = start_step o k s.steps })
start_step-IsRunning o k s st e su h = (
  (let stopped : allowance (some st) ≡ 0 = startable_allowance st su in
      ground (arith, h o k, e, stopped)),
  ground (arith, step_status-start_step o k o k s.steps, same_step_refl o k, e, su),
  start_step-AtMostOnce o k s h,
)

start_and_run-AtMostOnce :
    (o : ℕ) (k : Text) (run : Run) (c : Conn State)
    → IsQuiet run
    → (st : StepStatus) → step_status o k c.tables.steps ≡ some st
    → is_startable st ≡ true
    → AtMostOnce c.tables
    → AtMostOnce (start_and_run o k run c).1.tables
unfolding start_and_run ◌>>=◌
start_and_run-AtMostOnce o k run c quiet st e su h o' k' =
    update-bind (Within o' k') Note.step_unstarted _ _ _ c (h o' k') (
      stop_if-bind (Within o' k') _ Note.step_unclaimed _ _
        (λ _. start_step-AtMostOnce o k c.tables h o' k')
        (λ _.
          run_and_finish-AtMostOnce o k run _ quiet (start_step-IsRunning o k c.tables st e su h) o'
            k'))

-- Whatever statements fail, whatever the realm answers and in whatever state the step was found: if
-- before `runOrderStep` every step that is executing or completed was sent at most once from its first
-- confirmation on, and no other step was confirmed, then so it is afterwards, for a run that leaves the
-- step table and the log alone. Confirmed means that the realm's answer reported success: a command that
-- was answered with an error may have been applied all the same.
pub run_order_step-AtMostOnce :
    (o : ℕ) (k kind : Text) (run : Run) (c : Conn State)
    → IsQuiet run
    → AtMostOnce c.tables
    → AtMostOnce (run_order_step o k kind run c).1.tables
unfolding run_order_step pure fail
run_order_step-AtMostOnce o k kind run c quiet h o' k' =
    let added = record c.tables { steps = add_step o k kind c.tables.steps } in
    let still : AtMostOnce added =
      λ p q. rw (allowance-add_step o k kind c.tables.steps p q) (h p q) in
    update-bind (Within o' k') Note.step_uncreated _ _ _ c (h o' k') (
      query-bind (Within o' k') Note.step_unread _ _ (wrote c added) (still o' k') λ st found.
        branch (Within o' k') (is_completed st) _ _ _ (λ _. still o' k')
          (λ fresh.
            branch (Within o' k') (is_executing st) _ _ _ (λ _. still o' k')
              (λ idle.
                start_and_run-AtMostOnce o k run _ quiet st found (startable st fresh idle) still o'
                  k')))
