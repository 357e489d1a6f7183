-- ===== src/Delivery/Steps.antt =====
-- internal/web/delivery.go, `runOrderStep`: one fulfilment step, recorded so that a retry of the
-- order resumes after the work that is done.
pub mod Once
use azeroth_core_web.Base.{
  ℕ, Bool, true, false, not, Option, none, some, List, [], ◌∷◌, ◌++◌, Text, ◌==◌, if◌then◌else◌,
  take, count_if,
}
use azeroth_core_web.Db.{
  Conn, Result, ok, err, Exec, pure, fail, lift, update, query, attempt, stop_if, ◌>>=◌, ◌>>◌,
}
use azeroth_core_web.Tables.{Note, StepStatus, Send}
use azeroth_core_web.Delivery.State.{
  State, is_completed, is_executing, step_status, add_step, startable_at, start_step, close_step,
}

-- What a step does to the realm: the response, or the error. It may itself write (training does).
abbrev pub Run : Type 0
Run = Exec State Text Text

-- The realm is asked, and the log says whether it reported success. After an error the command may still
-- have been applied: `confirmed` says what the portal knows, not what the realm has done.
unfoldable pub perform : ℕ → Text → Run → Conn State → Result Text Text × Conn State
perform o k run c =
    let (r, c') = run c in
    let confirmed : Bool = elim r [ ok _ ↦ true | err _ ↦ false ] in
    let s = c'.tables in
    let entry : Send = record { order = o; key = k; confirmed = confirmed } in
    (r, record c' { tables = record s { sends = entry ∷ s.sends } })

-- The step ends by its outcome. The write of a failure is not checked, that of a success is.
unfoldable pub finish_step : ℕ → Text → Result Text Text → Exec State Note Unit
finish_step o k (err message) = do
  attempt (λ s. record s { steps = close_step o k StepStatus.failed (take 500 message) s.steps })
  fail Note.step_failed
finish_step o k (ok response) =
    update Note.step_unrecorded (λ _. tt)
      (λ s. record s { steps = close_step o k StepStatus.completed (take 500 response) s.steps })

unfoldable pub start_and_run : ℕ → Text → Run → Exec State Note Unit
start_and_run o k run = do
  changed ←
      update Note.step_unstarted (λ s. count_if (startable_at o k) s.steps)
        (λ s. record s { steps = start_step o k s.steps })
  stop_if (not (changed == 1)) Note.step_unclaimed
  outcome ← (λ c. let (r, c') = perform o k run c in (ok r, c'))
  finish_step o k outcome

unfoldable pub run_order_step : ℕ → Text → Text → Run → Exec State Note Unit
run_order_step o k kind run = do
  update Note.step_uncreated (λ _. tt {0}) (λ s. record s { steps = add_step o k kind s.steps })
  status ← query Note.step_unread (λ s. step_status o k s.steps)
  if is_completed status
      then pure tt
      else if is_executing status
      then fail Note.step_uncertain
      else start_and_run o k run
