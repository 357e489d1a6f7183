-- ===== src/Delivery/State.antt =====
-- internal/web/delivery.go: the statements on the tables of the delivery queue.
pub mod Status
pub use azeroth_core_web.Tables.{State}
use azeroth_core_web.Base.{
  ℕ, ◌+◌, Bool, true, false, ◌&&◌, Option, none, some, List, [], ◌∷◌, ◌++◌, Text, text_eq, ◌==◌,
  length, if◌then◌else◌, find_if, count_if, update_if,
}
use azeroth_core_web.Tables
use azeroth_core_web.Tables.{
  Order, OrderItem, OrderStep, OrderStatus, StepStatus, Skill, LearnedSpell, Send, Audit, Note,
}

-- The tests `status = ...` and `status IN (...)`.
abbrev pub is_pending : OrderStatus → Bool
is_pending OrderStatus.pending = true
is_pending _ = false

abbrev pub is_delivering : OrderStatus → Bool
is_delivering OrderStatus.delivering = true
is_delivering _ = false

abbrev pub is_retryable : OrderStatus → Bool
is_retryable OrderStatus.review = true
is_retryable OrderStatus.failed = true
is_retryable _ = false

abbrev pub is_startable : StepStatus → Bool
is_startable StepStatus.pending = true
is_startable StepStatus.failed = true
is_startable _ = false

abbrev pub is_executing : StepStatus → Bool
is_executing StepStatus.executing = true
is_executing _ = false

abbrev pub is_completed : StepStatus → Bool
is_completed StepStatus.completed = true
is_completed _ = false

-- `WHERE order_id=? AND step_key=?`
unfoldable pub at_step : ℕ → Text → OrderStep → Bool
at_step o k s = (s.order == o) && text_eq s.key k

-- `SELECT status FROM portal_order_steps WHERE order_id=? AND step_key=?`; the pair is the primary
-- key.
unfoldable pub step_status : ℕ → Text → List OrderStep → Option StepStatus
step_status o k steps = elim (find_if (at_step o k) steps) [ none ↦ none | some s ↦ some s.status ]

-- `INSERT IGNORE INTO portal_order_steps(order_id,step_key,kind)`, with the column defaults.
unfoldable pub add_step : ℕ → Text → Text → List OrderStep → List OrderStep
add_step o k kind steps = elim (find_if (at_step o k) steps) [
  | none ↦
      steps
      ++ record {
        order = o;
        key = k;
        kind = kind;
        status = StepStatus.pending;
        attempts = 0;
        response = [];
      }
        ∷ []
  | some _ ↦ steps
]

abbrev pub start_row : OrderStep → OrderStep
start_row s = record s { status = StepStatus.executing; attempts = s.attempts + 1; response = [] }

-- `UPDATE ... SET status='executing',... WHERE ... AND status IN ('pending','failed')`
unfoldable pub startable_at : ℕ → Text → OrderStep → Bool
startable_at o k s = at_step o k s && is_startable s.status

unfoldable pub executing_at : ℕ → Text → OrderStep → Bool
executing_at o k s = at_step o k s && is_executing s.status

abbrev pub close_row : StepStatus → Text → OrderStep → OrderStep
close_row status response s = record s { status = status; response = response }

unfoldable pub start_step : ℕ → Text → List OrderStep → List OrderStep
start_step o k = update_if (startable_at o k) start_row

-- `UPDATE ... SET status=?,response=? WHERE ... AND status='executing'`
unfoldable pub close_step : ℕ → Text → StepStatus → Text → List OrderStep → List OrderStep
close_step o k status response = update_if (executing_at o k) (close_row status response)
