-- ===== src/Delivery/Admin.antt =====
-- internal/web/delivery.go: the staff's handlers for orders that wait for a person. The caller is
-- the result of `requireStaffPermission`; an identifier in the path is the result of parsing it.
pub mod Once
pub mod Refund
use azeroth_core_web.Base.{
  ℕ, suc, ◌+◌, ◌-◌, ◌&&◌, ◌||◌, not, Bool, true, false, Option, none, some, List, [], ◌∷◌, ◌++◌,
  Text, text_eq, ◌==◌, ltb, leb, if◌then◌else◌, codes, length, find_if, count_if, update_if,
  contains_num, trim_space, to_lower,
}
use azeroth_core_web.Base.Int.{ℤ, pos}
use azeroth_core_web.Http.{Problem, problem, or_problem}
use azeroth_core_web.Db.{
  Conn, Exec, Result, ok, err, pure, fail, lift, exec, update, query, attempt, transaction, stop_if,
  ◌>>=◌, ◌>>◌,
}
use azeroth_core_web.Tables.{
  State, Order, OrderStatus, OrderStep, StepStatus, Product, Note, Audit, Reason, StockMovement,
}
use azeroth_core_web.Wallet.{credit, entry, with_wallets, with_products}
use azeroth_core_web.Base.{decimal}
use azeroth_core_web.Delivery.State.{is_retryable, is_completed, is_executing, at_step}

abbrev pub order_here : ℕ → Text → Order → Bool
order_here id realm o = (o.id == id) && text_eq o.realm_key realm

-- `WHERE id=? AND realm_key=? AND status IN ('review','failed')`
unfoldable pub retryable_here : ℕ → Text → Order → Bool
retryable_here id realm o = order_here id realm o && is_retryable o.status

abbrev pub requeue_row : Order → Order
requeue_row o = record o { status = OrderStatus.pending; note = Note.blank }

abbrev pub with_audit : ℕ → Text → ℕ → State → State
with_audit actor action target s = record s {
  audits = s.audits ++ record { actor = actor; action = action; target = decimal target } ∷ [];
}

abbrev pub requeue : ℕ → Text → State → State
requeue id realm s = record s { orders = update_if (retryable_here id realm) requeue_row s.orders }

-- `adminRetryOrder`
unfoldable pub retry_order : Text → Option ℕ → Option ℕ → Exec State Problem Unit
retry_order realm caller path_id = do
  actor ← lift (or_problem caller (problem 403 "GM access required"))
  id ← lift (or_problem path_id (problem 400 "Invalid order"))
  changed ←
      update (problem 500 "Could not retry order")
        (λ s. count_if (retryable_here id realm) s.orders) (requeue id realm)
  stop_if (changed == 0) (problem 409 "Order is not retryable")
  attempt (with_audit actor (codes "order.retry") id)

-- One round of the loop in `adminBulkRetryOrders`, with the result that it reports.
pub data Retried : Type 0 where
  skipped queued failed : Retried

bulk_one : Text → ℕ → ℕ → Exec State Retried Unit
bulk_one realm actor id = do
  changed ← update failed (λ s. count_if (retryable_here id realm) s.orders) (requeue id realm)
  stop_if (changed == 0) skipped
  attempt (with_audit actor (codes "order.retry") id)

abbrev pub as_retried : Result Retried (Unit {0}) → Retried
as_retried (ok _) = queued
as_retried (err r) = r

bulk_loop : Text → ℕ → List ℕ → List ℕ → Conn State → List (ℕ × Retried) × Conn State
bulk_loop realm actor seen [] c = ([], c)
bulk_loop realm actor seen (id ∷ ids) c =
    let skip = (id == 0) || contains_num seen id in
    let (r, c') = (if skip then fail skipped else bulk_one realm actor id) c in
    let (results, c'') = bulk_loop realm actor (id ∷ seen) ids c' in
    ((id, as_retried r) ∷ results, c'')

pub bulk_all : Text → ℕ → List ℕ → Exec State Problem (List (ℕ × Retried))
bulk_all realm actor ids c = let (results, c') = bulk_loop realm actor [] ids c in (ok results, c')

-- `adminBulkRetryOrders`
unfoldable pub bulk_retry_orders :
    Text → Option ℕ → List ℕ → Exec State Problem (List (ℕ × Retried))
bulk_retry_orders realm caller ids = do
  actor ← lift (or_problem caller (problem 403 "Commerce permission required"))
  stop_if ((length ids == 0) || ltb 100 (length ids))
      (problem 422 "Select between 1 and 100 orders")
  bulk_all realm actor ids

-- The order with its product, as the JOIN of `adminRefundOrder` reads them.
pub record Refundable : Type 0 where
  pub order : Order
  pub completed_steps : ℕ
  pub stock_limit : ℕ

abbrev pub product_here : ℕ → Product → Bool
product_here id p = p.id == id

unfoldable pub completed_of : ℕ → List OrderStep → ℕ
completed_of id = count_if (λ s. (s.order == id) && is_completed s.status)

joined : State → Option Order → Option Refundable
joined s none = none
joined s (some o) = elim (find_if (product_here o.product) s.products) [
  | none ↦ none
  | some p ↦ some (record {
    order = o;
    completed_steps = completed_of o.id s.steps;
    stock_limit = p.stock_limit;
  })
]

unfoldable pub read_refundable : ℕ → Text → State → Option Refundable
unfolding joined
read_refundable id realm s = joined s (find_if (order_here id realm) s.orders)

abbrev pub is_refundable : OrderStatus → Bool
is_refundable OrderStatus.pending = true
is_refundable OrderStatus.review = true
is_refundable OrderStatus.failed = true
is_refundable _ = false

abbrev pub refund_row : Order → Order
refund_row o = record o { status = OrderStatus.refunded }

-- `GREATEST(sold_count-1,0)`: the column is unsigned, so MySQL refuses 0 - 1 before GREATEST sees it.
unfoldable pub stocked_here : ℕ → Text → Product → Bool
stocked_here id realm p = (p.id == id) && text_eq p.realm_key realm

unfoldable pub release_stock : ℕ → Text → List Product → Option (List Product)
release_stock id realm products =
    if ltb 0 (count_if (λ p. stocked_here id realm p && (p.sold_count == 0)) products)
    then none
    else some (
        update_if (stocked_here id realm) (λ p. record p { sold_count = p.sold_count - 1 })
          products)

unfoldable pub release_if_limited : Text → ℕ → Refundable → Exec State Problem Unit
release_if_limited realm actor r =
    let refused = problem 500 "Could not refund order" in
    let id = r.order.id in
    if ltb 0 r.stock_limit
    then (do
      exec refused (λ s. with_products s (release_stock r.order.product realm s.products))
      update refused (λ _. tt)
          (λ s. record s {
            movements =
                s.movements
                ++ record {
                  realm_key = realm;
                  product = r.order.product;
                  delta = pos 1;
                  kind = codes "refund";
                  reference = id;
                  actor = actor;
                }
                  ∷ [];
          }))
    else pure tt

abbrev pub credit_state : ℕ → ℕ → State → Option (Unit {0} × State)
credit_state account amount s = with_wallets s (credit account amount s.wallets)

-- The body of the transaction of `adminRefundOrder`
unfoldable pub refund_body : Text → ℕ → ℕ → Exec State Problem Unit
refund_body realm actor id = do
  r ← query (problem 404 "Order not found") (read_refundable id realm)
  stop_if (not (is_refundable r.order.status))
      (problem 409 "Only pending or reviewed orders can be refunded")
  stop_if (ltb 0 r.completed_steps) (
      problem 409
        "This order was partially fulfilled; reconcile delivered steps before issuing a refund")
  exec (problem 500 "Could not refund order") (credit_state r.order.account r.order.total)
  update (problem 500 "Could not refund order") (λ _. tt {0})
      (λ s. record s { orders = update_if (λ o. o.id == id) refund_row s.orders })
  update (problem 500 "Could not refund order") (λ _. tt {0})
      (λ s. record s {
        ledger =
            s.ledger
            ++ entry actor r.order.account (pos r.order.total) (Reason.order_refund id) ∷ [];
      })
  update (problem 500 "Could not refund order") (λ _. tt {0})
      (with_audit actor (codes "order.refund") id)
  release_if_limited realm actor r

unfoldable pub refund_order : Text → Option ℕ → Option ℕ → Exec State Problem Unit
refund_order realm caller path_id = do
  actor ← lift (or_problem caller (problem 403 "GM access required"))
  id ← lift (or_problem path_id (problem 400 "Invalid order"))
  transaction (problem 503 "Database unavailable") (problem 500 "Could not refund order")
      (refund_body realm actor id)

-- `validOrderStepKey`
valid_key_byte : ℕ → Bool
valid_key_byte c = leb 97 c && leb c 122 || leb 48 c && leb c 57 || (c == 45)

all_valid : Text → Bool
all_valid [] = true
all_valid (c ∷ s) = valid_key_byte c && all_valid s

unfoldable pub valid_order_step_key : Text → Bool
unfolding all_valid valid_key_byte
valid_order_step_key value =
    not (length value == 0) && not (ltb 64 (length value)) && all_valid value

pub data Resolution : Type 0 where
  retry completed : Resolution

-- The resolution that the request names, in any case and with white space round it.
unfoldable pub parse_resolution : Text → Option Resolution
parse_resolution raw =
    let word = to_lower (trim_space raw) in
    if text_eq word (codes "retry")
    then some retry
    else if text_eq word (codes "completed")
    then some completed
    else none

abbrev pub resolved : Resolution → StepStatus
resolved retry = StepStatus.pending
resolved completed = StepStatus.completed

abbrev pub is_closed : OrderStatus → Bool
is_closed OrderStatus.delivered = true
is_closed OrderStatus.refunded = true
is_closed _ = false

-- The order's status where the step is there and the order belongs to this realm.
unfoldable pub read_step_order : ℕ → Text → Text → State → Option OrderStatus
read_step_order id key realm s = elim (find_if (at_step id key) s.steps) [
  | none ↦ none
  | some _ ↦ elim (find_if (order_here id realm) s.orders) [ none ↦ none | some o ↦ some o.status ]
]

unfoldable pub resolve_step : ℕ → Text → StepStatus → Text → List OrderStep → List OrderStep
resolve_step id key status response =
    update_if (at_step id key) (λ s. record s { status = status; response = response })

unfoldable pub resolve_body : Text → ℕ → ℕ → Text → Resolution → Text → Exec State Problem Unit
resolve_body realm actor id key resolution reason = do
  status ← query (problem 404 "Fulfillment step not found") (read_step_order id key realm)
  stop_if (is_closed status) (problem 409 "Completed or refunded orders cannot be reconciled")
  update (problem 500 "Could not reconcile fulfillment step") (λ _. tt {0})
      (λ s. record s {
        steps =
            resolve_step id key (resolved resolution) (codes "Staff reconciliation: " ++ reason)
              s.steps;
      })
  update (problem 500 "Could not reconcile fulfillment step") (λ _. tt {0})
      (λ s. record s { orders = update_if (order_here id realm) requeue_row s.orders })
  update (problem 500 "Could not reconcile fulfillment step") (λ _. tt {0})
      (with_audit actor (codes "order.step.reconcile") id)

-- `adminResolveOrderStep`
unfoldable pub resolve_order_step :
    Text → Option ℕ → Option ℕ → Text → Text → Text → Exec State Problem Unit
resolve_order_step realm caller path_id key resolution reason = do
  actor ← lift (or_problem caller (problem 403 "Commerce access required"))
  id ← lift (or_problem path_id (problem 400 "Invalid fulfillment step"))
  stop_if (not (valid_order_step_key key)) (problem 400 "Invalid fulfillment step")
  wanted ← lift (
      or_problem (parse_resolution resolution)
        (problem 422 "Choose retry or completed and provide a reconciliation reason"))
  stop_if (ltb (length (trim_space reason)) 3 || ltb 255 (length (trim_space reason)))
      (problem 422 "Choose retry or completed and provide a reconciliation reason")
  transaction (problem 503 "Database unavailable")
      (problem 500 "Could not reconcile fulfillment step")
      (resolve_body realm actor id key wanted (trim_space reason))
