-- ===== src/Delivery/Admin/Once.antt =====
-- internal/web/delivery.go: whatever the portal and its staff do short of resolving a step by hand,
-- a fulfilment step that the realm confirmed is not sent to it again.
use native.Mathlib.Nat.{le_trans}
use azeroth_core_web.Base.{
  ℕ, ◌≤◌, ◌≡◌, Option, some, List, [], ◌∷◌, Text, if◌then◌else◌, ◌==◌, ◌||◌, contains_num, arith,
  ltb,
}
use azeroth_core_web.Db.{Conn, fail}
use azeroth_core_web.Db.Keeps.{
  Keeps, Keeps-update, Keeps-attempt, Keeps-exec, Keeps-branch, Keeps-bind, keeps_rules,
}
use azeroth_core_web.Http.{problem}
use azeroth_core_web.Tables.{State, StepStatus, Product, Wallet}
use azeroth_core_web.Wallet.{credit, with_wallets, with_products, with_wallets_eq, with_products_eq}
use azeroth_core_web.Delivery.State.{step_status}
use azeroth_core_web.Delivery.Steps.Once.{AtMostOnce, confirmed, allowance}
use azeroth_core_web.Delivery.Queue.{Env, delivery_round, interrupt_orders}
use azeroth_core_web.Delivery.Queue.Once.{delivery_round-Keeps, interrupt_orders-Keeps}
use azeroth_core_web.Delivery.Admin.{
  retry_order, bulk_retry_orders, bulk_one, bulk_loop, bulk_all, credit_state, refund_body,
  refund_order, release_if_limited, Refundable, Retried,
}

retry_order-Keeps :
    (realm : Text) (caller id : Option ℕ) → Keeps AtMostOnce (retry_order realm caller id)
unfolding retry_order
retry_order-Keeps realm caller id = search (keeps_rules, Keeps-update, Keeps-attempt) depth 12

bulk_one-Keeps : (realm : Text) (actor id : ℕ) → Keeps AtMostOnce (bulk_one realm actor id)
unfolding bulk_one
bulk_one-Keeps realm actor id = search (keeps_rules, Keeps-update, Keeps-attempt) depth 8

bulk_loop-AtMostOnce :
    (realm : Text) (actor : ℕ) (seen ids : List ℕ) (c : Conn State)
    → AtMostOnce c.tables
    → AtMostOnce (bulk_loop realm actor seen ids c).1.tables
unfolding bulk_loop
bulk_loop-AtMostOnce realm actor seen [] c h = h
bulk_loop-AtMostOnce realm actor seen (id ∷ ids) c h =
    let skip = (id == 0) || contains_num seen id in
    let (r, c') = (if skip then fail Retried.skipped else bulk_one realm actor id) c in
    bulk_loop-AtMostOnce realm actor (id ∷ seen) ids c' (
      (Keeps-branch skip (fail Retried.skipped) (bulk_one realm actor id) (search keeps_rules)
          (bulk_one-Keeps realm actor id)).at
        c h)

bulk_all-Keeps :
    (realm : Text) (actor : ℕ) (ids : List ℕ) → Keeps AtMostOnce (bulk_all realm actor ids)
unfolding bulk_all
bulk_all-Keeps realm actor ids = record { at = λ c h. bulk_loop-AtMostOnce realm actor [] ids c h }

bulk_retry_orders-Keeps :
    (realm : Text) (caller : Option ℕ) (ids : List ℕ)
    → Keeps AtMostOnce (bulk_retry_orders realm caller ids)
unfolding bulk_retry_orders
bulk_retry_orders-Keeps realm caller ids = search (keeps_rules, bulk_all-Keeps) depth 8

with_wallets-AtMostOnce :
    (s : State)
    → AtMostOnce s
    → (w : Option (List Wallet)) (a : Unit {0}) (t : State) → with_wallets s w ≡ some (a, t)
    → AtMostOnce t
with_wallets-AtMostOnce s h w a t e = let (wallets, _, same) = with_wallets_eq s w e in rw same h

with_products-AtMostOnce :
    (s : State)
    → AtMostOnce s
    → (p : Option (List Product)) (a : Unit {0}) (t : State) → with_products s p ≡ some (a, t)
    → AtMostOnce t
with_products-AtMostOnce s h p a t e = let (products, _, same) = with_products_eq s p e in rw same h

release_if_limited-Keeps :
    (realm : Text) (actor : ℕ) (r : Refundable)
    → Keeps AtMostOnce (release_if_limited realm actor r)
unfolding release_if_limited
release_if_limited-Keeps realm actor r =
    Keeps-branch (ltb 0 r.stock_limit) _ _
      (Keeps-bind _ _ (Keeps-exec _ _ (λ s h a t e. with_products-AtMostOnce s h _ a t e))
        (λ _. search Keeps-update))
      (search keeps_rules)

refund_body-Keeps : (realm : Text) (actor id : ℕ) → Keeps AtMostOnce (refund_body realm actor id)
unfolding refund_body
refund_body-Keeps realm actor id =
    let pay = λ (account amount : ℕ).
      Keeps-exec {I = AtMostOnce} (problem 500 "Could not refund order")
        (credit_state account amount)
        (λ s h a t e. with_wallets-AtMostOnce s h (credit account amount s.wallets) a t e) in
    search (keeps_rules, Keeps-update, pay, release_if_limited-Keeps) depth 20

refund_order-Keeps :
    (realm : Text) (caller id : Option ℕ) → Keeps AtMostOnce (refund_order realm caller id)
unfolding refund_order
refund_order-Keeps realm caller id = search (keeps_rules, refund_body-Keeps) depth 12

-- What can happen to the queue: a tick of the delivery loop, its restart, and the staff's retries and
-- refunds.
pub data Step (env : Env) : Conn State → Conn State → Type 0 where
  round : (c : Conn State) → Step env c (delivery_round env c).1
  restart : (c : Conn State) → Step env c (interrupt_orders env.realm_key c).1
  retry :
      (c : Conn State) (caller id : Option ℕ) → Step env c (retry_order env.realm_key caller id c).1
  bulk_retry :
      (c : Conn State) (caller : Option ℕ) (ids : List ℕ)
      → Step env c (bulk_retry_orders env.realm_key caller ids c).1
  refund :
      (c : Conn State) (caller id : Option ℕ)
      → Step env c (refund_order env.realm_key caller id c).1

pub data Steps (env : Env) (c : Conn State) : Conn State → Type 0 where
  done : Steps env c c
  next : {d e : Conn State} → Steps env c d → Step env d e → Steps env c e

Step-AtMostOnce :
    (env : Env) {c d : Conn State} → Step env c d → AtMostOnce c.tables → AtMostOnce d.tables
Step-AtMostOnce env (round c) h = (delivery_round-Keeps env).at c h
Step-AtMostOnce env (restart c) h = (interrupt_orders-Keeps env.realm_key).at c h
Step-AtMostOnce env (retry c caller id) h = (retry_order-Keeps env.realm_key caller id).at c h
Step-AtMostOnce env (bulk_retry c caller ids) h =
    (bulk_retry_orders-Keeps env.realm_key caller ids).at c h
Step-AtMostOnce env (refund c caller id) h = (refund_order-Keeps env.realm_key caller id).at c h

Steps-AtMostOnce :
    (env : Env) {c d : Conn State} → AtMostOnce c.tables → Steps env c d → AtMostOnce d.tables
Steps-AtMostOnce env h done = h
Steps-AtMostOnce env h (next steps step) = Step-AtMostOnce env step (Steps-AtMostOnce env h steps)

allowance-le-one : (status : Option StepStatus) → allowance status ≤ 1
allowance-le-one status = ground arith

-- In any sequence of delivery ticks, restarts, retries and refunds, with any statements failing and
-- any answers of the worldserver, no step of any order is confirmed by the realm more than once, nor
-- sent to it again once it was confirmed, if at the start every step that is executing or completed
-- was sent at most once from its first confirmation on and no other step was confirmed. Confirmed
-- means that the realm's answer reported success; of a request that was answered with an error, which
-- may have been applied all the same, nothing is said.
pub confirmed-AtMostOnce :
    (env : Env) (c d : Conn State) (o : ℕ) (k : Text)
    → AtMostOnce c.tables
    → Steps env c d
    → confirmed o k d.tables.sends ≤ 1
confirmed-AtMostOnce env c d o k h steps =
    le_trans (Steps-AtMostOnce env h steps o k) (allowance-le-one (step_status o k d.tables.steps))
