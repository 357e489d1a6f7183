-- ===== src/Billing/Checkout.antt =====
-- internal/web/billing.go, `billingWebhook`: the payment provider's events. What the request holds is an
-- argument: whether its body could be read and its signature verified, and the parsed payload. Receipt
-- addresses, error messages and the recipient's notification stand in no modelled column.
pub mod Idempotent
pub mod Once
use azeroth_core_web.Base.{
  ℕ, ◌+◌, ◌&&◌, ◌||◌, not, Bool, true, false, Option, none, some, List, [], ◌∷◌, ◌++◌, Text,
  text_eq, ◌==◌, ltb, leb, if◌then◌else◌, codes, length, find_if, count_if, update_if,
}
use azeroth_core_web.Base.Int.{pos}
use azeroth_core_web.Http.{Problem, problem, or_problem}
use azeroth_core_web.Db.{
  Conn, Exec, Result, ok, err, pure, fail, lift, exec, update, query_or, attempt, transaction,
  stop_if, ◌>>=◌, ◌>>◌,
}
use azeroth_core_web.Tables.{State, Payment, PaymentStatus, PaymentEvent, Gift, Webhook, Reason}
use azeroth_core_web.Wallet.{deposit, entry, with_wallets}
use azeroth_core_web.Billing.Reversal.{
  Event, EventKind, ReversalError, of_intent, apply_stripe_reversal,
}

-- The payload. A number in the metadata is none where it does not parse.
pub record Payload : Type 0 where
  pub event : Text
  pub kind : Text
  pub object : Text
  pub payment_status : Text
  pub intent : Text
  pub dispute_status : Text
  pub amount_total : ℕ
  pub amount_refunded : ℕ
  pub realm_key : Text
  pub account : Option ℕ
  pub credits : Option ℕ
  pub purchaser : Option ℕ

pub record Request : Type 0 where
  pub configured : Bool
  pub readable : Bool
  pub signed : Bool
  pub payload : Option Payload

abbrev pub at_event : Text → Webhook → Bool
at_event event w = text_eq w.event event

-- The event is the primary key of portal_payment_events, and the checkout a unique one.
abbrev pub known_payment : Payload → PaymentEvent → Bool
known_payment p x = text_eq x.event p.event || text_eq x.checkout p.object

-- `INSERT IGNORE INTO portal_payment_webhooks`, and the rows that it inserts
unfoldable pub new_webhook : Payload → State → ℕ
new_webhook p s = if ltb 0 (count_if (at_event p.event) s.webhooks) then 0 else 1

unfoldable pub record_webhook : Payload → State → State
unfolding new_webhook
record_webhook p s = if new_webhook p s == 0 then s else record s {
  webhooks =
      s.webhooks
      ++ record { event = p.event; kind = p.kind; object = p.object; processed = false } ∷ [];
}

unfoldable pub mark_processed : Text → State → State
mark_processed event s = record s {
  webhooks = update_if (at_event event) (λ w. record w { processed = true }) s.webhooks;
}

was_processed : Option Webhook → Bool
was_processed none = false
was_processed (some w) = w.processed

-- `INSERT IGNORE INTO portal_payment_events`
unfoldable pub new_payment : Payload → State → ℕ
new_payment p s = if ltb 0 (count_if (known_payment p) s.payment_events) then 0 else 1

unfoldable pub record_payment : Payload → ℕ → ℕ → State → State
unfolding new_payment
record_payment p account credits s = if new_payment p s == 0 then s else record s {
  payment_events =
      s.payment_events
      ++ record { event = p.event; checkout = p.object; account = account; credits = credits } ∷ [];
}

-- `INSERT IGNORE INTO portal_gifts`: the checkout is a unique key.
unfoldable pub record_gift : Payload → ℕ → ℕ → ℕ → State → State
record_gift p purchaser account credits s =
    if ltb 0 (count_if (λ (g : Gift). text_eq g.checkout p.object) s.gifts) then s else record s {
      gifts =
          s.gifts
          ++ record {
            purchaser = purchaser;
            recipient = account;
            checkout = p.object;
            credits = credits;
          }
            ∷ [];
    }

abbrev pub of_checkout : Text → Payment → Bool
of_checkout checkout x = text_eq x.checkout checkout

abbrev pub paid_again : Payload → Payment → Payment
paid_again p x = record x {
  intent = p.intent;
  amount_total = p.amount_total;
  status = PaymentStatus.paid;
}

-- `INSERT INTO portal_payment_transactions ... ON DUPLICATE KEY UPDATE`: the checkout is the primary
-- key and the payment intent a unique one.
unfoldable pub record_transaction : Payload → ℕ → ℕ → ℕ → List Payment → Option (List Payment)
record_transaction p purchaser account credits payments =
    let same_checkout = count_if (of_checkout p.object) payments in
    let taken = count_if (λ x. of_intent p.intent x && not (of_checkout p.object x)) payments in
    if ltb 0 same_checkout
    then (if ltb 0 taken
        then none
        else some (update_if (of_checkout p.object) (paid_again p) payments))
    else if ltb 0 taken
    then some (update_if (of_intent p.intent) (paid_again p) payments)
    else some (
        payments
        ++ record {
          checkout = p.object;
          intent = p.intent;
          realm_key = p.realm_key;
          purchaser = purchaser;
          recipient = account;
          credits = credits;
          amount_total = p.amount_total;
          status = PaymentStatus.paid;
          refunded_credits = 0;
          dispute = [];
        }
          ∷ [])

abbrev pub with_payments : State → Option (List Payment) → Option (Unit {0} × State)
with_payments s none = none
with_payments s (some payments) = some (tt, record s { payments = payments })

unfoldable pub gift_if : Payload → ℕ → ℕ → ℕ → Exec State Problem Unit
gift_if p purchaser account credits =
    if purchaser == account
    then pure tt
    else update (problem 500 "Could not apply payment") (λ _. tt)
        (record_gift p purchaser account credits)

-- What a new payment brings.
unfoldable pub grant : Payload → ℕ → ℕ → ℕ → Exec State Problem Unit
grant p purchaser account credits = do
  exec (problem 500 "Could not apply payment")
      (λ s. with_wallets s (deposit account credits s.wallets))
  update (problem 500 "Could not apply payment") (λ _. tt {0})
      (λ s. record s {
        ledger = s.ledger ++ entry 0 account (pos credits) (Reason.stripe_checkout p.object) ∷ [];
      })
  gift_if p purchaser account credits
  exec (problem 500 "Could not apply payment")
      (λ s. with_payments s (record_transaction p purchaser account credits s.payments))

unfoldable pub checkout_body : Payload → ℕ → ℕ → ℕ → Exec State Problem Unit
checkout_body p purchaser account credits = do
  inserted ←
      update (problem 500 "Could not record payment") (new_payment p)
        (record_payment p account credits)
  if inserted == 1 then grant p purchaser account credits else pure tt

abbrev or_number : ℕ → Option ℕ → ℕ
or_number default none = default
or_number default (some n) = n

-- A checkout that was paid.
unfoldable pub apply_checkout : Payload → Exec State Problem Unit
apply_checkout p = do
  account ← lift (or_problem p.account (problem 422 "Invalid checkout metadata"))
  credits ← lift (or_problem p.credits (problem 422 "Invalid checkout metadata"))
  stop_if ((credits == 0) || ltb 1000000 credits) (problem 422 "Invalid checkout metadata")
  transaction (problem 503 "Database unavailable") (problem 500 "Could not commit payment")
      (checkout_body p (or_number account p.purchaser) account credits)
  attempt (mark_processed p.event)

reversal_kind : Text → Option EventKind
reversal_kind kind =
    if text_eq kind (codes "charge.refunded")
    then some EventKind.charge_refunded
    else if text_eq kind (codes "charge.dispute.created")
    then some EventKind.dispute_created
    else if text_eq kind (codes "charge.dispute.closed")
    then some EventKind.dispute_closed
    else none

abbrev pub reversal_event : Payload → EventKind → Event
reversal_event p kind = record {
  id = p.event;
  kind = kind;
  object = p.object;
  intent = p.intent;
  dispute_status = p.dispute_status;
  amount_refunded = p.amount_refunded;
}

-- The error's message is written to the webhook's row before it is reported.
unfoldable pub answer : Result ReversalError (Unit {0}) → Exec State Problem Unit
answer (ok a) = pure a
answer (err _) = do attempt (λ s. s); fail (problem 409 "The reversal could not be applied")

unfoldable pub reverse_payment : Event → Exec State Problem Unit
reverse_payment ev c = let (r, c') = apply_stripe_reversal ev c in answer r c'

unfoldable pub charge_succeeded : Payload → Exec State Problem Unit
charge_succeeded p = do attempt (λ s. s); attempt (mark_processed p.event)

unfoldable pub read_processed : ℕ → Text → Exec State Problem Bool
unfolding was_processed
read_processed inserted event =
    if inserted == 0
    then query_or false (λ s. was_processed (find_if (at_event event) s.webhooks))
    else pure false

unfoldable pub handle_other : Payload → Option EventKind → Exec State Problem Unit
handle_other p (some kind) = reverse_payment (reversal_event p kind)
handle_other p none =
    if not (text_eq p.kind (codes "checkout.session.completed"))
      || not (text_eq p.payment_status (codes "paid"))
    then attempt (mark_processed p.event)
    else apply_checkout p

unfoldable pub handle_event : Payload → Exec State Problem Unit
unfolding reversal_kind
handle_event p =
    if text_eq p.kind (codes "charge.succeeded")
    then charge_succeeded p
    else handle_other p (reversal_kind p.kind)

-- `billingWebhook`
unfoldable pub billing_webhook : Request → Exec State Problem Unit
billing_webhook r = do
  stop_if (not r.configured) (problem 503 "Payment webhook is not configured")
  stop_if (not r.readable) (problem 400 "Invalid webhook")
  stop_if (not r.signed) (problem 401 "Invalid webhook signature")
  p ← lift (or_problem r.payload (problem 400 "Invalid webhook payload"))
  inserted ←
      update (problem 500 "Could not record payment event") (new_webhook p) (record_webhook p)
  processed ← read_processed inserted p.event
  if processed then pure tt else handle_event p
