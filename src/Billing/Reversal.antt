-- ===== src/Billing/Reversal.antt =====
-- internal/web/billing.go, `applyStripeReversal`: a refund or a dispute takes the credits of a payment
-- back, and a dispute that is won returns them.
pub mod Owed
pub mod Books
use azeroth_core_web.Base.{
  ℕ, ◌+◌, ◌-◌, ◌*◌, ◌/◌, ◌%◌, ◌^◌, ◌&&◌, ◌||◌, not, Bool, true, false, Option, none, some, List, [],
  ◌∷◌, ◌++◌, Text, text_eq, ◌==◌, ltb, leb, if◌then◌else◌, length, codes, find_if, update_if,
}
use azeroth_core_web.Base.Int.{ℤ, pos}
use azeroth_core_web.Base.Words.{u32_mod, u64_mod}
use azeroth_core_web.Db.{Exec, exec, update, query, transaction, stop_if, pure, ◌>>=◌, ◌>>◌}
use azeroth_core_web.Tables.{State, Payment, PaymentStatus, Reason, Webhook}
use azeroth_core_web.Wallet.{credit, debit_if_covered, entry, negative, with_wallets}

-- The three event types that `billingWebhook` passes on.
pub data EventKind : Type 0 where
  charge_refunded dispute_created dispute_closed : EventKind

pub record Event : Type 0 where
  pub id : Text
  pub kind : EventKind
  pub object : Text
  pub intent : Text
  pub dispute_status : Text
  pub amount_refunded : ℕ

pub data ReversalError : Type 0 where
  no_intent not_found unavailable : ReversalError

is_won : Event → Bool
is_won ev = text_eq ev.dispute_status (codes "won")

is_lost : Event → Bool
is_lost ev = text_eq ev.dispute_status (codes "lost")

-- `uint32((uint64(credits)*amountRefunded + amountTotal - 1) / amountTotal)`
unfoldable pub share : ℕ → ℕ → ℕ → ℕ
share credits refunded total =
    (credits * refunded % u64_mod + total + (u64_mod - 1)) % u64_mod / total % u32_mod

-- The credits that the payment should have given back after the event.
unfoldable pub desired_reversal : Event → Payment → ℕ
unfolding is_lost
desired_reversal ev p = elim ev.kind [
  | EventKind.charge_refunded ↦
      if ltb 0 ev.amount_refunded && ltb 0 p.amount_total && ltb ev.amount_refunded p.amount_total
      then share p.credits ev.amount_refunded p.amount_total
      else p.credits
  | EventKind.dispute_created ↦ p.credits
  | EventKind.dispute_closed ↦ if is_lost ev then p.credits else 0
]

unfoldable pub next_status : Event → Payment → PaymentStatus
unfolding is_won
next_status ev p = elim ev.kind [
  | EventKind.charge_refunded ↦
      if desired_reversal ev p == p.credits
      then PaymentStatus.refunded
      else PaymentStatus.partially_refunded
  | EventKind.dispute_created ↦ PaymentStatus.disputed
  | EventKind.dispute_closed ↦ if is_won ev then PaymentStatus.paid else PaymentStatus.chargeback
]

abbrev pub is_disputed : PaymentStatus → Bool
is_disputed PaymentStatus.disputed = true
is_disputed _ = false

is_closing : EventKind → Bool
is_closing EventKind.dispute_closed = true
is_closing _ = false

-- A dispute was won after its credits were taken.
unfoldable pub returns_credits : Event → Payment → Bool
unfolding is_closing is_won
returns_credits ev p =
    is_closing ev.kind && is_won ev && ltb 0 p.refunded_credits && is_disputed p.status

-- `-int32(n)` of a uint32
unfoldable pub negated_int32 : ℕ → ℤ
negated_int32 n = if leb n (2 ^ 31) then negative n else pos (u32_mod - n)

abbrev pub post : ℕ → ℤ → Reason → State → State
post account amount reason s = record s { ledger = s.ledger ++ entry 0 account amount reason ∷ [] }

-- What the event leaves of a payment: its status and the credits that it has given back.
pub record Outcome : Type 0 where
  pub status : PaymentStatus
  pub refunded : ℕ

unfoldable pub return_credits : Event → Payment → Exec State ReversalError Outcome
return_credits ev p = do
  exec ReversalError.unavailable
      (λ s. with_wallets s (credit p.recipient p.refunded_credits s.wallets))
  update ReversalError.unavailable (λ _. tt {0})
      (post p.recipient (pos p.refunded_credits) (Reason.dispute_won ev.object))
  pure (record { status = next_status ev p; refunded = 0 })

unfoldable pub book_taken : Event → Payment → ℕ → Exec State ReversalError Outcome
book_taken ev p delta = do
  update ReversalError.unavailable (λ _. tt {0})
      (post p.recipient (negated_int32 delta) (Reason.stripe_reversal ev.object))
  pure (record { status = next_status ev p; refunded = desired_reversal ev p })

unfoldable pub take_credits : Event → Payment → Exec State ReversalError Outcome
take_credits ev p = do
  let delta = desired_reversal ev p - p.refunded_credits
  changed ←
      update ReversalError.unavailable (λ s. (debit_if_covered p.recipient delta s.wallets).0)
        (λ s. record s { wallets = (debit_if_covered p.recipient delta s.wallets).1 })
  if changed == 0
      then pure (record { status = PaymentStatus.reversal_review; refunded = p.refunded_credits })
      else book_taken ev p delta

-- The credits that move, and the new status.
unfoldable pub move_credits : Event → Payment → Exec State ReversalError Outcome
move_credits ev p =
    if returns_credits ev p
    then return_credits ev p
    else if ltb p.refunded_credits (desired_reversal ev p)
    then take_credits ev p
    else pure (record { status = next_status ev p; refunded = p.refunded_credits })

abbrev pub of_intent : Text → Payment → Bool
of_intent intent p = text_eq p.intent intent

-- `dispute_id=CASE WHEN ? LIKE 'charge.dispute.%' THEN ? ELSE dispute_id END`
unfoldable pub dispute_id : Event → Text → Text
dispute_id ev old = elim ev.kind [ EventKind.charge_refunded ↦ old | _ ↦ ev.object ]

unfoldable pub settle_row : Event → Outcome → Payment → Payment
settle_row ev o p = record p {
  status = o.status;
  refunded_credits = o.refunded;
  dispute = dispute_id ev p.dispute;
}

unfoldable pub reversal_body : Event → Exec State ReversalError Unit
reversal_body ev = do
  p ← query ReversalError.not_found (λ s. find_if (of_intent ev.intent) s.payments)
  o ← move_credits ev p
  update ReversalError.unavailable (λ _. tt {0})
      (λ s. record s { payments = update_if (of_intent ev.intent) (settle_row ev o) s.payments })
  update ReversalError.unavailable (λ _. tt)
      (λ s. record s {
        webhooks =
            update_if (λ (x : Webhook). text_eq x.event ev.id) (λ x. record x { processed = true })
              s.webhooks;
      })

-- `applyStripeReversal`
unfoldable pub apply_stripe_reversal : Event → Exec State ReversalError Unit
apply_stripe_reversal ev = do
  stop_if (length ev.intent == 0) ReversalError.no_intent
  transaction ReversalError.unavailable ReversalError.unavailable (reversal_body ev)
