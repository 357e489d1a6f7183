-- ===== src/Billing/Checkout/Once.antt =====
-- internal/web/billing.go, `billingWebhook` as a whole: whatever the provider sends, and however often
-- it sends it again, a checkout is credited once.
use native.Mathlib.Nat.{le_trans}
use azeroth_core_web.Base.{
  ℕ, ◌≤◌, ◌≡◌, ◌||◌, not, Option, none, some, List, [], ◌∷◌, Text, text_eq, ◌==◌, arith, ltb,
  count_if-append_one, codes,
}
use azeroth_core_web.Base.Int.{ℤ}
use azeroth_core_web.Db.{Conn, Result, ok, err, query_or, attempt, update, transaction}
use azeroth_core_web.Db.Atomic.{transaction-Keeps}
use azeroth_core_web.Db.Keeps.{
  Keeps, Keeps-branch, Keeps-bind, Keeps-exec, Keeps-update, Keeps-attempt, keeps_rules,
}
use azeroth_core_web.Http.{Problem}
use azeroth_core_web.Tables.{State, Wallet, Reason}
use azeroth_core_web.Wallet.{credit, entry, with_wallets, with_wallets_eq}
use azeroth_core_web.Billing.Reversal.{
  Event, EventKind, ReversalError, returns_credits, desired_reversal, return_credits, book_taken,
  take_credits, move_credits, reversal_body, apply_stripe_reversal, post,
}
use azeroth_core_web.Billing.Checkout.{
  Payload, Request, record_webhook, new_webhook, mark_processed, checkout_body, apply_checkout,
  answer, reverse_payment, charge_succeeded, read_processed, handle_other, handle_event,
  billing_webhook,
}
use azeroth_core_web.Billing.Checkout.Idempotent.{
  PaidOnce, is_grant, grants, checkout_body-PaidOnce,
}

-- Entries for other reasons credit no checkout.
post_return-PaidOnce :
    (account : ℕ) (amount : ℤ) (object : Text) (s : State)
    → PaidOnce s
    → PaidOnce (post account amount (Reason.dispute_won object) s)
post_return-PaidOnce account amount object s h o = ground (
  arith,
  h o,
  count_if-append_one (is_grant o) (entry 0 account amount (Reason.dispute_won object)) s.ledger,
)

post_taken-PaidOnce :
    (account : ℕ) (amount : ℤ) (object : Text) (s : State)
    → PaidOnce s
    → PaidOnce (post account amount (Reason.stripe_reversal object) s)
post_taken-PaidOnce account amount object s h o = ground (
  arith,
  h o,
  count_if-append_one (is_grant o) (entry 0 account amount (Reason.stripe_reversal object))
      s.ledger,
)

with_wallets-PaidOnce :
    (s : State)
    → PaidOnce s
    → (w : Option (List Wallet)) (a : Unit {0}) (t : State) → with_wallets s w ≡ some (a, t)
    → PaidOnce t
with_wallets-PaidOnce s h w a t e = let (_, _, same) = with_wallets_eq s w e in rw same h

return_credits-Keeps : (ev : Event) (p : _) → Keeps PaidOnce (return_credits ev p)
unfolding return_credits
return_credits-Keeps ev p =
    Keeps-bind _ _
      (Keeps-exec _ _ (λ s h a t e.
        with_wallets-PaidOnce s h (credit p.recipient p.refunded_credits s.wallets) a t e))
      (λ _.
        Keeps-bind _ _
          (Keeps-update _ _ _ (λ s h. post_return-PaidOnce p.recipient _ ev.object s h))
          (λ _. search keeps_rules))

book_taken-Keeps : (ev : Event) (p : _) (delta : ℕ) → Keeps PaidOnce (book_taken ev p delta)
unfolding book_taken
book_taken-Keeps ev p delta =
    Keeps-bind _ _ (Keeps-update _ _ _ (λ s h. post_taken-PaidOnce p.recipient _ ev.object s h))
      (λ _. search keeps_rules)

take_credits-Keeps : (ev : Event) (p : _) → Keeps PaidOnce (take_credits ev p)
unfolding take_credits
take_credits-Keeps ev p =
    Keeps-bind _ _ (Keeps-update _ _ _ (λ s h. h))
      (λ changed. Keeps-branch (changed == 0) _ _ (search keeps_rules) (book_taken-Keeps ev p _))

move_credits-Keeps : (ev : Event) (p : _) → Keeps PaidOnce (move_credits ev p)
unfolding move_credits
move_credits-Keeps ev p = Keeps-branch (returns_credits ev p) _ _ (return_credits-Keeps ev p) (
    Keeps-branch (ltb p.refunded_credits (desired_reversal ev p)) _ _ (take_credits-Keeps ev p)
      (search keeps_rules))

reversal_body-Keeps : (ev : Event) → Keeps PaidOnce (reversal_body ev)
unfolding reversal_body
reversal_body-Keeps ev = search (keeps_rules, move_credits-Keeps, Keeps-update) depth 12

apply_stripe_reversal-Keeps : (ev : Event) → Keeps PaidOnce (apply_stripe_reversal ev)
unfolding apply_stripe_reversal
apply_stripe_reversal-Keeps ev = search (keeps_rules, reversal_body-Keeps) depth 8

answer-Keeps : (r : Result ReversalError (Unit {0})) → Keeps PaidOnce (answer r)
unfolding answer
answer-Keeps (ok a) = search keeps_rules
answer-Keeps (err e) = search (keeps_rules, Keeps-attempt) depth 8

reverse_payment-Keeps : (ev : Event) → Keeps PaidOnce (reverse_payment ev)
unfolding reverse_payment
reverse_payment-Keeps ev = record {
  at = λ c h.
      (answer-Keeps (apply_stripe_reversal ev c).0).at _ ((apply_stripe_reversal-Keeps ev).at c h);
}

mark_processed-Keeps :
    (event : Text) → Keeps PaidOnce (attempt {E = Problem} (mark_processed event))
unfolding mark_processed
mark_processed-Keeps event = Keeps-attempt _ (λ s h. h)

transaction-checkout_body-Keeps :
    (unavailable e : Problem) (p : Payload) (purchaser account credits : ℕ)
    → Keeps PaidOnce (transaction unavailable e (checkout_body p purchaser account credits))
transaction-checkout_body-Keeps unavailable e p purchaser account credits =
    transaction-Keeps PaidOnce unavailable e (checkout_body p purchaser account credits)
      (checkout_body-PaidOnce p purchaser account credits)

apply_checkout-Keeps : (p : Payload) → Keeps PaidOnce (apply_checkout p)
unfolding apply_checkout
apply_checkout-Keeps p =
    search (keeps_rules, transaction-checkout_body-Keeps, mark_processed-Keeps) depth 16

charge_succeeded-Keeps : (p : Payload) → Keeps PaidOnce (charge_succeeded p)
unfolding charge_succeeded
charge_succeeded-Keeps p = search (keeps_rules, Keeps-attempt, mark_processed-Keeps) depth 8

handle_other-Keeps : (p : Payload) (kind : Option EventKind) → Keeps PaidOnce (handle_other p kind)
unfolding handle_other
handle_other-Keeps p (some kind) = reverse_payment-Keeps _
handle_other-Keeps p none =
    Keeps-branch
      (not (text_eq p.kind (codes "checkout.session.completed"))
        || not (text_eq p.payment_status (codes "paid")))
      _ _ (mark_processed-Keeps p.event) (apply_checkout-Keeps p)

handle_event-Keeps : (p : Payload) → Keeps PaidOnce (handle_event p)
unfolding handle_event
handle_event-Keeps p =
    Keeps-branch (text_eq p.kind (codes "charge.succeeded")) _ _ (charge_succeeded-Keeps p)
      (handle_other-Keeps p _)

query_or-Keeps :
    {A : Type 0} (default : A) (f : State → A) → Keeps PaidOnce (query_or {E = Problem} default f)
unfolding query_or
query_or-Keeps default f = record { at = λ c h. h }

read_processed-Keeps :
    (inserted : ℕ) (event : Text) → Keeps PaidOnce (read_processed inserted event)
unfolding read_processed
read_processed-Keeps inserted event =
    Keeps-branch (inserted == 0) _ _ (query_or-Keeps _ _) (search keeps_rules)

record_webhook-PaidOnce : (p : Payload) (s : State) → PaidOnce s → PaidOnce (record_webhook p s)
unfolding record_webhook
record_webhook-PaidOnce p s h o = ground (arith, h o)

record_webhook-Keeps :
    (e : Problem) (p : Payload) → Keeps PaidOnce (update e (new_webhook p) (record_webhook p))
record_webhook-Keeps e p =
    Keeps-update e (new_webhook p) (record_webhook p) (record_webhook-PaidOnce p)

billing_webhook-Keeps : (r : Request) → Keeps PaidOnce (billing_webhook r)
unfolding billing_webhook
billing_webhook-Keeps r =
    search (keeps_rules, record_webhook-Keeps, read_processed-Keeps, handle_event-Keeps) depth 20

-- The provider's deliveries, one after the other.
abbrev pub deliver : List Request → Conn State → Conn State
deliver [] c = c
deliver (r ∷ requests) c = deliver requests (billing_webhook r c).1

deliver-PaidOnce :
    (requests : List Request) (c : Conn State)
    → PaidOnce c.tables
    → PaidOnce (deliver requests c).tables
deliver-PaidOnce [] c h = h
deliver-PaidOnce (r ∷ requests) c h =
    deliver-PaidOnce requests (billing_webhook r c).1 ((billing_webhook-Keeps r).at c h)

-- After any sequence of webhook requests, with any statements failing, no checkout is credited more
-- than once in the ledger, if at the start no checkout was credited more often than it was recorded,
-- nor recorded twice.
pub deliver-grants_once :
    (requests : List Request) (c : Conn State) (checkout : Text)
    → PaidOnce c.tables
    → grants checkout (deliver requests c).tables ≤ 1
deliver-grants_once requests c checkout h =
    let (credited, recorded) = deliver-PaidOnce requests c h checkout in le_trans credited recorded
