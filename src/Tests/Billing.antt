-- ===== src/Tests/Billing.antt =====
-- The sample gift code and a partial refund of the sample payment.
use azeroth_core_web.Base.{
  ◌≤◌, ◌≡◌, some, none, true, List, [], ◌∷◌, Text, codes, find_if, count_if, arith, keep_if,
  update_if, text_eq, trim_space, upper, is_space, refl,
}
use azeroth_core_web.Base.Int.{◌+ℤ◌}
use azeroth_core_web.Db.Atomic.{AllOrNothing}
use azeroth_core_web.Tables.{Payment}
use azeroth_core_web.Wallet.{balance_of, deposit, set_balance, debit_if_covered}
use azeroth_core_web.Wallet.Settled.{Settled}
use azeroth_core_web.Billing.Gifts.{
  redeem_gift_code, normalize_gift_code, redeem_body, is_spent, insert_use,
}
use azeroth_core_web.Billing.Gifts.Books.{
  IsRedeemed, redeem_gift_code-AllOrNothing, redeem_gift_code-Settled,
}
use azeroth_core_web.Billing.Reversal.{
  Event, EventKind, of_intent, apply_stripe_reversal, reversal_body, move_credits, returns_credits,
  desired_reversal, share, take_credits, book_taken, settle_row,
}
use azeroth_core_web.Billing.Reversal.Books.{
  IsSound, IsReversal, apply_stripe_reversal-AllOrNothing,
}
use azeroth_core_web.Billing.Checkout.{
  Payload, Request, billing_webhook, handle_event, handle_other, apply_checkout, checkout_body,
  grant, gift_if, new_webhook, record_webhook, new_payment, record_payment, record_transaction,
  read_processed, mark_processed, charge_succeeded,
}
use azeroth_core_web.Billing.Checkout.Idempotent.{PaidOnce, grants}
use azeroth_core_web.Billing.Checkout.Once.{deliver, deliver-grants_once}
use azeroth_core_web.Db.{
  ok, transaction, ◌>>=◌, pure, lift, exec, update, query, query_or, stop_if, attempt,
}
use azeroth_core_web.Tests.Samples.{realm, wallets, ledger, tables, conn}

-- A stand-in for the hash.
abbrev same_text : Text → Text
same_text s = s

redeem_gift_code-AllOrNothing_example :
    AllOrNothing tables
      (IsRedeemed realm 1000 7 (same_text (normalize_gift_code (codes " gift"))) tables)
      (redeem_gift_code same_text realm 1000 7 (codes " gift") conn)
redeem_gift_code-AllOrNothing_example =
    redeem_gift_code-AllOrNothing same_text realm 1000 7 (codes " gift") conn

Settled-at_start : Settled wallets ledger
unfolding balance_of find_if ◌+ℤ◌
Settled-at_start a = ground arith

redeem_gift_code-Settled_example :
    let t = (redeem_gift_code same_text realm 1000 7 (codes " gift") conn).1.tables in
    Settled t.wallets t.ledger
redeem_gift_code-Settled_example =
    redeem_gift_code-Settled same_text realm 1000 7 (codes " gift") conn Settled-at_start

abbrev refund_event : Event
refund_event = record {
  id = codes "evt_1";
  kind = EventKind.charge_refunded;
  object = codes "ch_1";
  intent = codes "pi_1";
  dispute_status = codes "";
  amount_refunded = 333;
}

payment-IsSound :
    (p : Payment) → find_if (of_intent (codes "pi_1")) tables.payments ≡ some p → IsSound tables p
unfolding find_if balance_of
payment-IsSound p found = record {
  given_back = ground (arith, found);
  small = ground (arith, found);
  amount = ground (arith, found);
  wallet = λ missing. ground (arith, found, missing);
}

apply_stripe_reversal-AllOrNothing_example :
    AllOrNothing tables
      (λ (_ : Unit {0}) t. IsReversal refund_event tables t)
      (apply_stripe_reversal refund_event conn)
apply_stripe_reversal-AllOrNothing_example =
    apply_stripe_reversal-AllOrNothing refund_event conn Settled-at_start payment-IsSound

abbrev paid : Payload
paid = record {
  event = codes "evt_2";
  kind = codes "checkout.session.completed";
  object = codes "cs_2";
  payment_status = codes "paid";
  intent = codes "pi_2";
  dispute_status = codes "";
  amount_total = 500;
  amount_refunded = 0;
  realm_key = realm;
  account = some 8;
  credits = some 250;
  purchaser = none;
}

-- The provider reports the checkout twice, under two events.
abbrev reports : List Request
reports =
    (record { configured = true; readable = true; signed = true; payload = some paid })
    ∷ (record {
      configured = true;
      readable = true;
      signed = true;
      payload = some (record paid { event = codes "evt_3" });
    })
    ∷ []

PaidOnce-at_start : PaidOnce tables
unfolding count_if
PaidOnce-at_start o = (ground arith, ground arith)

deliver-grants_once_example : grants (codes "cs_2") (deliver reports conn).tables ≤ 1
deliver-grants_once_example = deliver-grants_once reports conn (codes "cs_2") PaidOnce-at_start

redeem_accepted : (redeem_gift_code same_text realm 1000 7 (codes " gift") conn).0 ≡ ok 50
unfolding transaction ◌>>=◌ pure exec update query stop_if find_if count_if keep_if update_if
    text_eq trim_space upper is_space balance_of deposit redeem_gift_code redeem_body
    normalize_gift_code is_spent insert_use
redeem_accepted = refl

-- A third of 1000 was refunded: 134 of the 400 credits are taken.
reversal_accepted :
    balance_of 7 (apply_stripe_reversal refund_event conn).1.tables.wallets ≡ some 366
unfolding transaction ◌>>=◌ pure exec update query stop_if find_if count_if update_if text_eq
    balance_of set_balance debit_if_covered apply_stripe_reversal reversal_body move_credits
    returns_credits desired_reversal share take_credits book_taken settle_row
reversal_accepted = refl

paid_once : grants (codes "cs_2") (deliver reports conn).tables ≡ 1
unfolding transaction ◌>>=◌ pure lift exec update query query_or stop_if attempt find_if count_if
    update_if text_eq balance_of deposit billing_webhook handle_event handle_other apply_checkout
    checkout_body grant gift_if new_webhook record_webhook new_payment record_payment
    record_transaction read_processed mark_processed charge_succeeded
paid_once = refl
