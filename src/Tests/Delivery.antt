-- ===== src/Tests/Delivery.antt =====
-- The delivery of the sample order, and its refund.
use mathlib.Core.List.{flatten}
use azeroth_core_web.Base.{
  ℕ, ◌≤◌, ◌≡◌, refl, none, some, List, [], ◌∷◌, codes, length, find_if, count_if, arith, false, ◌+◌,
  ◌/◌, update_if, text_eq,
}
use azeroth_core_web.Base.Int.{pos, ◌+ℤ◌}
use azeroth_core_web.Db.{Conn, ok, transaction, ◌>>=◌, pure, lift, exec, update, query, stop_if}
use azeroth_core_web.Db.Atomic.{AllOrNothing}
use azeroth_core_web.Tables.{State}
use azeroth_core_web.Wallet.{balance_of, credit, set_balance}
use azeroth_core_web.Wallet.Settled.{Settled}
use azeroth_core_web.Delivery.Parcel.{split_item_stacks, chunk_mail_stacks}
use azeroth_core_web.Delivery.Parcel.Laws.{
  total_count, stack_size, AllFit, AllMails, split_item_stacks_exact, chunk_mail_stacks_exact,
}
use azeroth_core_web.Delivery.Steps.{run_order_step}
use azeroth_core_web.Delivery.Steps.Once.{AtMostOnce, confirmed, run_order_step-AtMostOnce}
use azeroth_core_web.Delivery.Queue.{Env, delivery_round, interrupt_orders, soap_run}
use azeroth_core_web.Delivery.Admin.{
  refund_order, read_refundable, completed_of, refund_body, release_if_limited,
}
use azeroth_core_web.Delivery.Admin.Once.{Step, Steps, confirmed-AtMostOnce}
use azeroth_core_web.Delivery.Admin.Refund.{
  Refunded, HasWallet, refund_order-AllOrNothing, refund_order-Settled,
}
use azeroth_core_web.Tests.Samples.{realm, wallets, ledger, tables, conn}

abbrev env : Env
env = record {
  realm_key = realm;
  realm_name = codes "Azeroth";
  character = λ guid account. some (record { name = codes "Thrall"; online = false; class = 7 });
  stackable = λ id. some (pos 20);
  trainer_spells = λ class. none;
  soap = λ tick command. ok (codes "done");
}

abbrev rounds : Conn State
rounds = (delivery_round env (interrupt_orders realm conn).1).1

once_at_start : AtMostOnce tables
once_at_start o k = omega arith

confirmed-AtMostOnce_example : confirmed 1 (codes "level") rounds.tables.sends ≤ 1
confirmed-AtMostOnce_example =
    confirmed-AtMostOnce env conn rounds 1 (codes "level") once_at_start (
      Steps.next (Steps.next Steps.done (Step.restart conn))
        (Step.round (interrupt_orders realm conn).1))

run_order_step-AtMostOnce_example :
    AtMostOnce
      (run_order_step 1
        (codes "level")
        (codes "character_level")
        (soap_run env (codes "go"))
        conn).1.tables
run_order_step-AtMostOnce_example =
    run_order_step-AtMostOnce 1 (codes "level") (codes "character_level")
      (soap_run env (codes "go")) conn (λ c. (refl, refl)) once_at_start

split_item_stacks_exact_example :
    (total_count (split_item_stacks 6948 45 (pos 20)) ≡ 45)
    × AllFit 6948 (stack_size (pos 20)) (split_item_stacks 6948 45 (pos 20))
split_item_stacks_exact_example = split_item_stacks_exact 6948 45 (pos 20)

abbrev thirteen : List ℕ
thirteen = 1 ∷ 2 ∷ 3 ∷ 4 ∷ 5 ∷ 6 ∷ 7 ∷ 8 ∷ 9 ∷ 10 ∷ 11 ∷ 12 ∷ 13 ∷ []

chunk_mail_stacks_exact_example :
    (flatten (chunk_mail_stacks thirteen) ≡ thirteen)
    × AllMails (chunk_mail_stacks thirteen)
    × (length (chunk_mail_stacks thirteen) ≡ (length thirteen + 11) / 12)
chunk_mail_stacks_exact_example = chunk_mail_stacks_exact thirteen

Settled-at_start : Settled wallets ledger
unfolding balance_of find_if ◌+ℤ◌
Settled-at_start a = ground arith

has_wallet : HasWallet realm 1 tables
unfolding read_refundable balance_of find_if completed_of count_if
has_wallet r found missing = ground (arith, found, missing)

refund_order-AllOrNothing_example :
    AllOrNothing tables (Refunded realm 2 1 tables) (refund_order realm (some 2) (some 1) conn)
refund_order-AllOrNothing_example = refund_order-AllOrNothing realm 2 1 conn has_wallet

refund_order-Settled_example :
    let t = (refund_order realm (some 2) (some 1) conn).1.tables in Settled t.wallets t.ledger
refund_order-Settled_example = refund_order-Settled realm 2 1 conn Settled-at_start has_wallet

refund_accepted : (refund_order realm (some 2) (some 1) conn).0 ≡ ok tt
unfolding transaction ◌>>=◌ pure lift exec update query stop_if find_if count_if update_if text_eq
    balance_of credit set_balance refund_order refund_body read_refundable completed_of
    release_if_limited
refund_accepted = refl
