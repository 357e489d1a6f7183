-- ===== src/Billing/Checkout/Idempotent.antt =====
-- internal/web/billing.go, `billingWebhook`: a checkout is credited once, however often it is reported.
use azeroth_core_web.Base.{
  ℕ, ◌≤◌, ◌≡◌, refl, Bool, true, false, Option, none, some, List, [], ◌∷◌, ◌++◌, Text, text_eq,
  text_eq→eq, text_eq_refl, ◌==◌, arith, count_if, count_if-append_one,
}
use azeroth_core_web.Base.Int.{pos}
use azeroth_core_web.Db.{Conn, pure}
use azeroth_core_web.Db.Rules.{exec-bind, update-bind, branch, exec_end}
use azeroth_core_web.Db.Atomic.{OnOk, chain, Keeps-OnOk}
use azeroth_core_web.Db.Keeps.{Keeps, Keeps-branch, Keeps-update, keeps_rules}
use azeroth_core_web.Http.{Problem}
use azeroth_core_web.Tables.{State, LedgerEntry, Reason, PaymentEvent, Wallet, Payment}
use azeroth_core_web.Wallet.{deposit, entry, with_wallets, with_wallets_eq}
use azeroth_core_web.Billing.Checkout.{
  Payload, known_payment, new_payment, record_payment, gift_if, record_gift, grant, with_payments,
  checkout_body,
}

-- The entries that credit a checkout, and the payments recorded for it.
abbrev pub is_grant : Text → LedgerEntry → Bool
is_grant checkout e = elim e.reason [ Reason.stripe_checkout x ↦ text_eq x checkout | _ ↦ false ]

abbrev pub grants : Text → State → ℕ
grants checkout s = count_if (is_grant checkout) s.ledger

abbrev pub payments_of : Text → State → ℕ
payments_of checkout s =
    count_if (λ (x : PaymentEvent). text_eq x.checkout checkout) s.payment_events

-- No checkout is credited more often than it is recorded, nor recorded twice.
abbrev pub PaidOnce : State → Type 0
PaidOnce s = (o : Text) → (grants o s ≤ payments_of o s) × (payments_of o s ≤ 1)

-- The same, and this checkout is recorded but not credited yet.
abbrev IsDue : Text → State → Type 0
IsDue checkout s = PaidOnce s × (grants checkout s ≡ 0) × (payments_of checkout s ≡ 1)

unknown_checkout :
    (p : Payload) (rows : List PaymentEvent)
    → count_if (known_payment p) rows ≡ 0
    → count_if (λ (x : PaymentEvent). text_eq x.checkout p.object) rows ≡ 0
unfolding count_if
unknown_checkout p [] h = refl
unknown_checkout p (x ∷ rows) h = ground (arith, unknown_checkout p rows)

record_payment-IsDue :
    (p : Payload) (account credits : ℕ) (s : State)
    → PaidOnce s
    → (new_payment p s == 1) ≡ true
    → IsDue p.object (record_payment p account credits s)
unfolding new_payment record_payment
record_payment-IsDue p account credits s h new =
    let row : PaymentEvent = record {
      event = p.event;
      checkout = p.object;
      account = account;
      credits = credits;
    } in
    let unknown : count_if (known_payment p) s.payment_events ≡ 0 = ground arith in
    let before = unknown_checkout p s.payment_events unknown in
    let added = λ (o : Text).
      count_if-append_one (λ (x : PaymentEvent). text_eq x.checkout o) row s.payment_events in
    let written : record_payment p account credits s
        ≡ record s { payment_events = s.payment_events ++ row ∷ [] } =
      ground arith in
    rw written (
      (λ o. ground (arith, h o, added o, before, text_eq→eq p.object o)),
      ground (arith, h p.object, before),
      ground (arith, added p.object, before, text_eq_refl p.object),
    )

record_payment-PaidOnce :
    (p : Payload) (account credits : ℕ) (s : State)
    → PaidOnce s
    → (new_payment p s == 1) ≡ false
    → PaidOnce (record_payment p account credits s)
unfolding new_payment record_payment
record_payment-PaidOnce p account credits s h old o = ground (arith, h o)

post_grant-PaidOnce :
    (checkout : Text) (account credits : ℕ) (s : State)
    → IsDue checkout s
    → PaidOnce (record s {
      ledger = s.ledger ++ entry 0 account (pos credits) (Reason.stripe_checkout checkout) ∷ [];
    })
post_grant-PaidOnce checkout account credits s (h, none_yet, recorded) o = ground (
  arith,
  h o,
  none_yet,
  recorded,
  text_eq→eq checkout o,
  count_if-append_one (is_grant o) (entry 0 account (pos credits) (Reason.stripe_checkout checkout))
      s.ledger,
)

with_wallets-IsDue :
    (checkout : Text) (s : State) (w : Option (List Wallet)) (a : Unit {0}) (t : State)
    → IsDue checkout s
    → with_wallets s w ≡ some (a, t)
    → IsDue checkout t
with_wallets-IsDue checkout s w a t h e = let (_, _, same) = with_wallets_eq s w e in rw same h

with_payments-PaidOnce :
    (s : State)
    → PaidOnce s
    → (p : Option (List Payment)) (a : Unit {0}) (t : State) → with_payments s p ≡ some (a, t)
    → PaidOnce t
with_payments-PaidOnce s h none a t e = cc
with_payments-PaidOnce s h (some payments) a t e =
    let same : t ≡ record s { payments = payments } = cc in rw same h

record_gift-PaidOnce :
    (p : Payload) (purchaser account credits : ℕ) (s : State)
    → PaidOnce s
    → PaidOnce (record_gift p purchaser account credits s)
unfolding record_gift
record_gift-PaidOnce p purchaser account credits s h o = ground (arith, h o)

gift_if-Keeps :
    (p : Payload) (purchaser account credits : ℕ)
    → Keeps PaidOnce (gift_if p purchaser account credits)
unfolding gift_if
gift_if-Keeps p purchaser account credits =
    Keeps-branch (purchaser == account) _ _ (search keeps_rules)
      (Keeps-update _ _ _ (record_gift-PaidOnce p purchaser account credits))

abbrev pub Paid : Unit {0} → State → Type 0
Paid _ t = PaidOnce t

grant-PaidOnce :
    (p : Payload) (purchaser account credits : ℕ) (c : Conn State)
    → IsDue p.object c.tables
    → OnOk Paid (grant p purchaser account credits c)
unfolding grant
grant-PaidOnce p purchaser account credits c due =
    let P = OnOk {E = Problem} Paid in
    exec-bind P _ _ _ c tt λ a t paid.
      let due' =
        with_wallets-IsDue p.object c.tables (deposit account credits c.tables.wallets) a t due
          paid in
      update-bind P _ _ _ _ _ tt (
        chain Paid Paid _ _ _
          (Keeps-OnOk PaidOnce (gift_if p purchaser account credits) _
            (gift_if-Keeps p purchaser account credits)
            (post_grant-PaidOnce p.object account credits t due'))
          λ _ d h. exec_end P _ _ d tt (λ b u e. with_payments-PaidOnce d.tables h _ b u e))

pub checkout_body-PaidOnce :
    (p : Payload) (purchaser account credits : ℕ) (c : Conn State)
    → PaidOnce c.tables
    → OnOk Paid (checkout_body p purchaser account credits c)
unfolding checkout_body pure
checkout_body-PaidOnce p purchaser account credits c h =
    let P = OnOk {E = Problem} Paid in
    update-bind P _ _ _ _ _ tt (
      branch P (new_payment p c.tables == 1) _ _ _
        (λ new.
          grant-PaidOnce p purchaser account credits _
            (record_payment-IsDue p account credits c.tables h new))
        (λ old. record_payment-PaidOnce p account credits c.tables h old))
