-- ===== src/Billing/Reversal/Owed.antt =====
-- internal/web/billing.go, `applyStripeReversal`: what a payment owes after an event, described apart
-- from the handler, and that the handler computes it.
use native.Mathlib.Nat.{mul-le-mul, div-lt_iff_lt-mul, div-mul-le_self, lt-div-mul-add}
use azeroth_core_web.Base.{
  ℕ, ◌+◌, ◌-◌, ◌*◌, ◌/◌, ◌%◌, ◌^◌, ◌≤◌, ◌<◌, ◌≡◌, ◌⊎◌, ◌&&◌, Bool, true, false, some, List, ◌==◌,
  arith, ltb, text_eq, codes, if◌then◌else◌,
}
use azeroth_core_web.Base.Words.{u32_mod, u64_mod}
use azeroth_core_web.Tables.{Payment, PaymentStatus, Wallet}
use azeroth_core_web.Wallet.{balance_of, debit_if_covered}
use azeroth_core_web.Billing.Reversal.{
  Event, EventKind, Outcome, share, desired_reversal, next_status, is_disputed, returns_credits,
}

-- The sum that `share` divides, with its wrap-around, is below the next multiple.
share_sum :
    (product total : ℕ)
    → 0 < total
    → (product % u64_mod + total + (u64_mod - 1)) % u64_mod < product + total
share_sum product total h = omega arith

share_le : (credits refunded total : ℕ) → refunded < total → share credits refunded total ≤ credits
unfolding share
share_le credits refunded total h =
    let product : credits * refunded ≤ credits * total = mul-le-mul (omega arith) (omega arith) in
    let sum = share_sum (credits * refunded) total (omega arith) in
    let below : (credits * refunded % u64_mod + total + (u64_mod - 1)) % u64_mod
        < (credits + 1) * total =
      omega (arith, product, sum) in
    let quotient : (credits * refunded % u64_mod + total + (u64_mod - 1)) % u64_mod / total
        < credits + 1 =
      (div-lt_iff_lt-mul {k = total} (omega arith)).1 below in
    omega (arith, quotient)

pub desired_le : (ev : Event) (p : Payment) → desired_reversal ev p ≤ p.credits
unfolding desired_reversal
desired_le ev p = ground (arith, share_le p.credits ev.amount_refunded p.amount_total)

share_ceil :
    (credits refunded total : ℕ)
    → credits ≤ 1000000
    → refunded < total
    → total ≤ 2 ^ 40
    → let n = share credits refunded total in
      (credits * refunded ≤ n * total) × (n * total < credits * refunded + total)
unfolding share
share_ceil credits refunded total few partial small =
    let below : credits * refunded ≤ credits * total = mul-le-mul (omega arith) (omega arith) in
    let product : credits * refunded ≤ 1000000 * 2 ^ 40 =
      mul-le-mul {m₂ = 2 ^ 40} few (omega (arith, partial, small)) in
    let sum : (credits * refunded % u64_mod + total + (u64_mod - 1)) % u64_mod
        ≡ credits * refunded + total - 1 =
      omega (arith, product, partial, small) in
    let n = (credits * refunded + total - 1) / total in
    let bounded : n < credits + 1 =
      (div-lt_iff_lt-mul {k = total} (omega arith)).1 (omega (arith, below)) in
    let whole : n % u32_mod ≡ n = omega (arith, bounded, few) in
    let low = div-mul-le_self (credits * refunded + total - 1) total in
    let high : credits * refunded + total - 1 < n * total + total =
      lt-div-mul-add (omega (arith, partial)) in
    rw (sum, whole) (omega (arith, low, high, partial), omega (arith, low, partial))

-- The credits that a payment should have given back after an event: for a refund of a part of the
-- amount its share, rounded up, and all of them for any other refund; all for a new dispute; and all or
-- none for one that is closed.
abbrev pub OwedBy : EventKind → Event → Payment → ℕ → Type 0
OwedBy EventKind.charge_refunded ev p n =
    ((0 < ev.amount_refunded)
      × (ev.amount_refunded < p.amount_total)
      × (p.credits * ev.amount_refunded ≤ n * p.amount_total)
      × (n * p.amount_total < p.credits * ev.amount_refunded + p.amount_total))
    ⊎ (((ev.amount_refunded ≡ 0) ⊎ (p.amount_total ≤ ev.amount_refunded)) × (n ≡ p.credits))
OwedBy EventKind.dispute_created ev p n = n ≡ p.credits
OwedBy EventKind.dispute_closed ev p n =
    n ≡ (if text_eq ev.dispute_status (codes "lost") then p.credits else 0)

-- The status that an event gives to a payment that owes n credits.
abbrev pub status_after : EventKind → Event → Payment → ℕ → PaymentStatus
status_after EventKind.charge_refunded ev p n =
    if n == p.credits then PaymentStatus.refunded else PaymentStatus.partially_refunded
status_after EventKind.dispute_created ev p n = PaymentStatus.disputed
status_after EventKind.dispute_closed ev p n =
    if text_eq ev.dispute_status (codes "won") then PaymentStatus.paid else PaymentStatus.chargeback

-- A dispute was won whose credits were taken.
abbrev pub won_back : EventKind → Event → Payment → Bool
won_back EventKind.dispute_closed ev p =
    text_eq ev.dispute_status (codes "won") && ltb 0 p.refunded_credits && is_disputed p.status
won_back _ ev p = false

-- What a payment has given back after an event, for a wallet that had a balance.
pub data IsEffect (ev : Event) (p : Payment) (had n : ℕ) (o : Outcome) : Type 0 where
  returned :
      won_back ev.kind ev p ≡ true
      → o.refunded ≡ 0
      → o.status ≡ status_after ev.kind ev p n
      → IsEffect ev p had n o
  enough :
      won_back ev.kind ev p ≡ false
      → n ≤ p.refunded_credits
      → o.refunded ≡ p.refunded_credits
      → o.status ≡ status_after ev.kind ev p n
      → IsEffect ev p had n o
  taken :
      won_back ev.kind ev p ≡ false
      → p.refunded_credits < n
      → n - p.refunded_credits ≤ had
      → o.refunded ≡ n
      → o.status ≡ status_after ev.kind ev p n
      → IsEffect ev p had n o
  uncovered :
      won_back ev.kind ev p ≡ false
      → p.refunded_credits < n
      → had < n - p.refunded_credits
      → o.refunded ≡ p.refunded_credits
      → o.status ≡ PaymentStatus.reversal_review
      → IsEffect ev p had n o

pub desired_reversal-OwedBy :
    (ev : Event) (p : Payment)
    → p.credits ≤ 1000000
    → p.amount_total ≤ 2 ^ 40
    → OwedBy ev.kind ev p (desired_reversal ev p)
unfolding desired_reversal
desired_reversal-OwedBy ev p few small =
    ground (arith, share_ceil p.credits ev.amount_refunded p.amount_total few, small)

pub next_status-after :
    (ev : Event) (p : Payment)
    → next_status ev p ≡ status_after ev.kind ev p (desired_reversal ev p)
unfolding next_status
next_status-after ev p = ground arith

pub returns_credits-won_back :
    (ev : Event) (p : Payment) → returns_credits ev p ≡ won_back ev.kind ev p
unfolding returns_credits
returns_credits-won_back ev p = ground arith

pub not_covered :
    (b n old : ℕ) (wallets : List Wallet)
    → balance_of b wallets ≡ some old
    → (debit_if_covered b n wallets).0 ≡ 0
    → old < n
unfolding debit_if_covered
not_covered b n old wallets found none_changed = ground arith
