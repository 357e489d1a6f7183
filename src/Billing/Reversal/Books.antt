-- ===== src/Billing/Reversal/Books.antt =====
-- internal/web/billing.go, `applyStripeReversal`: a reversal moves credits and makes none.
use azeroth_core_web.Base.{
  ℕ, ◌+◌, ◌-◌, ◌^◌, ◌≤◌, ◌<◌, ◌≡◌, ◌≢◌, refl, sym, ◌∙◌, true, false, none, some, ◌==◌, arith, ltb,
  find_if, update_if, ltb→lt, Option-cases, inl, inr,
}
use azeroth_core_web.Db.{Conn, sent}
use azeroth_core_web.Db.Rules.{
  exec-bind, query-bind, update-bind, update_end, stop_if-bind, pure_end, branch,
}
use azeroth_core_web.Db.Atomic.{OnOk, AllOrNothing, transaction-AllOrNothing, chain}
use azeroth_core_web.Tables.{State, Payment, Reason}
use azeroth_core_web.Wallet.{balance_of, debit_if_covered, negative, with_wallets_eq}
use azeroth_core_web.Wallet.Settled.{
  Settled, balance_or_0, credit-Settled, debit_if_covered-Settled,
}
use azeroth_core_web.Billing.Reversal.Owed.{
  OwedBy, IsEffect, won_back, desired_le, desired_reversal-OwedBy, next_status-after,
  returns_credits-won_back, not_covered,
}
use azeroth_core_web.Billing.Reversal.{
  Event, ReversalError, Outcome, desired_reversal, returns_credits, negated_int32, return_credits,
  book_taken, take_credits, move_credits, of_intent, settle_row, reversal_body,
  apply_stripe_reversal,
}

-- A payment whose credits and amount fit, with a recipient that has a wallet.
pub record IsSound (s : State) (p : Payment) : Type 0 where
  pub given_back : p.refunded_credits ≤ p.credits
  pub small : p.credits ≤ 1000000
  pub amount : p.amount_total ≤ 2 ^ 40
  pub wallet : balance_of p.recipient s.wallets ≢ none

-- Moving the credits: what the wallet loses the payment has given back, and the books stay settled.
pub record IsMoved (ev : Event) (p : Payment) (s : State) (o : Outcome) (t : State) : Type 0 where
  pub conserved :
      balance_or_0 (balance_of p.recipient t.wallets) + o.refunded
      ≡ balance_or_0 (balance_of p.recipient s.wallets) + p.refunded_credits
  pub bounded : o.refunded ≤ p.credits
  pub owed : ℕ
  pub owed_by : OwedBy ev.kind ev p owed
  pub effect : IsEffect ev p (balance_or_0 (balance_of p.recipient s.wallets)) owed o
  pub settled : Settled t.wallets t.ledger
  pub same_payments : t.payments ≡ s.payments

return_credits-IsMoved :
    (ev : Event) (p : Payment) (old : ℕ) (c : Conn State)
    → OwedBy ev.kind ev p (desired_reversal ev p)
    → won_back ev.kind ev p ≡ true
    → balance_of p.recipient c.tables.wallets ≡ some old
    → Settled c.tables.wallets c.tables.ledger
    → OnOk (IsMoved ev p c.tables) (return_credits ev p c)
unfolding return_credits
return_credits-IsMoved ev p old c owed won wallet h =
    let P = OnOk {E = ReversalError} (IsMoved ev p c.tables) in
    exec-bind P _ _ _ c tt λ _ t paid.
      let (after, credited, moved) = with_wallets_eq c.tables _ paid in
      let (settled, balance) =
        credit-Settled 0 p.recipient p.refunded_credits old (Reason.dispute_won ev.object)
          c.tables.wallets after c.tables.ledger wallet credited h in
      update-bind P _ _ _ _ _ tt (
        pure_end P _ _ (
          rw moved (record {
            conserved = rw (balance, wallet) (omega arith);
            bounded = omega arith;
            owed = desired_reversal ev p;
            owed_by = owed;
            effect = IsEffect.returned won refl (next_status-after ev p);
            settled = settled;
            same_payments = refl;
          })))

negated_small : (n : ℕ) → n ≤ 1000000 → negated_int32 n ≡ negative n
unfolding negated_int32
negated_small n h = ground arith

zero_or_not : (n : ℕ) → n ≡ 0 → (n == 0) ≡ false → ⊥
zero_or_not n e other = ground arith

one_not_zero : (n : ℕ) → n ≡ 1 → (n == 0) ≡ true → ⊥
one_not_zero n e zero = ground arith

small_delta :
    (ev : Event) (p : Payment)
    → p.credits ≤ 1000000
    → desired_reversal ev p - p.refunded_credits ≤ 1000000
small_delta ev p small = omega (arith, desired_le ev p)

taken_back :
    (had desired before : ℕ)
    → desired - before ≤ had
    → before < desired
    → had - (desired - before) + desired ≡ had + before
taken_back had desired before covered more = omega arith

take_credits-IsMoved :
    (ev : Event) (p : Payment) (old : ℕ) (c : Conn State)
    → OwedBy ev.kind ev p (desired_reversal ev p)
    → won_back ev.kind ev p ≡ false
    → p.credits ≤ 1000000
    → p.refunded_credits < desired_reversal ev p
    → balance_of p.recipient c.tables.wallets ≡ some old
    → p.refunded_credits ≤ p.credits
    → Settled c.tables.wallets c.tables.ledger
    → OnOk (IsMoved ev p c.tables) (take_credits ev p c)
unfolding take_credits book_taken
take_credits-IsMoved ev p old c owed other_event small more wallet given_back h =
    let P = OnOk {E = ReversalError} (IsMoved ev p c.tables) in
    let delta = desired_reversal ev p - p.refunded_credits in
    let changed = (debit_if_covered p.recipient delta c.tables.wallets).0 in
    update-bind P _ _ _ _ _ tt
      (elim (debit_if_covered-Settled 0 p.recipient delta (Reason.stripe_reversal ev.object)
        c.tables.wallets c.tables.ledger h) [
          | inl (none_changed, same) ↦
              branch P (changed == 0) _ _ _
                (λ _. pure_end P _ _ (record {
                  conserved = rw same refl;
                  bounded = given_back;
                  owed = desired_reversal ev p;
                  owed_by = owed;
                  effect =
                      IsEffect.uncovered other_event more
                        (rw wallet
                          (not_covered p.recipient delta old c.tables.wallets wallet none_changed))
                        refl refl;
                  settled = rw same h;
                  same_payments = refl;
                }))
                (λ other. absurd (zero_or_not changed none_changed other))
          | inr (had, found, covered, one_changed, balance, settled) ↦
              branch P (changed == 0) _ _ _ (λ zero. absurd (one_not_zero changed one_changed zero))
                (λ _. update-bind P _ _ _ _ _ tt (
                  pure_end P _ _ (record {
                    conserved =
                        rw (balance, found)
                          (taken_back had (desired_reversal ev p) p.refunded_credits covered more);
                    bounded = desired_le ev p;
                    owed = desired_reversal ev p;
                    owed_by = owed;
                    effect =
                        IsEffect.taken other_event more (rw found covered) refl
                          (next_status-after ev p);
                    settled = rw (negated_small delta (small_delta ev p small)) settled;
                    same_payments = refl;
                  })))
        ])

move_credits-IsMoved :
    (ev : Event) (p : Payment) (c : Conn State)
    → IsSound c.tables p
    → Settled c.tables.wallets c.tables.ledger
    → OnOk (IsMoved ev p c.tables) (move_credits ev p c)
unfolding move_credits
move_credits-IsMoved ev p c sound h =
    let P = OnOk {E = ReversalError} (IsMoved ev p c.tables) in
    let owed = desired_reversal-OwedBy ev p sound.small sound.amount in
    elim (Option-cases (balance_of p.recipient c.tables.wallets)) [
      | inl missing ↦ absurd (sound.wallet missing)
      | inr (old, wallet) ↦
          branch P (returns_credits ev p) _ _ c
            (λ won.
              return_credits-IsMoved ev p old c owed (sym (returns_credits-won_back ev p) ∙ won)
                wallet h)
            (λ other.
              branch P (ltb p.refunded_credits (desired_reversal ev p)) _ _ c
                (λ more.
                  take_credits-IsMoved ev p old c owed (sym (returns_credits-won_back ev p) ∙ other)
                    sound.small (ltb→lt _ _ more) wallet sound.given_back h)
                (λ less. pure_end P _ _ (record {
                  conserved = refl;
                  bounded = sound.given_back;
                  owed = desired_reversal ev p;
                  owed_by = owed;
                  effect =
                      IsEffect.enough (sym (returns_credits-won_back ev p) ∙ other)
                        (ground (arith, less)) refl (next_status-after ev p);
                  settled = h;
                  same_payments = refl;
                })))
    ]

-- What a reversal that goes through has done to the payment that it found.
pub record IsReversal (ev : Event) (s t : State) : Type 0 where
  pub payment : Payment
  pub found : find_if (of_intent ev.intent) s.payments ≡ some payment
  pub outcome : Outcome
  pub recorded : t.payments ≡ update_if (of_intent ev.intent) (settle_row ev outcome) s.payments
  pub conserved :
      balance_or_0 (balance_of payment.recipient t.wallets) + outcome.refunded
      ≡ balance_or_0 (balance_of payment.recipient s.wallets) + payment.refunded_credits
  pub bounded : outcome.refunded ≤ payment.credits
  pub owed : ℕ
  pub owed_by : OwedBy ev.kind ev payment owed
  pub effect :
      IsEffect ev payment (balance_or_0 (balance_of payment.recipient s.wallets)) owed outcome
  pub settled : Settled t.wallets t.ledger

reversal_body-IsReversal :
    (ev : Event) (c : Conn State)
    → Settled c.tables.wallets c.tables.ledger
    → ((p : Payment)
        → find_if (of_intent ev.intent) c.tables.payments ≡ some p
        → IsSound c.tables p)
    → OnOk (λ (_ : Unit {0}) t. IsReversal ev c.tables t) (reversal_body ev c)
unfolding reversal_body
reversal_body-IsReversal ev c h sound =
    let Q = λ (_ : Unit {0}) (t : State). IsReversal ev c.tables t in
    let P = OnOk {E = ReversalError} Q in
    query-bind P _ _ _ c tt λ p found.
      chain (IsMoved ev p c.tables) Q _ _ _ (move_credits-IsMoved ev p (sent c) (sound p found) h)
        λ o d moved. update-bind P _ _ _ _ _ tt (
          update_end P _ _ _ _ tt (record {
            payment = p;
            found = found;
            outcome = o;
            recorded = rw moved.same_payments refl;
            conserved = moved.conserved;
            bounded = moved.bounded;
            owed = moved.owed;
            owed_by = moved.owed_by;
            effect = moved.effect;
            settled = moved.settled;
          }))

-- A reversal is all or nothing, given settled books and a payment that has given back no more than it
-- brought, at most 1,000,000 credits for an amount of at most 2^40, to an account with a wallet. It owes
-- its share of a partly refunded amount, rounded up, and all of its credits after any other refund, a
-- new dispute or a lost one. If the reversal goes through, the payment that the event names has given
-- back what it owes, if that is more than before and the wallet covers the difference; if the wallet
-- does not, it is put under review with what it had given back; if it had given back enough, that stays;
-- and if a dispute of the payment was won after it had given credits back, it has given back nothing.
-- What it has given back more or less than before the wallet has lost or got, the payment has the
-- status that belongs to the event, and the books are settled. If it stops, no table has changed.
pub apply_stripe_reversal-AllOrNothing :
    (ev : Event) (c : Conn State)
    → Settled c.tables.wallets c.tables.ledger
    → ((p : Payment)
        → find_if (of_intent ev.intent) c.tables.payments ≡ some p
        → IsSound c.tables p)
    → AllOrNothing c.tables
        (λ (_ : Unit {0}) t. IsReversal ev c.tables t)
        (apply_stripe_reversal ev c)
unfolding apply_stripe_reversal
apply_stripe_reversal-AllOrNothing ev c h sound =
    let Q = λ (_ : Unit {0}) (t : State). IsReversal ev c.tables t in
    stop_if-bind (AllOrNothing {E = ReversalError} c.tables Q) _ _ _ c (λ _. refl)
      λ _.
        transaction-AllOrNothing Q _ _ (reversal_body ev) c
          (reversal_body-IsReversal ev (sent c) h sound)
