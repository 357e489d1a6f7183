-- ===== src/Delivery/Admin/Refund.antt =====
-- internal/web/delivery.go, `adminRefundOrder`: what a refund does to the books.
use azeroth_core_web.Base.{
  ℕ, ◌+◌, ◌≡◌, refl, true, false, not, Option, none, some, [], ◌∷◌, ◌++◌, Text, ◌==◌, arith, ltb,
  update_if, ◌≢◌,
}
use azeroth_core_web.Base.Int.{pos}
use azeroth_core_web.Db.{Conn, Result, ok, err, sent, lift, ◌>>=◌}
use azeroth_core_web.Db.Rules.{exec-bind, query-bind, update-bind, stop_if-bind}
use azeroth_core_web.Db.Keeps.{
  Keeps, Keeps-branch, Keeps-bind, Keeps-exec, Keeps-update, keeps_rules,
}
use azeroth_core_web.Db.Atomic.{OnOk, OnOk-result, AllOrNothing, transaction-AllOrNothing}
use azeroth_core_web.Http.{Problem}
use azeroth_core_web.Tables.{State, OrderStatus, Reason}
use azeroth_core_web.Wallet.{balance_of, credit, entry, with_wallets_eq, with_products_eq}
use azeroth_core_web.Wallet.Settled.{Settled, credit-Settled, credit-balance_of}
use azeroth_core_web.Delivery.Admin.{
  Refundable, read_refundable, is_refundable, refund_body, refund_order, release_if_limited,
  refund_row,
}

-- What a refund that goes through has found and done: the order could be refunded and nothing of it
-- was delivered; its account got its total back, with a ledger entry; the order is refunded.
pub record IsRefund (actor id : ℕ) (s : State) (r : Refundable) (t : State) : Type 0 where
  pub refundable : is_refundable r.order.status ≡ true
  pub unfulfilled : r.completed_steps ≡ 0
  pub before : ℕ
  pub had : balance_of r.order.account s.wallets ≡ some before
  pub has : balance_of r.order.account t.wallets ≡ some (before + r.order.total)
  pub paid_back : credit r.order.account r.order.total s.wallets ≡ some t.wallets
  pub booked :
      t.ledger
      ≡ s.ledger ++ entry actor r.order.account (pos r.order.total) (Reason.order_refund id) ∷ []
  pub closed : t.orders ≡ update_if (λ o. o.id == id) refund_row s.orders

-- The release of stock leaves that alone.
release-IsRefund :
    (realm : Text) (actor id : ℕ) (s : State) (r : Refundable)
    → Keeps (IsRefund actor id s r) (release_if_limited realm actor r)
unfolding release_if_limited
release-IsRefund realm actor id s r =
    Keeps-branch (ltb 0 r.stock_limit) _ _
      (Keeps-bind _ _
        (Keeps-exec _ _ (λ t h a u e.
          let (products, _, same) = with_products_eq t _ e in
          rw same (record {
            refundable = h.refundable;
            unfulfilled = h.unfulfilled;
            before = h.before;
            had = h.had;
            has = h.has;
            paid_back = h.paid_back;
            booked = h.booked;
            closed = h.closed;
          })))
        (λ _. Keeps-update _ _ _ (λ t h. record {
          refundable = h.refundable;
          unfulfilled = h.unfulfilled;
          before = h.before;
          had = h.had;
          has = h.has;
          paid_back = h.paid_back;
          booked = h.booked;
          closed = h.closed;
        })))
      (search keeps_rules)

refundable_of :
    (status : OrderStatus) → not (is_refundable status) ≡ false → is_refundable status ≡ true
refundable_of status h = ground arith

-- The outcome of a refund: an order of this realm that was found in the tables.
abbrev pub Refunded : Text → ℕ → ℕ → State → Unit {0} → State → Type 0
Refunded realm actor id s _ t =
    (r : Refundable) × (read_refundable id realm s ≡ some r) × IsRefund actor id s r t

-- The account of the order has a wallet.
abbrev pub HasWallet : Text → ℕ → State → Type 0
HasWallet realm id s =
    (r : Refundable)
    → read_refundable id realm s ≡ some r
    → balance_of r.order.account s.wallets ≢ none

some_of : (o : Option ℕ) → o ≢ none → (n : ℕ) × (o ≡ some n)
some_of none h = absurd (h refl)
some_of (some n) h = (n, refl)

refund_body-Refunded :
    (realm : Text) (actor id : ℕ) (c : Conn State)
    → HasWallet realm id c.tables
    → OnOk (Refunded realm actor id c.tables) (refund_body realm actor id c)
unfolding refund_body
refund_body-Refunded realm actor id c has_wallet =
    let P = OnOk {E = Problem} (Refunded realm actor id c.tables) in
    query-bind P _ _ _ c tt λ r found.
      stop_if-bind P _ _ _ _ (λ _. tt)
        λ status.
          stop_if-bind P _ _ _ _ (λ _. tt)
            λ none_done. exec-bind P _ _ _ _ tt λ _ t paid.
              let (wallets, credited, moved) = with_wallets_eq (sent c).tables _ paid in
              let (old, wallet) =
                some_of (balance_of r.order.account c.tables.wallets) (has_wallet r found) in
              update-bind P _ _ _ _ _ tt (
                update-bind P _ _ _ _ _ tt (
                  update-bind P _ _ _ _ _ tt (
                    OnOk-result (Refunded realm actor id c.tables) _ λ _. (
                      r,
                      found,
                      (release-IsRefund realm actor id c.tables r).at _ (
                          rw moved (record {
                            refundable = refundable_of r.order.status status;
                            unfulfilled = ground arith;
                            before = old;
                            had = wallet;
                            has =
                                credit-balance_of r.order.account r.order.total old c.tables.wallets
                                  wallets wallet credited;
                            paid_back = credited;
                            booked = refl;
                            closed = refl;
                          })),
                    ))))

-- A refund by staff of an order whose account has a wallet is all or nothing. If it goes through, the
-- order was pending, in review or failed, no step of it was completed, the balance of its account has
-- grown by exactly its total, with a ledger entry that says so, and the order is refunded; if it
-- stops, for whatever reason, no table has changed.
pub refund_order-AllOrNothing :
    (realm : Text) (actor id : ℕ) (c : Conn State)
    → HasWallet realm id c.tables
    → AllOrNothing c.tables
        (Refunded realm actor id c.tables)
        (refund_order realm (some actor) (some id) c)
unfolding refund_order lift ◌>>=◌
refund_order-AllOrNothing realm actor id c has_wallet =
    transaction-AllOrNothing (Refunded realm actor id c.tables) _ _ (refund_body realm actor id) c
      (refund_body-Refunded realm actor id (sent c) has_wallet)

-- A refund keeps the books: if every balance was the sum of the ledger's entries of its account, so
-- it is afterwards, for an order whose account has a wallet.
pub refund_order-Settled :
    (realm : Text) (actor id : ℕ) (c : Conn State)
    → Settled c.tables.wallets c.tables.ledger
    → HasWallet realm id c.tables
    → let t = (refund_order realm (some actor) (some id) c).1.tables in Settled t.wallets t.ledger
refund_order-Settled realm actor id c h has_wallet =
    settled_outcome (refund_order realm (some actor) (some id) c)
      (refund_order-AllOrNothing realm actor id c has_wallet)
  where
    settled_outcome :
        (o : Result Problem (Unit {0}) × Conn State)
        → AllOrNothing c.tables (Refunded realm actor id c.tables) o
        → Settled o.1.tables.wallets o.1.tables.ledger
    settled_outcome (ok a, c') (r, found, done) =
        rw done.booked
          (credit-Settled actor r.order.account r.order.total done.before (Reason.order_refund id)
            c.tables.wallets c'.tables.wallets c.tables.ledger done.had done.paid_back h).0
    settled_outcome (err e, c') same = rw same h
