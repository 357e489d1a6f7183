-- ===== src/Shop/Purchase/Books.antt =====
-- internal/web/server.go, `purchase`: what it leaves in the tables.
use azeroth_core_web.Base.{
  ℕ, ◌≡◌, ◌∙◌, sym, ap, false, contains_any, some, List, [], ◌∷◌, ◌++◌, map, ltb, if◌then◌else◌,
}
use azeroth_core_web.Db.{Conn, Result, ok, err, sent}
use azeroth_core_web.Db.Rules.{stop_if-bind, pure_end}
use azeroth_core_web.Db.Atomic.{
  OnOk, AllOrNothing, transaction-AllOrNothing, chain, OnOk-map, OnOk-own,
}
use azeroth_core_web.Http.{Problem}
use azeroth_core_web.Tables.{State, ItemQuantity, OrderItem, Reason}
use azeroth_core_web.Wallet.{debit, entry, negative}
use azeroth_core_web.Wallet.Settled.{Settled, debit-Settled}
use azeroth_core_web.Shop.Items.Laws.{IsDistinct}
use azeroth_core_web.Shop.Purchase.{
  Shop, Request, Quote, Buyer, new_order, order_item, unsafe_name, purchase_body, purchase,
}
use azeroth_core_web.Shop.Purchase.Checks.{
  IsQuote, Quoted, quote_order-Quoted, IsBuyer, Bought, check_buyer-Bought,
}
use azeroth_core_web.Shop.Purchase.Items.{order_items}
use azeroth_core_web.Shop.Purchase.Stock.{
  IsReserved, Reserved, same_stock_before, reserve_stock-Reserved,
}
use azeroth_core_web.Shop.Purchase.Writes.{
  IsBooked, with_items, book_order-IsBooked, order_items-IsDistinct, insert_items-exact,
}

-- What a purchase that goes through has found and done.
pub record IsPurchase (shop : Shop) (r : Request) (s : State) (id : ℕ) (t : State) : Type 0 where
  pub quote : Quote
  pub quoted : IsQuote shop r s quote
  pub number : id ≡ s.next_order
  pub paid : debit r.account quote.total s.wallets ≡ some t.wallets
  pub booked :
      t.ledger
      ≡ s.ledger ++ entry r.account r.account (negative quote.total) (Reason.order_purchase id) ∷ []
  pub ordered : t.orders ≡ s.orders ++ new_order shop r quote id ∷ []
  pub redeemed : t.coupon_uses ≡ (
      if ltb 0 quote.offer.coupon
      then s.coupon_uses
        ++ record { coupon = quote.offer.coupon; account = r.account; order = id } ∷ []
      else s.coupon_uses)
  pub who : Buyer
  pub buyer : IsBuyer shop r quote.product who
  pub nameable : contains_any who.name unsafe_name ≡ false
  pub at_items : Conn State
  pub booked_first : IsBooked shop r s quote id at_items.tables
  pub items : List ItemQuantity
  pub gathered :
      (order_items shop.realm_key shop.enrich shop.medallions who.race r.variant quote.product
        at_items).0
      ≡ ok items
  pub distinct : IsDistinct items
  pub snapshot : t.items ≡ s.items ++ map (order_item id) items
  pub reserved : IsReserved shop r quote.product id s t

-- The items that were gathered, for a quote and a buyer.
record IsGathered (shop : Shop) (r : Request) (q : Quote) (who : Buyer) (e : Conn State)
    (items : List ItemQuantity) (t : State) : Type 0 where
  same : t ≡ e.tables
  distinct : IsDistinct items
  gathered :
      (order_items shop.realm_key shop.enrich shop.medallions who.race r.variant q.product e).0
      ≡ ok items

order_items-IsGathered :
    (shop : Shop) (r : Request) (q : Quote) (who : Buyer) (e : Conn State)
    → OnOk
        (IsGathered shop r q who e)
        (order_items shop.realm_key shop.enrich shop.medallions who.race r.variant q.product e)
order_items-IsGathered shop r q who e =
    let Q = λ (items : List ItemQuantity) (t : State). (t ≡ e.tables) × IsDistinct items in
    let m = order_items shop.realm_key shop.enrich shop.medallions who.race r.variant q.product e in
    OnOk-map (λ items t. Q items t × (m.0 ≡ ok items)) (IsGathered shop r q who e) m
      (OnOk-own Q m (
        order_items-IsDistinct shop.realm_key shop.enrich shop.medallions who.race r.variant
          q.product e))
      λ items t h. record { same = h.0.0; distinct = h.0.1; gathered = h.1 }

-- The parts of the purchase, one after the other: quote, buyer, booking, items and stock.
purchased :
    (shop : Shop) (r : Request) (s u t : State) (q : Quote) (who : Buyer) (id : ℕ) (e : Conn State)
    (items : List ItemQuantity) (d : State)
    → IsQuote shop r s q
    → IsBuyer shop r q.product who
    → contains_any who.name unsafe_name ≡ false
    → IsBooked shop r s q id e.tables
    → IsGathered shop r q who e items d
    → u ≡ with_items d (map (order_item id) items)
    → Reserved shop r q.product id u tt t
    → IsPurchase shop r s id t
purchased shop r s u t q who id e items d quoted buyer named b g written (res, same) =
    let there : u ≡ with_items e.tables (map (order_item id) items) = rw g.same at written in
    record {
      quote = q;
      quoted = quoted;
      number = b.number;
      paid = b.paid ∙ ap some (sym (same.wallets ∙ ap (λ (x : State). x.wallets) there));
      booked = same.ledger ∙ (ap (λ (x : State). x.ledger) there ∙ b.booked);
      ordered = same.orders ∙ (ap (λ (x : State). x.orders) there ∙ b.ordered);
      redeemed = same.coupon_uses ∙ (ap (λ (x : State). x.coupon_uses) there ∙ b.redeemed);
      who = who;
      buyer = buyer;
      nameable = named;
      at_items = e;
      booked_first = b;
      items = items;
      gathered = g.gathered;
      distinct = g.distinct;
      snapshot =
          same.items
          ∙ (ap (λ (x : State). x.items) there
              ∙ ap (λ (x : List OrderItem). x ++ map (order_item id) items) b.same_items);
      reserved =
          same_stock_before shop r q.product id u s t
            (ap (λ (x : State). x.products) there ∙ b.same_stock.0)
            (ap (λ (x : State). x.movements) there ∙ b.same_stock.1) res;
    }

purchase_body-IsPurchase :
    (shop : Shop) (r : Request) (c : Conn State)
    → OnOk (IsPurchase shop r c.tables) (purchase_body shop r c)
unfolding purchase_body
purchase_body-IsPurchase shop r c =
    let R = IsPurchase shop r c.tables in
    let P = OnOk {E = Problem} R in
    chain (Quoted shop r c.tables) R _ _ c (quote_order-Quoted shop r c) λ q d quoted.
      chain (Bought shop r q.product d.tables) R _ _ d (check_buyer-Bought shop r q.product d)
        λ who d' bought.
          chain (IsBooked shop r d'.tables q) R _ _ d' (book_order-IsBooked shop r q d')
            λ id e booked.
              stop_if-bind P _ _ _ e (λ _. tt)
                λ named.
                  chain (IsGathered shop r q who e) R _ _ e (order_items-IsGathered shop r q who e)
                    λ items f gathered.
                      chain
                        (λ (_ : Unit {0}) t. t ≡ with_items f.tables (map (order_item id) items)) R
                        _ _ f (insert_items-exact id items f)
                        λ _ g written.
                          chain (Reserved shop r q.product id g.tables) R _ _ g
                            (reserve_stock-Reserved shop r q.product id g)
                            λ _ g' done. pure_end P id g' (
                              let same : d'.tables ≡ c.tables = bought.0 ∙ quoted.0 in
                              purchased shop r c.tables g.tables g'.tables q who id e items f.tables
                                quoted.1 bought.1 named (rw same at booked) gathered written done)

-- A purchase is all or nothing. If it goes through: the product was on sale, in stock and within the
-- account's limit, and the character is one of the account's that may have it; the subtotal is the
-- product's price, the sale's if that is lower, with the adjustment of the chosen variant, and at most
-- 10,000,000; a coupon that is granted is usable, below its limits and taken off; the wallet covered
-- the total and is debited by it, with a ledger entry; the order stands in the table as pending
-- under a new number, with the items that were gathered for it, each once; the coupon is marked as
-- used; and of a product with limited stock one more is sold. If it stops, for whatever reason, no
-- table has changed.
pub purchase-AllOrNothing :
    (shop : Shop) (r : Request) (c : Conn State)
    → AllOrNothing c.tables (IsPurchase shop r c.tables) (purchase shop r c)
unfolding purchase
purchase-AllOrNothing shop r c =
    transaction-AllOrNothing (IsPurchase shop r c.tables) _ _ (purchase_body shop r) c
      (purchase_body-IsPurchase shop r (sent c))

-- A purchase keeps the books: if every balance was the sum of the ledger's entries of its account, so
-- it is afterwards, whether the purchase went through or not.
pub purchase-Settled :
    (shop : Shop) (r : Request) (c : Conn State)
    → Settled c.tables.wallets c.tables.ledger
    → let t = (purchase shop r c).1.tables in Settled t.wallets t.ledger
purchase-Settled shop r c h = settled_outcome (purchase shop r c) (purchase-AllOrNothing shop r c)
  where
    settled_outcome :
        (o : Result Problem ℕ × Conn State)
        → AllOrNothing c.tables (IsPurchase shop r c.tables) o
        → Settled o.1.tables.wallets o.1.tables.ledger
    settled_outcome (ok id, d) done =
        rw done.booked
          (debit-Settled r.account r.account done.quote.total done.quoted.balance
            (Reason.order_purchase id) c.tables.wallets d.tables.wallets c.tables.ledger
            done.quoted.wallet done.paid h).0
    settled_outcome (err e, d) same = rw same h
