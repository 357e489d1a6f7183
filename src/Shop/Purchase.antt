-- ===== src/Shop/Purchase.antt =====
-- internal/web/server.go, `purchase` of a signed-in account. The other databases
-- and the configuration are a `Shop`. The order's AUTO_INCREMENT number is a column of the state. The
-- product's name, the metrics and the notification change none of the tables and are left out.
pub mod Items
pub mod Offer
pub mod Checks
pub mod Writes
pub mod Stock
pub mod Books
use azeroth_core_web.Base.{
  ℕ, ◌+◌, ◌-◌, ◌%◌, ◌&&◌, ◌||◌, not, Bool, true, false, Option, none, some, List, [], ◌∷◌, ◌++◌,
  Text, text_eq, ◌==◌, ltb, leb, if◌then◌else◌, codes, find_if, count_if, update_if, contains_any,
}
use azeroth_core_web.Base.Int.{ℤ, pos, negsuc, ◌+ℤ◌}
use azeroth_core_web.Base.Words.{u32_mod}
use azeroth_core_web.Http.{Problem, problem, or_problem}
use azeroth_core_web.Db.{
  Exec, Result, ok, err, pure, lift, exec, update, query, query_or, transaction, stop_if, ◌>>=◌,
  ◌>>◌,
}
use azeroth_core_web.Tables.{
  State, Product, Order, OrderStatus, Note, OrderItem, ItemQuantity, Reason, Variant, StockMovement,
  CouponUse,
}
use azeroth_core_web.Wallet.{balance_of, debit, entry, negative, with_wallets}
use azeroth_core_web.Shop.Pricing.{Discount, effective_product_price, apply_coupon, within_window}
use azeroth_core_web.Shop.Purchase.Items.{order_items}

pub record Buyer : Type 0 where
  pub name : Text
  pub online : Bool
  pub class : ℕ
  pub race : ℕ

-- The time, the configuration, and what the handler asks of the characters and world databases: a
-- query that fails finds nothing.
pub record Shop : Type 0 where
  pub realm_key : Text
  pub now : ℕ
  pub delivery : Bool
  pub character : ℕ → ℕ → Option Buyer
  pub medallions : Option (ℕ × ℕ)
  pub enrich : List ItemQuantity → Bool

-- The request, and the account that sends it.
pub record Request : Type 0 where
  pub account : ℕ
  pub product : ℕ
  pub character : ℕ
  pub variant : ℕ
  pub coupon : Text

unfoldable pub on_sale_here : Shop → ℕ → Product → Bool
on_sale_here shop id p =
    (p.id == id)
    && text_eq p.realm_key shop.realm_key
    && p.active
    && within_window shop.now p.starts_at p.ends_at

-- `status NOT IN ('failed','refunded')`
abbrev pub is_live : OrderStatus → Bool
is_live OrderStatus.failed = false
is_live OrderStatus.refunded = false
is_live _ = true

unfoldable pub purchases_of : Shop → ℕ → ℕ → List Order → ℕ
purchases_of shop account product = count_if (λ o.
    (o.account == account)
    && (o.product == product)
    && text_eq o.realm_key shop.realm_key
    && is_live o.status)

unfoldable pub check_limit : Shop → Request → Product → Exec State Problem Unit
check_limit shop r p =
    if ltb 0 p.per_account_limit
    then (do
      count ←
          query (problem 500 "Could not validate purchase limit")
            (λ s. some (purchases_of shop r.account p.id s.orders))
      stop_if (leb p.per_account_limit count)
          (problem 409 "This product's account purchase limit has been reached"))
    else pure tt

unfoldable pub variant_here : ℕ → ℕ → Variant → Bool
variant_here id product v = (v.id == id) && (v.product == product) && v.active

unfoldable pub adjustment_of : Option Variant → Option ℤ
adjustment_of none = none
adjustment_of (some v) = some v.adjustment

-- The variant's price adjustment, 0 without a variant.
unfoldable pub read_adjustment : Request → Product → Exec State Problem ℤ
unfolding adjustment_of
read_adjustment r p =
    if ltb 0 r.variant
    then query (problem 422 "Choose a valid product variant")
        (λ s. adjustment_of (find_if (variant_here r.variant p.id) s.variants))
    else (do stop_if p.variant_required (problem 422 "Choose a product variant"); pure (pos 0))

-- `adjustedPrice < 0 || adjustedPrice > 10_000_000`
unfoldable pub adjusted_price : ℕ → ℤ → Option ℕ
adjusted_price base adjustment = elim (pos base +ℤ adjustment) [
  | pos n ↦ if ltb 10000000 n then none else some n
  | negsuc n ↦ none
]

-- What the account pays.
pub record Quote : Type 0 where
  pub product : Product
  pub subtotal : ℕ
  pub offer : Discount
  pub total : ℕ

-- The price of the product with its variant; the coupon; and whether the wallet covers it.
unfoldable pub price_order : Shop → Request → Product → Exec State Problem Quote
price_order shop r p = do
  adjustment ← read_adjustment r p
  subtotal ← lift (
      or_problem (adjusted_price (effective_product_price p) adjustment)
        (problem 422 "Variant price is invalid"))
  offer ← apply_coupon shop.now r.account r.coupon subtotal (ltb 0 p.sale_price) p.category
  let total = (subtotal + (u32_mod - offer.discount)) % u32_mod
  balance ← query (problem 422 "Not enough credits") (λ s. balance_of r.account s.wallets)
  stop_if (ltb balance total) (problem 422 "Not enough credits")
  pure (record { product = p; subtotal = subtotal; offer = offer; total = total })

unfoldable pub quote_order : Shop → Request → Exec State Problem Quote
quote_order shop r = do
  p ←
      query (problem 404 "Product not found")
        (λ s. find_if (on_sale_here shop r.product) s.products)
  check_limit shop r p
  stop_if (ltb 0 p.stock_limit && leb p.stock_limit p.sold_count)
      (problem 409 "This product is sold out")
  price_order shop r p

-- The character that the order is for.
unfoldable pub check_buyer : Shop → Request → Product → Exec State Problem Buyer
check_buyer shop r p = do
  who ← lift (
      or_problem (shop.character r.character r.account)
        (problem 422 "Choose one of your characters"))
  stop_if who.online (problem 409 "Character must be offline for delivery")
  stop_if (not (p.class_id == 0) && not (who.class == p.class_id))
      (problem 422 "This package does not match the selected character's class")
  stop_if (not shop.delivery) (problem 503 "Shop delivery is not configured")
  pure who

abbrev pub new_order : Shop → Request → Quote → ℕ → Order
new_order shop r q id = record {
  id = id;
  account = r.account;
  character = r.character;
  realm_key = shop.realm_key;
  product = q.product.id;
  total = q.total;
  subtotal = q.subtotal;
  discount = q.offer.discount;
  coupon_code = q.offer.code;
  status = OrderStatus.pending;
  note = Note.blank;
  attempts = 0;
  service_level = q.product.service_level;
  gold = q.product.gold;
  service_action = q.product.service_action;
  variant = r.variant;
}

unfoldable pub use_coupon : Request → Quote → ℕ → Exec State Problem Unit
use_coupon r q id =
    if ltb 0 q.offer.coupon
    then update (problem 500 "Could not redeem coupon") (λ _. tt)
        (λ s. record s {
          coupon_uses =
              s.coupon_uses
              ++ record { coupon = q.offer.coupon; account = r.account; order = id } ∷ [];
        })
    else pure tt

-- The writes on the wallet, the orders, the ledger and the coupon uses; the number of the new order.
unfoldable pub book_order : Shop → Request → Quote → Exec State Problem ℕ
book_order shop r q = do
  exec (problem 500 "Could not debit wallet")
      (λ s. with_wallets s (debit r.account q.total s.wallets))
  id ←
      update (problem 500 "Could not create order") (λ s. s.next_order)
        (λ s. record s {
          next_order = s.next_order + 1;
          orders = s.orders ++ new_order shop r q s.next_order ∷ [];
        })
  update (problem 500 "Could not record wallet transaction") (λ _. tt {0})
      (λ s. record s {
        ledger =
            s.ledger
            ++ entry r.account r.account (negative q.total) (Reason.order_purchase id) ∷ [];
      })
  use_coupon r q id
  pure id

-- `INSERT INTO portal_order_items`: the order and the item are the primary key.
abbrev pub order_item : ℕ → ItemQuantity → OrderItem
order_item id i = record { order = id; item_id = i.item_id; quantity = i.quantity }

unfoldable pub insert_item : ℕ → ItemQuantity → State → Option (Unit {0} × State)
insert_item id i s =
    if ltb 0 (count_if (λ (x : OrderItem). (x.order == id) && (x.item_id == i.item_id)) s.items)
    then none
    else some (tt, record s { items = s.items ++ order_item id i ∷ [] })

unfoldable pub insert_items : ℕ → List ItemQuantity → Exec State Problem Unit
insert_items id [] = pure tt
insert_items id (i ∷ items) =
    exec (problem 500 "Could not snapshot order items") (insert_item id i) >> insert_items id items

-- `UPDATE portal_products SET sold_count=sold_count+1 WHERE ... AND sold_count<stock_limit`
unfoldable pub in_stock : Shop → ℕ → Product → Bool
in_stock shop id p =
    (p.id == id) && text_eq p.realm_key shop.realm_key && ltb p.sold_count p.stock_limit

unfoldable pub reserve_stock : Shop → Request → Product → ℕ → Exec State Problem Unit
reserve_stock shop r p id =
    if ltb 0 p.stock_limit
    then (do
      changed ←
          update (problem 500 "Could not reserve product stock")
            (λ s. count_if (in_stock shop p.id) s.products)
            (λ s. record s {
              products =
                  update_if (in_stock shop p.id) (λ x. record x { sold_count = x.sold_count + 1 })
                    s.products;
            })
      stop_if (not (changed == 1)) (problem 409 "This product just sold out")
      update (problem 500 "Could not record stock movement") (λ _. tt)
          (λ s. record s {
            movements =
                s.movements
                ++ record {
                  realm_key = shop.realm_key;
                  product = p.id;
                  delta = negsuc 0;
                  kind = codes "sale";
                  reference = id;
                  actor = r.account;
                }
                  ∷ [];
          }))
    else pure tt

-- strings.ContainsAny(characterName, " \t\r\n\"\\")
abbrev pub unsafe_name : Text
unsafe_name = 32 ∷ 9 ∷ 13 ∷ 10 ∷ 34 ∷ 92 ∷ []

-- The body of the transaction of `purchase`; its result is the number of the order.
unfoldable pub purchase_body : Shop → Request → Exec State Problem ℕ
purchase_body shop r = do
  q ← quote_order shop r
  who ← check_buyer shop r q.product
  id ← book_order shop r q
  stop_if (contains_any who.name unsafe_name)
      (problem 422 "Character name cannot be used for delivery")
  items ← order_items shop.realm_key shop.enrich shop.medallions who.race r.variant q.product
  insert_items id items
  reserve_stock shop r q.product id
  pure id

-- `purchase`
unfoldable pub purchase : Shop → Request → Exec State Problem ℕ
purchase shop r =
    transaction (problem 503 "Database unavailable") (problem 500 "Could not queue order")
      (purchase_body shop r)
