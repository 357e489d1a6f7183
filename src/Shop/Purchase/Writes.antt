-- ===== src/Shop/Purchase/Writes.antt =====
-- internal/web/server.go, `purchase`: its writes, one part after the other.
use azeroth_core_web.Base.{
  ℕ, ◌≡◌, ◌∙◌, refl, Bool, Option, some, List, [], ◌∷◌, ◌++◌, map, append-nil, append_assoc, Text,
  arith, ltb, if◌then◌else◌,
}
use azeroth_core_web.Db.{Conn, sent, pure}
use azeroth_core_web.Db.Rules.{
  wrote, exec-bind, query_or-bind, update-bind, update_end, lift-bind, pure_end, branch,
}
use azeroth_core_web.Db.Atomic.{OnOk, OnOk-map, chain, Keeps-OnOk}
use azeroth_core_web.Db.Keeps.{Keeps, Keeps-branch, keeps_rules}
use azeroth_core_web.Http.{Problem}
use azeroth_core_web.Tables.{State, Product, OrderItem, ItemQuantity, Reason}
use azeroth_core_web.Wallet.{debit, entry, negative, with_wallets_eq}
use azeroth_core_web.Shop.Items.Laws.{IsDistinct, consolidate_exact}
use azeroth_core_web.Shop.Purchase.{
  Shop, Request, Quote, new_order, use_coupon, book_order, order_item, insert_item, insert_items,
}
use azeroth_core_web.Shop.Purchase.Items.{
  add_bundle, load_bundle_items, replace_by_variant, order_items,
}
use azeroth_core_web.Shop.Purchase.Checks.{Unchanged}

-- The order is written and paid for, and its items are not there yet.
pub record IsBooked (shop : Shop) (r : Request) (s : State) (q : Quote) (id : ℕ) (t : State)
    : Type 0 where
  pub number : id ≡ s.next_order
  pub paid : debit r.account q.total s.wallets ≡ some t.wallets
  pub ordered : t.orders ≡ s.orders ++ new_order shop r q id ∷ []
  pub booked :
      t.ledger
      ≡ s.ledger ++ entry r.account r.account (negative q.total) (Reason.order_purchase id) ∷ []
  pub redeemed : t.coupon_uses ≡ (
      if ltb 0 q.offer.coupon
      then s.coupon_uses ++ record { coupon = q.offer.coupon; account = r.account; order = id } ∷ []
      else s.coupon_uses)
  pub same_items : t.items ≡ s.items
  pub same_stock : (t.products ≡ s.products) × (t.movements ≡ s.movements)

-- The same before the coupon is used.
abbrev IsPaid : Shop → Request → State → Quote → ℕ → State → Type 0
IsPaid shop r s q id t =
    (id ≡ s.next_order)
    × (debit r.account q.total s.wallets ≡ some t.wallets)
    × (t.orders ≡ s.orders ++ new_order shop r q id ∷ [])
    × (t.ledger
        ≡ s.ledger ++ entry r.account r.account (negative q.total) (Reason.order_purchase id) ∷ [])
    × (t.coupon_uses ≡ s.coupon_uses)
    × (t.items ≡ s.items)
    × (t.products ≡ s.products)
    × (t.movements ≡ s.movements)

use_coupon-IsBooked :
    (shop : Shop) (r : Request) (s : State) (q : Quote) (id : ℕ) (c : Conn State)
    → IsPaid shop r s q id c.tables
    → OnOk (λ (_ : Unit {0}) t. IsBooked shop r s q id t) (use_coupon r q id c)
unfolding use_coupon
use_coupon-IsBooked shop r s q id c (n, p, o, l, u, i, x, m) =
    let P = OnOk {E = Problem} (λ (_ : Unit {0}) t. IsBooked shop r s q id t) in
    branch P (ltb 0 q.offer.coupon) _ _ c
      (λ coupon. update_end P _ _ _ _ tt (record {
        number = n;
        paid = p;
        ordered = o;
        booked = l;
        redeemed = rw (coupon, u) refl;
        same_items = i;
        same_stock = (x, m);
      }))
      (λ no_coupon. pure_end P _ _ (record {
        number = n;
        paid = p;
        ordered = o;
        booked = l;
        redeemed = rw no_coupon u;
        same_items = i;
        same_stock = (x, m);
      }))

pub book_order-IsBooked :
    (shop : Shop) (r : Request) (q : Quote) (c : Conn State)
    → OnOk (IsBooked shop r c.tables q) (book_order shop r q c)
unfolding book_order
book_order-IsBooked shop r q c =
    let P = OnOk {E = Problem} (IsBooked shop r c.tables q) in
    exec-bind P _ _ _ c tt λ _ t paid.
      let (_, debited, moved) = with_wallets_eq c.tables _ paid in
      update-bind P _ _ _ _ _ tt (
        update-bind P _ _ _ _ _ tt (
          chain (λ (_ : Unit {0}) u. IsBooked shop r c.tables q t.next_order u)
            (IsBooked shop r c.tables q) _ _ _
            (use_coupon-IsBooked shop r c.tables q t.next_order _
              (rw moved (refl, debited, refl, refl, refl, refl, refl, refl)))
            λ _ d booked. pure_end P _ _ booked))

-- The items of the order are distinct, and reading them changes nothing.
add_bundle-Keeps :
    (realm : Text) (enrich : List ItemQuantity → Bool) (p : Product) (items : List ItemQuantity)
    (s : State)
    → Keeps (λ t. t ≡ s) (add_bundle realm enrich p items)
unfolding add_bundle load_bundle_items
add_bundle-Keeps realm enrich p items s =
    Keeps-branch (ltb 0 p.bundle_id) _ _ (search keeps_rules depth 12) (search keeps_rules)

replace_by_variant-Keeps :
    (variant : ℕ) (items : List ItemQuantity) (s : State)
    → Keeps (λ t. t ≡ s) (replace_by_variant variant items)
unfolding replace_by_variant
replace_by_variant-Keeps variant items s =
    Keeps-branch (ltb 0 variant) _ _ (search keeps_rules depth 8) (search keeps_rules)

pub order_items-IsDistinct :
    (realm : Text) (enrich : List ItemQuantity → Bool) (medallions : Option (ℕ × ℕ))
    (race variant : ℕ) (p : Product) (c : Conn State)
    → OnOk
        (λ items t. (t ≡ c.tables) × IsDistinct items)
        (order_items realm enrich medallions race variant p c)
unfolding order_items
order_items-IsDistinct realm enrich medallions race variant p c =
    let P =
      OnOk {E = Problem} (λ (items : List ItemQuantity) t. (t ≡ c.tables) × IsDistinct items) in
    query_or-bind P _ _ _ c λ own.
      chain (Unchanged c.tables) (λ items t. (t ≡ c.tables) × IsDistinct items) _ _ (sent c)
        (Keeps-OnOk (λ t. t ≡ c.tables) _ (sent c) (add_bundle-Keeps realm enrich p _ c.tables)
          refl)
        λ with_bundle d same.
          chain (Unchanged c.tables) (λ items t. (t ≡ c.tables) × IsDistinct items) _ _ d
            (Keeps-OnOk (λ t. t ≡ c.tables) _ d
              (replace_by_variant-Keeps variant with_bundle c.tables) same)
            λ chosen e same'.
              lift-bind P _ _ e (λ _ _. tt)
                λ equipped _.
                  lift-bind P _ _ e (λ _ _. tt)
                    λ mounted _. pure_end P _ _ (same', (consolidate_exact mounted).0)

insert_item_eq :
    (id : ℕ) (i : ItemQuantity) (s t : State) (a : Unit {0})
    → insert_item id i s ≡ some (a, t)
    → t ≡ record s { items = s.items ++ order_item id i ∷ [] }
unfolding insert_item
insert_item_eq id i s t a h = ground arith

-- The state with these items written behind the others.
abbrev pub with_items : State → List OrderItem → State
with_items s rows = record s { items = s.items ++ rows }

with_items_twice :
    (s t : State) (x : OrderItem) (rows : List OrderItem)
    → t ≡ with_items s (x ∷ [])
    → with_items t rows ≡ with_items s (x ∷ rows)
with_items_twice s t x rows h = rw (h, append_assoc s.items (x ∷ []) rows) refl

with_items_none : (s : State) → s ≡ with_items s []
with_items_none s = rw (append-nil s.items) refl

pub insert_items-exact :
    (id : ℕ) (items : List ItemQuantity) (c : Conn State)
    → OnOk
        (λ (_ : Unit {0}) t. t ≡ with_items c.tables (map (order_item id) items))
        (insert_items id items c)
unfolding insert_items pure
insert_items-exact id [] c = with_items_none c.tables
insert_items-exact id (i ∷ items) c =
    let P =
      OnOk {E = Problem}
        (λ (_ : Unit {0}) t. t ≡ with_items c.tables (map (order_item id) (i ∷ items))) in
    exec-bind P _ _ _ c tt λ a t written.
      OnOk-map _ (λ (_ : Unit {0}) u. u ≡ with_items c.tables (map (order_item id) (i ∷ items))) _
        (insert_items-exact id items (wrote c t))
        λ _ u rest.
          rest
          ∙ with_items_twice c.tables t (order_item id i) (map (order_item id) items)
              (insert_item_eq id i c.tables t a written)
