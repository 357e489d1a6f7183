-- ===== src/Shop/Purchase/Stock.antt =====
-- internal/web/server.go, `purchase`: what it does to the stock of a product.
use azeroth_core_web.Base.{
  ℕ, ◌+◌, ◌≡◌, ◌⊎◌, inl, inr, refl, Bool, false, not, ◌&&◌, [], ◌∷◌, ◌++◌, text_eq, ◌==◌, ltb,
  arith, codes, if◌then◌else◌, count_if, update_if,
}
use azeroth_core_web.Base.Int.{negsuc}
use azeroth_core_web.Db.{Conn}
use azeroth_core_web.Db.Rules.{update-bind, update_end, stop_if-bind, pure_end, branch}
use azeroth_core_web.Db.Atomic.{OnOk}
use azeroth_core_web.Http.{Problem}
use azeroth_core_web.Tables.{State, Product}
use azeroth_core_web.Shop.Purchase.{Shop, Request, in_stock, reserve_stock}

-- The rows of the product that have stock left.
abbrev pub has_stock : Shop → Product → Product → Bool
has_stock shop p x =
    (x.id == p.id) && text_eq x.realm_key shop.realm_key && ltb x.sold_count x.stock_limit

-- What a sale does to the stock of a product with a limit: one row has one more sold, and a movement
-- of one piece is recorded. Without a limit nothing happens.
pub record IsReserved (shop : Shop) (r : Request) (p : Product) (id : ℕ) (s t : State)
    : Type 0 where
  pub in_stock_once : (p.stock_limit ≡ 0) ⊎ (count_if (has_stock shop p) s.products ≡ 1)
  pub sold : t.products ≡ (
      if ltb 0 p.stock_limit
      then update_if (has_stock shop p) (λ x. record x { sold_count = x.sold_count + 1 }) s.products
      else s.products)
  pub moved : t.movements ≡ (
      if ltb 0 p.stock_limit
      then s.movements
        ++ record {
          realm_key = shop.realm_key;
          product = p.id;
          delta = negsuc 0;
          kind = codes "sale";
          reference = id;
          actor = r.account;
        }
          ∷ []
      else s.movements)

-- The other tables of the purchase.
pub record SameOrder (s t : State) : Type 0 where
  pub wallets : t.wallets ≡ s.wallets
  pub ledger : t.ledger ≡ s.ledger
  pub orders : t.orders ≡ s.orders
  pub coupon_uses : t.coupon_uses ≡ s.coupon_uses
  pub items : t.items ≡ s.items

abbrev pub Reserved : Shop → Request → Product → ℕ → State → Unit {0} → State → Type 0
Reserved shop r p id s _ t = IsReserved shop r p id s t × SameOrder s t

one_changed : (n : ℕ) → not (n == 1) ≡ false → n ≡ 1
one_changed n h = ground arith

no_limit : (n : ℕ) → ltb 0 n ≡ false → n ≡ 0
no_limit n h = ground arith

pub reserve_stock-Reserved :
    (shop : Shop) (r : Request) (p : Product) (id : ℕ) (c : Conn State)
    → OnOk (Reserved shop r p id c.tables) (reserve_stock shop r p id c)
unfolding reserve_stock in_stock
reserve_stock-Reserved shop r p id c =
    let P = OnOk {E = Problem} (Reserved shop r p id c.tables) in
    branch P (ltb 0 p.stock_limit) _ _ c
      (λ limited. update-bind P _ _ _ _ _ tt (
        stop_if-bind P _ _ _ _ (λ _. tt)
          λ once. update_end P _ _ _ _ tt (
            record {
              in_stock_once = inr (one_changed _ once);
              sold = rw limited refl;
              moved = rw limited refl;
            },
            record {
              wallets = refl;
              ledger = refl;
              orders = refl;
              coupon_uses = refl;
              items = refl;
            },
          )))
      (λ unlimited. pure_end P _ _ (
        record {
          in_stock_once = inl (no_limit p.stock_limit unlimited);
          sold = rw unlimited refl;
          moved = rw unlimited refl;
        },
        record { wallets = refl; ledger = refl; orders = refl; coupon_uses = refl; items = refl },
      ))

-- The same for a state with the same products and movements.
pub same_stock_before :
    (shop : Shop) (r : Request) (p : Product) (id : ℕ) (u s t : State)
    → u.products ≡ s.products
    → u.movements ≡ s.movements
    → IsReserved shop r p id u t
    → IsReserved shop r p id s t
same_stock_before shop r p id u s t products movements h = record {
  in_stock_once = rw products at h.in_stock_once;
  sold = rw products at h.sold;
  moved = rw movements at h.moved;
}
