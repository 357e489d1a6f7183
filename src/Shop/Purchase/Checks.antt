-- ===== src/Shop/Purchase/Checks.antt =====
-- internal/web/server.go, `purchase`: the checks before it writes. None of them changes a table, and
-- what passes them is paid for and allowed.
use azeroth_core_web.Base.{
  ℕ, ◌<◌, ◌⊎◌, inl, inr, true, not, ◌+◌, ◌-◌, ◌%◌, ◌≤◌, ◌≡◌, refl, Bool, false, ◌&&◌, Option, none,
  some, ◌==◌, arith, ltb, leb, if◌then◌else◌, find_if, ◌∙◌, sym,
}
use azeroth_core_web.Base.Int.{ℤ, pos, negsuc, ◌+ℤ◌}
use azeroth_core_web.Base.Words.{u32_mod}
use azeroth_core_web.Db.{Conn, sent}
use azeroth_core_web.Db.Rules.{
  query-bind, query_end, stop_if-bind, stop_if_end, lift-bind, pure_end, branch,
}
use azeroth_core_web.Db.Atomic.{OnOk, OnOk-map, chain}
use azeroth_core_web.Http.{Problem, or_problem-some}
use azeroth_core_web.Tables.{State, Product, Variant}
use azeroth_core_web.Wallet.{balance_of}
use azeroth_core_web.Shop.Pricing.{effective_product_price}
use azeroth_core_web.Shop.Purchase.Offer.{IsOffer, Offering, apply_coupon-IsOffer, IsOffer-le}
use azeroth_core_web.Shop.Purchase.{
  variant_here, adjustment_of, Shop, Request, Quote, Buyer, on_sale_here, purchases_of, check_limit,
  read_adjustment, adjusted_price, price_order, quote_order, check_buyer,
}

-- The price of a product: that of the sale, if it is lower.
abbrev pub IsPrice : Product → ℕ → Type 0
IsPrice p n =
    ((0 < p.sale_price) × (p.sale_price < p.price) × (n ≡ p.sale_price))
    ⊎ (((p.sale_price ≡ 0) ⊎ (p.price ≤ p.sale_price)) × (n ≡ p.price))

-- What the chosen variant adds to the price.
abbrev pub IsAdjustment : Request → Product → State → ℤ → Type 0
IsAdjustment r p s z =
    ((r.variant ≡ 0) × (p.variant_required ≡ false) × (z ≡ pos 0))
    ⊎ ((v : Variant) × (find_if (variant_here r.variant p.id) s.variants ≡ some v)
        × (v.adjustment ≡ z))

-- What a quote guarantees: the subtotal is the price of the product with its variant, the coupon may be
-- used, and the total is what is left after its discount; the wallet covers it; the product is on sale, in stock and within the account's limit.
pub record IsQuote (shop : Shop) (r : Request) (s : State) (q : Quote) : Type 0 where
  pub base : ℕ
  pub based : IsPrice q.product base
  pub adjustment : ℤ
  pub adjusted : IsAdjustment r q.product s adjustment
  pub priced : pos q.subtotal ≡ pos base +ℤ adjustment
  pub price : q.subtotal ≤ 10000000
  pub offered :
      IsOffer shop.now r.account r.coupon q.subtotal
        (ltb 0 q.product.sale_price)
        q.product.category
        s
        q.offer
  pub sum : q.total + q.offer.discount ≡ q.subtotal
  pub balance : ℕ
  pub wallet : balance_of r.account s.wallets ≡ some balance
  pub covered : q.total ≤ balance
  pub on_sale : find_if (on_sale_here shop r.product) s.products ≡ some q.product
  pub stock : ltb 0 q.product.stock_limit && leb q.product.stock_limit q.product.sold_count ≡ false
  pub limit :
      ltb 0 q.product.per_account_limit
        && leb q.product.per_account_limit (purchases_of shop r.account q.product.id s.orders)
      ≡ false

adjusted_price_le :
    (base : ℕ) (adjustment : ℤ) (n : ℕ)
    → adjusted_price base adjustment ≡ some n
    → (pos n ≡ pos base +ℤ adjustment) × (n ≤ 10000000)
unfolding adjusted_price
adjusted_price_le base adjustment n h = price_le (pos base +ℤ adjustment) h
  where
    price_le :
        (z : ℤ)
        → elim z [ pos m ↦ if ltb 10000000 m then none else some m | negsuc m ↦ none ] ≡ some n
        → (pos n ≡ z) × (n ≤ 10000000)
    price_le (pos m) e = (ground arith, ground arith)
    price_le (negsuc m) e = cc

effective_product_price-IsPrice : (p : Product) → IsPrice p (effective_product_price p)
unfolding effective_product_price
effective_product_price-IsPrice p = ground arith

total_exact :
    (subtotal discount : ℕ)
    → subtotal ≤ 10000000
    → discount ≤ subtotal
    → (subtotal + (u32_mod - discount)) % u32_mod + discount ≡ subtotal
total_exact subtotal discount small h = omega arith

not_ltb : (a b : ℕ) → ltb a b ≡ false → b ≤ a
not_ltb a b h = ground arith

abbrev pub Unchanged : {A : Type 0} → State → A → State → Type 0
Unchanged s _ t = t ≡ s

abbrev Adjusted : Request → Product → State → ℤ → State → Type 0
Adjusted r p s z t = (t ≡ s) × IsAdjustment r p s z

adjustment_found :
    (o : Option Variant) (z : ℤ)
    → adjustment_of o ≡ some z
    → (v : Variant) × (o ≡ some v) × (v.adjustment ≡ z)
unfolding adjustment_of
adjustment_found none z h = cc
adjustment_found (some v) z h = (v, refl, cc)

read_adjustment-Adjusted :
    (r : Request) (p : Product) (c : Conn State)
    → OnOk (Adjusted r p c.tables) (read_adjustment r p c)
unfolding read_adjustment
read_adjustment-Adjusted r p c =
    let P = OnOk {E = Problem} (Adjusted r p c.tables) in
    branch P (ltb 0 r.variant) _ _ c
      (λ _. query_end P _ _ c tt λ z found. (refl, inr (adjustment_found _ z found)))
      (λ none_chosen.
        stop_if-bind P _ _ _ _ (λ _. tt)
          λ optional. pure_end P _ _ (refl, inl (ground (arith, none_chosen), optional, refl)))

-- The price of a product that was found.
record IsPriced (shop : Shop) (r : Request) (p : Product) (s : State) (q : Quote) : Type 0 where
  product : q.product ≡ p
  base : ℕ
  based : IsPrice p base
  adjustment : ℤ
  adjusted : IsAdjustment r p s adjustment
  priced : pos q.subtotal ≡ pos base +ℤ adjustment
  price : q.subtotal ≤ 10000000
  offered : IsOffer shop.now r.account r.coupon q.subtotal (ltb 0 p.sale_price) p.category s q.offer
  sum : q.total + q.offer.discount ≡ q.subtotal
  balance : ℕ
  wallet : balance_of r.account s.wallets ≡ some balance
  covered : q.total ≤ balance

abbrev Priced : Shop → Request → Product → State → Quote → State → Type 0
Priced shop r p s q t = (t ≡ s) × IsPriced shop r p s q

price_order-Priced :
    (shop : Shop) (r : Request) (p : Product) (c : Conn State)
    → OnOk (Priced shop r p c.tables) (price_order shop r p c)
unfolding price_order
price_order-Priced shop r p c =
    let P = OnOk {E = Problem} (Priced shop r p c.tables) in
    chain (Adjusted r p c.tables) (Priced shop r p c.tables) _ _ c (read_adjustment-Adjusted r p c)
      λ adjustment d adjusted.
        lift-bind P _ _ d (λ _ _. tt)
          λ subtotal priced.
            let (sum, small) =
              adjusted_price_le (effective_product_price p) adjustment subtotal
                (or_problem-some _ _ subtotal priced) in
            chain
              (Offering shop.now r.account r.coupon subtotal (ltb 0 p.sale_price) p.category
                d.tables)
              (Priced shop r p c.tables) _ _ d (apply_coupon-IsOffer _ _ _ subtotal _ _ d)
              λ offer d' granted. query-bind P _ _ _ d' tt λ balance found.
                stop_if-bind P _ _ _ _ (λ _. tt)
                  λ enough. pure_end P _ _ (
                    granted.0 ∙ adjusted.0,
                    record {
                      product = refl;
                      base = effective_product_price p;
                      based = effective_product_price-IsPrice p;
                      adjustment = adjustment;
                      adjusted = adjusted.1;
                      priced = sum;
                      price = small;
                      offered = rw adjusted.0 at granted.1;
                      sum =
                          total_exact subtotal offer.discount small
                            (IsOffer-le _ _ _ subtotal _ _ _ offer granted.1);
                      balance = balance;
                      wallet = rw (sym (granted.0 ∙ adjusted.0)) found;
                      covered = not_ltb balance _ enough;
                    },
                  )

abbrev pub Quoted : Shop → Request → State → Quote → State → Type 0
Quoted shop r s q t = (t ≡ s) × IsQuote shop r s q

-- The account has bought less of the product than its limit allows.
abbrev Allowed : Shop → Request → Product → State → Type 0
Allowed shop r p s =
    ltb 0 p.per_account_limit && leb p.per_account_limit (purchases_of shop r.account p.id s.orders)
    ≡ false

quoted :
    (shop : Shop) (r : Request) (s d t : State) (p : Product) (q : Quote)
    → find_if (on_sale_here shop r.product) s.products ≡ some p
    → ltb 0 p.stock_limit && leb p.stock_limit p.sold_count ≡ false
    → (d ≡ s) × Allowed shop r p s
    → Priced shop r p d q t
    → Quoted shop r s q t
quoted shop r s d t p q found stocked allowed (same, priced) = (
  same ∙ allowed.0,
  record {
    base = priced.base;
    based = rw priced.product priced.based;
    adjustment = priced.adjustment;
    adjusted = rw (priced.product, sym allowed.0) priced.adjusted;
    priced = priced.priced;
    price = priced.price;
    offered = rw (priced.product, sym allowed.0) priced.offered;
    sum = priced.sum;
    balance = priced.balance;
    wallet = rw (sym allowed.0) priced.wallet;
    covered = priced.covered;
    on_sale = rw priced.product found;
    stock = rw priced.product stocked;
    limit = rw priced.product allowed.1;
  },
)

check_limit-Allowed :
    (shop : Shop) (r : Request) (p : Product) (c : Conn State)
    → OnOk (λ (_ : Unit {0}) t. (t ≡ c.tables) × Allowed shop r p c.tables) (check_limit shop r p c)
unfolding check_limit
check_limit-Allowed shop r p c =
    let P = OnOk {E = Problem} (λ (_ : Unit {0}) t. (t ≡ c.tables) × Allowed shop r p c.tables) in
    branch P (ltb 0 p.per_account_limit) _ _ c
      (λ limited. query-bind P _ _ _ _ tt λ count counted.
        stop_if_end P _ _ _ (λ _. tt) λ below. (refl, ground (arith, counted, below)))
      (λ unlimited. pure_end P _ _ (refl, ground (arith, unlimited)))

pub quote_order-Quoted :
    (shop : Shop) (r : Request) (c : Conn State)
    → OnOk (Quoted shop r c.tables) (quote_order shop r c)
unfolding quote_order
quote_order-Quoted shop r c =
    let P = OnOk {E = Problem} (Quoted shop r c.tables) in
    query-bind P _ _ _ c tt λ p found.
      chain (λ (_ : Unit {0}) t. (t ≡ c.tables) × Allowed shop r p c.tables)
        (Quoted shop r c.tables) _ _ _ (check_limit-Allowed shop r p (sent c))
        λ _ d allowed.
          stop_if-bind P _ _ _ d (λ _. tt)
            λ stocked.
              OnOk-map (Priced shop r p d.tables) (Quoted shop r c.tables) (price_order shop r p d)
                (price_order-Priced shop r p d)
                λ q t priced. quoted shop r c.tables d.tables t p q found stocked allowed priced

or_none :
    (class wanted : ℕ)
    → not (wanted == 0) && not (class == wanted) ≡ false
    → (wanted ≡ 0) ⊎ (class ≡ wanted)
or_none class wanted h = ground arith

not-false : (b : Bool) → not b ≡ false → b ≡ true
not-false true h = refl
not-false false h = cc

-- The character that the order is for: one of the account, offline, and of the product's class.
pub record IsBuyer (shop : Shop) (r : Request) (p : Product) (who : Buyer) : Type 0 where
  pub own : shop.character r.character r.account ≡ some who
  pub offline : who.online ≡ false
  pub fits : (p.class_id ≡ 0) ⊎ (who.class ≡ p.class_id)
  pub delivers : shop.delivery ≡ true

abbrev pub Bought : Shop → Request → Product → State → Buyer → State → Type 0
Bought shop r p s who t = (t ≡ s) × IsBuyer shop r p who

pub check_buyer-Bought :
    (shop : Shop) (r : Request) (p : Product) (c : Conn State)
    → OnOk (Bought shop r p c.tables) (check_buyer shop r p c)
unfolding check_buyer
check_buyer-Bought shop r p c =
    let P = OnOk {E = Problem} (Bought shop r p c.tables) in
    lift-bind P _ _ c (λ _ _. tt)
      λ who found.
        stop_if-bind P _ _ _ _ (λ _. tt)
          λ offline.
            stop_if-bind P _ _ _ _ (λ _. tt)
              λ fits.
                stop_if-bind P _ _ _ _ (λ _. tt)
                  λ delivers. pure_end P _ _ (
                    refl,
                    record {
                      own = or_problem-some _ _ who found;
                      offline = offline;
                      fits = or_none who.class p.class_id fits;
                      delivers = not-false shop.delivery delivers;
                    },
                  )
