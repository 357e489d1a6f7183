-- ===== src/Shop/Pricing/Coupons.antt =====
-- internal/web/shop_admin.go, `applyCoupon`: what a discount that is granted has passed.
use Prim.Native.Nat.{min}
use native.Mathlib.Nat.{mul-le-mul}
use azeroth_core_web.Base.{ℕ, ◌+◌, ◌*◌, ◌/◌, ◌%◌, ◌≤◌, ◌≡◌, arith}
use azeroth_core_web.Base.Words.{u32_mod, u64_mod}
use azeroth_core_web.Tables.{Coupon}
use azeroth_core_web.Shop.Pricing.{coupon_discount}

-- A coupon takes off its percentage and its credits, and never more than the subtotal: for the
-- subtotals that `purchase` admits and the coupons that staff can create nothing wraps around.
pub coupon_discount_exact :
    (subtotal : ℕ) (c : Coupon)
    → subtotal ≤ 10000000
    → c.discount_percent ≤ 100
    → c.discount_credits ≤ 10000000
    → coupon_discount subtotal c
      ≡ min subtotal (subtotal * c.discount_percent / 100 + c.discount_credits)
unfolding coupon_discount
coupon_discount_exact subtotal c small percent credits =
    let product : subtotal * c.discount_percent ≤ 10000000 * 100 = mul-le-mul small percent in
    let unwrapped : subtotal * c.discount_percent % u64_mod ≡ subtotal * c.discount_percent =
      omega (arith, product) in
    let fits : subtotal * c.discount_percent / 100 % u32_mod ≡ subtotal * c.discount_percent / 100 =
      omega (arith, product) in
    rw (unwrapped, fits) (ground (arith, product))
