-- ===== src/Shop/Purchase/Offer.antt =====
-- internal/web/shop_admin.go, `applyCoupon`, for internal/web/server.go, `purchase`: which discount it
-- gives.
use azeroth_core_web.Base.{
  ℕ, ◌≤◌, ◌<◌, ◌≡◌, ◌⊎◌, inl, inr, refl, Bool, false, ◌&&◌, not, some, Text, ◌==◌, arith, ltb, leb,
  length, to_upper, trim_space, find_if, count_if,
}
use azeroth_core_web.Db.{Conn}
use azeroth_core_web.Db.Rules.{query-bind, stop_if-bind, pure_end, branch}
use azeroth_core_web.Db.Atomic.{OnOk, OnOk-map}
use azeroth_core_web.Http.{Problem}
use azeroth_core_web.Tables.{State, Coupon, CouponUse}
use azeroth_core_web.Shop.Pricing.{
  Discount, usable_coupon, coupon_discount, apply_code, apply_coupon, same_category,
}

pub discount_le : (subtotal : ℕ) (c : Coupon) → coupon_discount subtotal c ≤ subtotal
unfolding coupon_discount
discount_le subtotal c = ground arith

-- A limit of 0 is none.
abbrev pub IsBelow : ℕ → ℕ → Type 0
IsBelow limit n = (limit ≡ 0) ⊎ (n < limit)

-- The coupon that is granted: it is usable now, it and the account's uses of it are below their limits,
-- it may be combined with a sale if there is one, and the subtotal and the category are such that it
-- applies; and the discount is the coupon's.
pub record IsGranted (now account : ℕ) (code : Text) (subtotal : ℕ) (on_sale : Bool)
    (category : Text) (s : State) (d : Discount) : Type 0 where
  pub coupon : Coupon
  pub usable : find_if (usable_coupon now code) s.coupons ≡ some coupon
  pub uses :
      IsBelow coupon.max_uses (count_if (λ (u : CouponUse). u.coupon == coupon.id) s.coupon_uses)
  pub own_uses : IsBelow coupon.per_account_limit (
      count_if (λ (u : CouponUse). (u.coupon == coupon.id) && (u.account == account)) s.coupon_uses)
  pub combined : on_sale && not coupon.allow_sale ≡ false
  pub large : coupon.min_subtotal ≤ subtotal
  pub listed :
      not (length coupon.category == 0) && not (same_category coupon.category category) ≡ false
  pub worth : d.discount ≡ coupon_discount subtotal coupon
  pub named : d.coupon ≡ coupon.id

-- Without a code there is no discount.
abbrev pub IsOffer : ℕ → ℕ → Text → ℕ → Bool → Text → State → Discount → Type 0
IsOffer now account raw subtotal on_sale category s d =
    ((length (to_upper (trim_space raw)) ≡ 0) × (d.discount ≡ 0) × (d.coupon ≡ 0))
    ⊎ IsGranted now account (to_upper (trim_space raw)) subtotal on_sale category s d

abbrev Granting : ℕ → ℕ → Text → ℕ → Bool → Text → State → Discount → State → Type 0
Granting now account code subtotal on_sale category s d t =
    (t ≡ s) × IsGranted now account code subtotal on_sale category s d

-- The coupon changes nothing.
abbrev pub Offering : ℕ → ℕ → Text → ℕ → Bool → Text → State → Discount → State → Type 0
Offering now account raw subtotal on_sale category s d t =
    (t ≡ s) × IsOffer now account raw subtotal on_sale category s d

IsBelow-limit :
    (limit n total : ℕ)
    → some n ≡ some total
    → ltb 0 limit && leb limit total ≡ false
    → IsBelow limit n
IsBelow-limit limit n total same h = let e : n ≡ total = cc in ground (arith, e, h)

at_least : (a b : ℕ) → ltb a b ≡ false → b ≤ a
at_least a b h = ground arith

apply_code-IsGranted :
    (now account : ℕ) (code : Text) (subtotal : ℕ) (on_sale : Bool) (category : Text)
    (c : Conn State)
    → OnOk
        (Granting now account code subtotal on_sale category c.tables)
        (apply_code now account code subtotal on_sale category c)
unfolding apply_code
apply_code-IsGranted now account code subtotal on_sale category c =
    let P = OnOk {E = Problem} (Granting now account code subtotal on_sale category c.tables) in
    stop_if-bind P _ _ _ _ (λ _. tt)
      λ _. query-bind P _ _ _ _ tt λ row found. query-bind P _ _ _ _ tt λ total counted.
        query-bind P _ _ _ _ tt λ own own_counted.
          stop_if-bind P _ _ _ _ (λ _. tt)
            λ uses.
              stop_if-bind P _ _ _ _ (λ _. tt)
                λ own_uses.
                  stop_if-bind P _ _ _ _ (λ _. tt)
                    λ combined.
                      stop_if-bind P _ _ _ _ (λ _. tt)
                        λ large.
                          stop_if-bind P _ _ _ _ (λ _. tt)
                            λ listed. pure_end P _ _ (
                              refl,
                              record {
                                coupon = row;
                                usable = found;
                                uses = IsBelow-limit row.max_uses _ total counted uses;
                                own_uses =
                                    IsBelow-limit row.per_account_limit _ own own_counted own_uses;
                                combined = combined;
                                large = at_least subtotal row.min_subtotal large;
                                listed = listed;
                                worth = refl;
                                named = refl;
                              },
                            )

pub apply_coupon-IsOffer :
    (now account : ℕ) (raw : Text) (subtotal : ℕ) (on_sale : Bool) (category : Text)
    (c : Conn State)
    → OnOk
        (Offering now account raw subtotal on_sale category c.tables)
        (apply_coupon now account raw subtotal on_sale category c)
unfolding apply_coupon
apply_coupon-IsOffer now account raw subtotal on_sale category c =
    let P = OnOk {E = Problem} (Offering now account raw subtotal on_sale category c.tables) in
    let code = to_upper (trim_space raw) in
    branch P (length code == 0) _ _ c
      (λ empty. pure_end P _ _ (refl, inl (ground (arith, empty), refl, refl)))
      (λ _.
        OnOk-map (Granting now account code subtotal on_sale category c.tables)
          (Offering now account raw subtotal on_sale category c.tables) _
          (apply_code-IsGranted now account code subtotal on_sale category c)
          λ d t granted. (granted.0, inr granted.1))

-- The discount is at most the subtotal.
pub IsOffer-le :
    (now account : ℕ) (raw : Text) (subtotal : ℕ) (on_sale : Bool) (category : Text) (s : State)
    (d : Discount)
    → IsOffer now account raw subtotal on_sale category s d
    → d.discount ≤ subtotal
IsOffer-le now account raw subtotal on_sale category s d (inl none_given) =
    omega (arith, none_given.1)
IsOffer-le now account raw subtotal on_sale category s d (inr granted) =
    omega (arith, granted.worth, discount_le subtotal granted.coupon)
