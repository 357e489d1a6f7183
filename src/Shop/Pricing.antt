-- ===== src/Shop/Pricing.antt =====
-- What a product costs: `effectiveProductPrice` and `eligibilityReasons` of
-- internal/web/shop_public.go, and `applyCoupon` of internal/web/shop_admin.go.
pub mod Coupons
use azeroth_core_web.Base.{
  ℕ, ◌+◌, ◌-◌, ◌*◌, ◌/◌, ◌%◌, ◌&&◌, ◌||◌, not, Bool, true, false, Option, none, some, List, [], ◌∷◌,
  ◌++◌, Text, text_eq, ◌==◌, ltb, leb, if◌then◌else◌, find_if, count_if, length, to_upper, to_lower,
  trim_space,
}
use azeroth_core_web.Base.Words.{u32_mod, u64_mod}
use azeroth_core_web.Http.{Problem, problem}
use azeroth_core_web.Db.{Exec, pure, query, stop_if, ◌>>=◌, ◌>>◌}
use azeroth_core_web.Tables.{State, Product, Coupon, CouponUse}

-- `effectiveProductPrice`; `purchase` computes the same.
unfoldable pub effective_product_price : Product → ℕ
effective_product_price p =
    if ltb 0 p.sale_price && ltb p.sale_price p.price then p.sale_price else p.price

pub data Ineligible : Type 0 where
  is_online wrong_class sold_out limit_reached too_few_credits no_delivery : Ineligible

reason_if : Bool → Ineligible → List Ineligible
reason_if true reason = reason ∷ []
reason_if false reason = []

-- `eligibilityReasons`
unfoldable pub eligibility_reasons : Product → Bool → ℕ → ℕ → ℕ → Bool → List Ineligible
unfolding reason_if
eligibility_reasons p online class balance purchases delivery =
    reason_if online Ineligible.is_online
    ++ (reason_if (not (p.class_id == 0) && not (class == p.class_id)) Ineligible.wrong_class
        ++ (reason_if (ltb 0 p.stock_limit && leb p.stock_limit p.sold_count) Ineligible.sold_out
            ++ (reason_if (ltb 0 p.per_account_limit && leb p.per_account_limit purchases)
                  Ineligible.limit_reached
                ++ (reason_if (ltb balance (effective_product_price p)) Ineligible.too_few_credits
                    ++ reason_if (not delivery) Ineligible.no_delivery))))

-- couponCodePattern: ^[A-Z0-9][A-Z0-9_-]{2,39}$
code_start : ℕ → Bool
code_start c = leb 65 c && leb c 90 || leb 48 c && leb c 57

code_bytes : Text → Bool
code_bytes [] = true
code_bytes (c ∷ s) = (code_start c || (c == 95) || (c == 45)) && code_bytes s

unfoldable pub coupon_code_pattern : Text → Bool
unfolding code_start code_bytes
coupon_code_pattern [] = false
coupon_code_pattern (c ∷ s) = code_start c && leb 2 (length s) && leb (length s) 39 && code_bytes s

-- `strings.EqualFold(strings.TrimSpace(a), strings.TrimSpace(b))` on ASCII text
unfoldable pub same_category : Text → Text → Bool
same_category a b = text_eq (to_lower (trim_space a)) (to_lower (trim_space b))

-- A sale window: from its start to before its end.
unfoldable pub within_window : ℕ → Option ℕ → Option ℕ → Bool
within_window now starts ends =
    elim starts [ none ↦ true | some t ↦ leb t now ]
    && elim ends [ none ↦ true | some t ↦ ltb now t ]

-- What a coupon takes off: uint32(uint64(subtotal)*uint64(percent)/100) + credits, at most all of it.
unfoldable pub coupon_discount : ℕ → Coupon → ℕ
coupon_discount subtotal c =
    let discount =
      (subtotal * c.discount_percent % u64_mod / 100 % u32_mod + c.discount_credits) % u32_mod in
    if ltb subtotal discount then subtotal else discount

-- The result of `applyCoupon`: no coupon has the id 0.
pub record Discount : Type 0 where
  pub discount : ℕ
  pub coupon : ℕ
  pub code : Text

abbrev pub no_discount : Discount
no_discount = record { discount = 0; coupon = 0; code = [] }

unfoldable pub usable_coupon : ℕ → Text → Coupon → Bool
usable_coupon now code c =
    text_eq c.code code && c.active && within_window now c.starts_at c.ends_at

-- `applyCoupon` with a code: each error is a response with status 422.
unfoldable pub apply_code : ℕ → ℕ → Text → ℕ → Bool → Text → Exec State Problem Discount
unfolding same_category
apply_code now account code subtotal on_sale category = do
  stop_if (not (coupon_code_pattern code)) (problem 422 "invalid coupon")
  c ←
      query (problem 422 "coupon is invalid or expired")
        (λ s. find_if (usable_coupon now code) s.coupons)
  total_uses ←
      query (problem 422 "could not validate coupon")
        (λ s. some (count_if (λ (u : CouponUse). u.coupon == c.id) s.coupon_uses))
  account_uses ← query (problem 422 "could not validate coupon") (λ s.
      some
        (count_if (λ (u : CouponUse). (u.coupon == c.id) && (u.account == account)) s.coupon_uses))
  stop_if (ltb 0 c.max_uses && leb c.max_uses total_uses) (problem 422 "coupon usage limit reached")
  stop_if (ltb 0 c.per_account_limit && leb c.per_account_limit account_uses)
      (problem 422 "coupon already used")
  stop_if (on_sale && not c.allow_sale) (problem 422 "coupon cannot be combined with a sale price")
  stop_if (ltb subtotal c.min_subtotal)
      (problem 422 "coupon requires a subtotal of at least %d credits")
  stop_if (not (length c.category == 0) && not (same_category c.category category))
      (problem 422 "coupon is not valid for this product category")
  pure (record { discount = coupon_discount subtotal c; coupon = c.id; code = c.code })

-- `applyCoupon`
unfoldable pub apply_coupon : ℕ → ℕ → Text → ℕ → Bool → Text → Exec State Problem Discount
apply_coupon now account raw subtotal on_sale category =
    let code = to_upper (trim_space raw) in
    if length code == 0
    then pure no_discount
    else apply_code now account code subtotal on_sale category
