-- ===== src/Tests/Shop.antt =====
-- A purchase of the sample product, with the sample coupon.
use Prim.Native.Nat.{min}
use azeroth_core_web.Base.{
  ℕ, ◌+◌, ◌*◌, ◌/◌, ◌%◌, ◌≡◌, none, some, true, false, List, [], ◌∷◌, codes, find_if, arith,
  count_if, keep_if, update_if, text_eq, trim_space, upper, is_space, contains_any, refl,
  contains_num,
}
use azeroth_core_web.Base.Int.{◌+ℤ◌, ◌-ℤ◌}
use azeroth_core_web.Base.Words.{u32_mod}
use azeroth_core_web.Db.Atomic.{AllOrNothing}
use azeroth_core_web.Tables.{ItemQuantity}
use azeroth_core_web.Wallet.{balance_of, debit, set_balance}
use azeroth_core_web.Wallet.Settled.{Settled}
use azeroth_core_web.Shop.Items.{consolidate_bundle_items, consolidate_from, add_item}
use azeroth_core_web.Shop.Items.Laws.{IsDistinct, quantity_of, consolidate_exact}
use azeroth_core_web.Shop.Pricing.{
  coupon_discount, effective_product_price, apply_coupon, apply_code, coupon_code_pattern,
  usable_coupon, within_window,
}
use azeroth_core_web.Shop.Pricing.Coupons.{coupon_discount_exact}
use azeroth_core_web.Shop.Purchase.{
  Shop, Request, purchase, purchase_body, quote_order, check_limit, purchases_of, on_sale_here,
  price_order, read_adjustment, adjusted_price, check_buyer, book_order, use_coupon, insert_items,
  insert_item, reserve_stock, in_stock,
}
use azeroth_core_web.Shop.Purchase.Books.{IsPurchase, purchase-AllOrNothing, purchase-Settled}
use azeroth_core_web.Db.{
  ok, transaction, ◌>>=◌, pure, fail, lift, exec, update, query, query_or, stop_if,
}
use azeroth_core_web.Shop.Purchase.Items.{
  order_items, product_items_of, add_bundle, or_single, replace_by_variant, faction_medallion,
  faction_mounts,
}
use azeroth_core_web.Tests.Samples.{realm, coupon, wallets, ledger, tables, conn}

abbrev shop : Shop
shop = record {
  realm_key = realm;
  now = 1000;
  delivery = true;
  character =
      λ guid account. some (record { name = codes "Thrall"; online = false; class = 7; race = 2 });
  medallions = none;
  enrich = λ items. true;
}

abbrev request : Request
request = record { account = 7; product = 5; character = 40; variant = 0; coupon = codes " save10" }

purchase-AllOrNothing_example :
    AllOrNothing tables (IsPurchase shop request tables) (purchase shop request conn)
purchase-AllOrNothing_example = purchase-AllOrNothing shop request conn

Settled-at_start : Settled wallets ledger
unfolding balance_of find_if ◌+ℤ◌
Settled-at_start a = ground arith

purchase-Settled_example :
    let t = (purchase shop request conn).1.tables in Settled t.wallets t.ledger
purchase-Settled_example = purchase-Settled shop request conn Settled-at_start

coupon_discount_exact_example :
    coupon_discount 300 coupon
    ≡ min 300 (300 * coupon.discount_percent / 100 + coupon.discount_credits)
coupon_discount_exact_example =
    coupon_discount_exact 300 coupon (omega arith) (omega arith) (omega arith)

abbrev three_items : List ItemQuantity
three_items =
    record { item_id = 4; quantity = 2 }
    ∷ record { item_id = 9; quantity = 1 }
    ∷ record { item_id = 4; quantity = 3 }
    ∷ []

consolidate_exact_example :
    IsDistinct (consolidate_bundle_items three_items)
    × ((j : ℕ)
        → quantity_of j (consolidate_bundle_items three_items) % u32_mod
          ≡ quantity_of j three_items % u32_mod)
consolidate_exact_example = consolidate_exact three_items

-- The sample purchase goes through, as order number 2, at 300 credits less 10 per cent and 5.
purchase_accepted : (purchase shop request conn).0 ≡ ok 2
unfolding transaction ◌>>=◌ pure fail lift exec update query query_or stop_if find_if count_if
    keep_if update_if text_eq trim_space upper is_space contains_any contains_num balance_of debit
    set_balance purchase purchase_body quote_order check_limit purchases_of on_sale_here
    within_window price_order read_adjustment adjusted_price effective_product_price apply_coupon
    apply_code coupon_code_pattern usable_coupon coupon_discount check_buyer book_order use_coupon
    order_items product_items_of add_bundle or_single replace_by_variant faction_medallion
    faction_mounts consolidate_bundle_items consolidate_from add_item insert_items insert_item
    reserve_stock in_stock ◌+ℤ◌ ◌-ℤ◌
purchase_accepted = refl
