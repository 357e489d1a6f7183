-- ===== src/Shop/Purchase/Items.antt =====
-- internal/web/server.go, `purchase`, and `loadBundleItems` of merchandising.go: the items of the new
-- order. A query on the world database is an argument.
use azeroth_core_web.Base.{
  ℕ, ◌&&◌, ◌||◌, not, Bool, Option, none, some, List, [], ◌∷◌, ◌++◌, Text, text_eq, ◌==◌, ltb,
  if◌then◌else◌, codes, map, keep_if, count_if, length,
}
use azeroth_core_web.Http.{Problem, problem, or_problem}
use azeroth_core_web.Db.{Exec, Result, ok, err, pure, lift, query, query_or, stop_if, ◌>>=◌, ◌>>◌}
use azeroth_core_web.Tables.{State, Product, ItemQuantity, ProductItem, BundleItem, VariantItem}
use azeroth_core_web.Shop.Items.{
  is_alliance_race, is_horde_race, apply_starter_mount_faction, consolidate_bundle_items,
}

unfoldable pub product_items_of : ℕ → List ProductItem → List ItemQuantity
product_items_of id rows = map (λ x. x.item) (keep_if (λ x. x.product == id) rows)

unfoldable pub variant_items_of : ℕ → List VariantItem → List ItemQuantity
variant_items_of id rows = map (λ x. x.item) (keep_if (λ x. x.variant == id) rows)

unfoldable pub bundle_items_of : Text → ℕ → List BundleItem → List ItemQuantity
bundle_items_of realm id rows =
    map (λ x. x.item) (keep_if (λ x. (x.bundle == id) && text_eq x.realm_key realm) rows)

-- `loadBundleItems`: no rows is an error, and so is a failed look at the world database.
unfoldable pub load_bundle_items :
    Text → (List ItemQuantity → Bool) → ℕ → Exec State Problem (List ItemQuantity)
load_bundle_items realm enrich id = do
  items ←
      query (problem 500 "Could not load reusable product bundle")
        (λ s. some (bundle_items_of realm id s.bundle_items))
  stop_if (length items == 0) (problem 500 "Could not load reusable product bundle")
  stop_if (not (enrich items)) (problem 500 "Could not load reusable product bundle")
  pure items

-- `len(items) == 0 && p.ItemID != 0`
unfoldable pub or_single : Product → List ItemQuantity → List ItemQuantity
or_single p items =
    if (length items == 0) && not (p.item_id == 0)
    then record { item_id = p.item_id; quantity = p.quantity } ∷ []
    else items

or_else : List ItemQuantity → List ItemQuantity → List ItemQuantity
or_else [] items = items
or_else (x ∷ xs) items = x ∷ xs

-- The bundle's items are added; the variant's, where it has any, replace all.
unfoldable pub add_bundle :
    Text
    → (List ItemQuantity → Bool)
    → Product
    → List ItemQuantity
    → Exec State Problem (List ItemQuantity)
add_bundle realm enrich p items =
    if ltb 0 p.bundle_id
    then (do bundle ← load_bundle_items realm enrich p.bundle_id; pure (items ++ bundle))
    else pure items

unfoldable pub replace_by_variant : ℕ → List ItemQuantity → Exec State Problem (List ItemQuantity)
unfolding or_else
replace_by_variant variant items =
    if ltb 0 variant
    then (do
      own ←
          query (problem 500 "Could not load variant items")
            (λ s. some (variant_items_of variant s.variant_items))
      pure (or_else own items))
    else pure items

-- The faction's medallion in a PvP package.
swap_item : ℕ → ℕ → ItemQuantity → ItemQuantity
swap_item old new i = if i.item_id == old then record i { item_id = new } else i

swap_medallion : ℕ → ℕ → ℕ → List ItemQuantity → Result Problem (List ItemQuantity)
swap_medallion alliance horde race items =
    if not (is_alliance_race race) && not (is_horde_race race)
    then err (problem 422 "Character race has no supported faction")
    else if count_if (λ (i : ItemQuantity). i.item_id == alliance) items == 0
    then err (problem 500 "PvP package is missing its faction trinket")
    else ok (map (swap_item alliance (if is_alliance_race race then alliance else horde)) items)

resolve_medallion : Option (ℕ × ℕ) → ℕ → List ItemQuantity → Result Problem (List ItemQuantity)
resolve_medallion none race items = err (problem 500 "Could not resolve faction PvP trinket")
resolve_medallion (some (alliance, horde)) race items = swap_medallion alliance horde race items

unfoldable pub faction_medallion :
    Option (ℕ × ℕ) → ℕ → Product → List ItemQuantity → Result Problem (List ItemQuantity)
unfolding resolve_medallion swap_medallion swap_item
faction_medallion medallions race p items =
    if text_eq p.tier (codes "S6") || text_eq p.tier (codes "S7")
    then resolve_medallion medallions race items
    else ok items

unfoldable pub faction_mounts : ℕ → Product → List ItemQuantity → Result Problem (List ItemQuantity)
faction_mounts race p items =
    if p.service_level == 80
    then or_problem (apply_starter_mount_faction items race)
        (problem 422 "character race has no supported faction")
    else ok items

-- The items of the order, each at most once. An error of the first read is ignored.
unfoldable pub order_items :
    Text
    → (List ItemQuantity → Bool)
    → Option (ℕ × ℕ)
    → ℕ
    → ℕ
    → Product
    → Exec State Problem (List ItemQuantity)
order_items realm enrich medallions race variant p = do
  own ← query_or [] (λ s. product_items_of p.id s.product_items)
  with_bundle ← add_bundle realm enrich p (or_single p own)
  chosen ← replace_by_variant variant with_bundle
  equipped ← lift (faction_medallion medallions race p chosen)
  mounted ← lift (faction_mounts race p equipped)
  pure (consolidate_bundle_items mounted)
