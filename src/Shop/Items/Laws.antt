-- ===== src/Shop/Items/Laws.antt =====
-- Consolidation keeps the quantity of every item, in uint32, and lists no item twice.
use azeroth_core_web.Base.{
  ℕ, ◌+◌, ◌%◌, ◌≡◌, refl, false, none, some, List, [], ◌∷◌, ◌++◌, ◌==◌, if◌then◌else◌, arith,
  find_if, update_if, inl, inr, Option-cases, Bool-cases, ==→eq,
}
use azeroth_core_web.Base.Words.{u32_mod}
use azeroth_core_web.Tables.{ItemQuantity}
use azeroth_core_web.Shop.Items.{of_item, add_item, consolidate_from, consolidate_bundle_items}

-- How much of an item a list holds.
abbrev pub quantity_of : ℕ → List ItemQuantity → ℕ
quantity_of id [] = 0
quantity_of id (item ∷ items) =
    if item.item_id == id then item.quantity + quantity_of id items else quantity_of id items

-- No item stands twice.
abbrev pub IsDistinct : List ItemQuantity → Type 0
IsDistinct [] = Unit
IsDistinct (item ∷ items) = (find_if (of_item item.item_id) items ≡ none) × IsDistinct items

abbrev grow : ℕ → ItemQuantity → ItemQuantity
grow n known = record known { quantity = (known.quantity + n) % u32_mod }

find_if-update :
    (id j n : ℕ) (items : List ItemQuantity)
    → find_if (of_item j) items ≡ none
    → find_if (of_item j) (update_if (of_item id) (grow n) items) ≡ none
unfolding find_if update_if
find_if-update id j n [] h = refl
find_if-update id j n (item ∷ items) h = ground (arith, find_if-update id j n items)

find_if-append :
    (j : ℕ) (item : ItemQuantity) (items : List ItemQuantity)
    → find_if (of_item j) items ≡ none
    → (item.item_id == j) ≡ false
    → find_if (of_item j) (items ++ item ∷ []) ≡ none
unfolding find_if
find_if-append j item [] h e = ground arith
find_if-append j item (x ∷ items) h e = ground (arith, find_if-append j item items)

update-IsDistinct :
    (id n : ℕ) (items : List ItemQuantity)
    → IsDistinct items
    → IsDistinct (update_if (of_item id) (grow n) items)
unfolding update_if
update-IsDistinct id n [] d = tt
update-IsDistinct id n (item ∷ items) d =
    ground (arith, update-IsDistinct id n items d.1, find_if-update id item.item_id n items)

append-IsDistinct :
    (item : ItemQuantity) (items : List ItemQuantity)
    → IsDistinct items
    → find_if (of_item item.item_id) items ≡ none
    → IsDistinct (items ++ item ∷ [])
unfolding find_if
append-IsDistinct item [] d e = ground arith
append-IsDistinct item (x ∷ items) d e =
    ground (arith, append-IsDistinct item items d.1, find_if-append x.item_id item items)

quantity_of-append :
    (id : ℕ) (item : ItemQuantity) (items : List ItemQuantity)
    → quantity_of id (items ++ item ∷ []) ≡ quantity_of id items + quantity_of id (item ∷ [])
quantity_of-append id item [] = ground arith
quantity_of-append id item (x ∷ items) = ground (arith, quantity_of-append id item items)

absent_update :
    (id n : ℕ) (items : List ItemQuantity)
    → find_if (of_item id) items ≡ none
    → update_if (of_item id) (grow n) items ≡ items
unfolding find_if update_if
absent_update id n [] h = refl
absent_update id n (item ∷ items) h = ground (arith, absent_update id n items)

quantity_of-update_self :
    (id n : ℕ) (items : List ItemQuantity) (found : ItemQuantity)
    → IsDistinct items
    → find_if (of_item id) items ≡ some found
    → quantity_of id (update_if (of_item id) (grow n) items) % u32_mod
      ≡ (quantity_of id items + n) % u32_mod
unfolding find_if update_if
quantity_of-update_self id n [] found d h = cc
quantity_of-update_self id n (item ∷ items) found d h = elim (Bool-cases (item.item_id == id)) [
  | inl here ↦
      let same : item.item_id ≡ id = ==→eq item.item_id id here in
      let absent : update_if (of_item id) (grow n) items ≡ items =
        absent_update id n items (rw same at d.0) in
      ground (arith, here, absent)
  | inr there ↦
      let rest = quantity_of-update_self id n items found d.1 (rw there at h) in
      ground (arith, there, rest)
]

quantity_of-update_other :
    (id j n : ℕ) (items : List ItemQuantity)
    → (id == j) ≡ false
    → quantity_of j (update_if (of_item id) (grow n) items) ≡ quantity_of j items
unfolding update_if
quantity_of-update_other id j n [] h = refl
quantity_of-update_other id j n (item ∷ items) h =
    ground (arith, quantity_of-update_other id j n items h)

-- One round keeps distinct items distinct, and adds the item's quantity in uint32.
add_item_laws :
    (item : ItemQuantity) (out : List ItemQuantity)
    → IsDistinct out
    → IsDistinct (add_item item out)
      × ((j : ℕ)
          → quantity_of j (add_item item out) % u32_mod
            ≡ (quantity_of j out + quantity_of j (item ∷ [])) % u32_mod)
unfolding add_item
add_item_laws item out d = elim (Option-cases (find_if (of_item item.item_id) out)) [
  | inl new ↦
      rw (new, add_item) (append-IsDistinct item out d new, λ j. rw (quantity_of-append j item out))
  | inr (known, e) ↦
      rw (e, add_item)
        (
          update-IsDistinct item.item_id item.quantity out d,
          λ j. elim (Bool-cases (item.item_id == j)) [
            | inl here ↦
                let same : item.item_id ≡ j = ==→eq item.item_id j here in
                ground (
                  arith,
                  here,
                  same,
                  e,
                  quantity_of-update_self item.item_id item.quantity out known d e,
                )
            | inr there ↦
                ground
                  (arith, there, quantity_of-update_other item.item_id j item.quantity out there)
          ],
        )
]

consolidate_from_laws :
    (out items : List ItemQuantity)
    → IsDistinct out
    → IsDistinct (consolidate_from out items)
      × ((j : ℕ)
          → quantity_of j (consolidate_from out items) % u32_mod
            ≡ (quantity_of j out + quantity_of j items) % u32_mod)
unfolding consolidate_from
consolidate_from_laws out [] d = (d, λ j. omega arith)
consolidate_from_laws out (item ∷ items) d =
    let (d', q) = add_item_laws item out d in
    let (d'', q') = consolidate_from_laws (add_item item out) items d' in
    (d'', λ j. ground (arith, q j, q' j))

-- Consolidation lists no item twice and keeps every item's total quantity, in uint32; in particular
-- it keeps the total itself where that is below 2^32.
pub consolidate_exact :
    (items : List ItemQuantity)
    → IsDistinct (consolidate_bundle_items items)
      × ((j : ℕ)
          → quantity_of j (consolidate_bundle_items items) % u32_mod
            ≡ quantity_of j items % u32_mod)
unfolding consolidate_bundle_items
consolidate_exact items =
    let (d, q) = consolidate_from_laws [] items tt in (d, λ j. omega (arith, q j))
