-- ===== src/Shop/Items.antt =====
-- The items of an order: `consolidateBundleItems` of internal/web/merchandising.go, and the choice by
-- faction of internal/web/server.go.
pub mod Laws
use azeroth_core_web.Base.{
  ℕ, ◌+◌, ◌%◌, ◌&&◌, ◌||◌, not, Bool, true, false, Option, none, some, List, [], ◌∷◌, ◌++◌, ◌==◌,
  if◌then◌else◌, map, find_if, update_if,
}
use azeroth_core_web.Base.Words.{u32_mod}
use azeroth_core_web.Tables.{ItemQuantity}

-- isAllianceRace, isHordeRace
unfoldable pub is_alliance_race : ℕ → Bool
is_alliance_race race = (race == 1) || (race == 3) || (race == 4) || (race == 7) || (race == 11)

unfoldable pub is_horde_race : ℕ → Bool
is_horde_race race = (race == 2) || (race == 5) || (race == 6) || (race == 8) || (race == 10)

-- allianceGroundMountItem and its three kin
abbrev pub alliance_ground_mount : ℕ
alliance_ground_mount = 18777

abbrev pub horde_ground_mount : ℕ
horde_ground_mount = 18796

abbrev pub alliance_flying_mount : ℕ
alliance_flying_mount = 25528

abbrev pub horde_flying_mount : ℕ
horde_flying_mount = 25533

unfoldable pub horde_mount : ItemQuantity → ItemQuantity
horde_mount item =
    if item.item_id == alliance_ground_mount
    then record item { item_id = horde_ground_mount }
    else if item.item_id == alliance_flying_mount
    then record item { item_id = horde_flying_mount }
    else item

-- `applyStarterMountFaction`; `none` is the unsupported race.
unfoldable pub apply_starter_mount_faction : List ItemQuantity → ℕ → Option (List ItemQuantity)
apply_starter_mount_faction items race =
    if not (is_alliance_race race) && not (is_horde_race race)
    then none
    else if is_alliance_race race
    then some items
    else some (map horde_mount items)

abbrev pub of_item : ℕ → ItemQuantity → Bool
of_item id item = item.item_id == id

-- The body of the loop: a known item's quantity grows, in uint32, and a new one goes to the end.
unfoldable pub add_item : ItemQuantity → List ItemQuantity → List ItemQuantity
add_item item out = elim (find_if (of_item item.item_id) out) [
  | none ↦ out ++ item ∷ []
  | some _ ↦
      update_if (of_item item.item_id)
        (λ known. record known { quantity = (known.quantity + item.quantity) % u32_mod }) out
]

unfoldable pub consolidate_from : List ItemQuantity → List ItemQuantity → List ItemQuantity
consolidate_from out [] = out
consolidate_from out (item ∷ items) = consolidate_from (add_item item out) items

-- `consolidateBundleItems`
unfoldable pub consolidate_bundle_items : List ItemQuantity → List ItemQuantity
unfolding consolidate_from
consolidate_bundle_items items = consolidate_from [] items
