-- ===== src/Staff.antt =====
-- internal/web/delivery.go, `staffPermissionsFor`: what a staff member may do, by the level and the
-- configuration.
pub mod Grows
use azeroth_core_web.Base.{
  ℕ, ◌&&◌, ◌||◌, not, Bool, true, false, List, [], ◌∷◌, ◌++◌, Text, ◌==◌, if◌then◌else◌, to_upper,
}
use azeroth_core_web.Base.Int.{ℤ, pos, ltb_ℤ}

pub data Permission : Type 0 where
  support monitoring players moderation audit overview commerce content realm settings admin
        console :
      Permission

unfoldable pub index : Permission → ℕ
index Permission.support = 0
index Permission.monitoring = 1
index Permission.players = 2
index Permission.moderation = 3
index Permission.audit = 4
index Permission.overview = 5
index Permission.commerce = 6
index Permission.content = 7
index Permission.realm = 8
index Permission.settings = 9
index Permission.admin = 10
index Permission.console = 11

unfoldable pub has_permission : Permission → List Permission → Bool
has_permission p [] = false
has_permission p (q ∷ qs) = (index q == index p) || has_permission p qs

-- `add`: what is there already is not added again.
unfoldable pub add_permissions : List Permission → List Permission → List Permission
add_permissions permissions [] = permissions
add_permissions permissions (p ∷ ps) =
    let without = add_permissions permissions ps in
    let with_it = add_permissions (permissions ++ p ∷ []) ps in
    if has_permission p permissions then without else with_it

pub record StaffConfig : Type 0 where
  pub support_level : ℤ
  pub moderator_level : ℤ
  pub gm_level : ℤ
  pub console_enabled : Bool
  pub console_level : ℤ
  pub shop_manager : Text → Bool

add_if : Bool → List Permission → List Permission → List Permission
add_if b ps permissions = if b then add_permissions permissions ps else permissions

-- `int(level) >= limit`
abbrev pub reaches : ℕ → ℤ → Bool
reaches level limit = not (ltb_ℤ (pos level) limit)

-- The groups of permissions that a level or an entry in the configuration gives.
abbrev pub support_group : List Permission
support_group = Permission.support ∷ Permission.monitoring ∷ []

abbrev pub moderator_group : List Permission
moderator_group = Permission.players ∷ Permission.moderation ∷ Permission.audit ∷ []

abbrev pub gm_group : List Permission
gm_group =
    Permission.overview ∷ Permission.commerce ∷ Permission.content ∷ Permission.realm
    ∷ Permission.settings ∷ Permission.admin ∷ []

abbrev pub shop_group : List Permission
shop_group = Permission.commerce ∷ []

abbrev pub console_group : List Permission
console_group = Permission.console ∷ Permission.realm ∷ []

-- `staffPermissionsFor`
unfoldable pub staff_permissions_for : StaffConfig → ℕ → Text → List Permission
unfolding add_if
staff_permissions_for c level username =
    let supporting = add_if (reaches level c.support_level) support_group [] in
    let moderating = add_if (reaches level c.moderator_level) moderator_group supporting in
    let mastering = add_if (reaches level c.gm_level) gm_group moderating in
    let selling = add_if (c.shop_manager (to_upper username)) shop_group mastering in
    add_if (c.console_enabled && reaches level c.console_level) console_group selling
