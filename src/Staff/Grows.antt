-- ===== src/Staff/Grows.antt =====
-- internal/web/delivery.go, `staffPermissionsFor`: a higher level takes nothing away.
use azeroth_core_web.Base.{
  ℕ, ◌≤◌, ◌≡◌, refl, ◌&&◌, ◌||◌, Bool, true, List, [], ◌∷◌, ◌++◌, Text, ◌==◌, to_upper, arith,
  ==→eq,
}
use azeroth_core_web.Base.Int.{ℤ}
use azeroth_core_web.Staff.{
  Permission, index, has_permission, add_permissions, add_if, StaffConfig, reaches,
  staff_permissions_for, support_group, moderator_group, gm_group, shop_group, console_group,
}

has_permission-append_one :
    (p q : Permission) (ps : List Permission)
    → has_permission p (ps ++ q ∷ []) ≡ (has_permission p ps || (index q == index p))
unfolding has_permission
has_permission-append_one p q [] = ground arith
has_permission-append_one p q (x ∷ ps) = ground (arith, has_permission-append_one p q ps)

has_permission-same :
    (p q : Permission) (ps : List Permission)
    → (index q == index p) ≡ true
    → has_permission p ps ≡ has_permission q ps
unfolding has_permission
has_permission-same p q [] h = refl
has_permission-same p q (x ∷ ps) h =
    ground (arith, has_permission-same p q ps, ==→eq (index q) (index p))

-- What is added is there, and nothing is lost.
has_permission-add :
    (p : Permission) (old new : List Permission)
    → has_permission p (add_permissions old new) ≡ (has_permission p old || has_permission p new)
unfolding has_permission add_permissions
has_permission-add p old [] = ground arith
has_permission-add p old (q ∷ new) = ground (
  arith,
  has_permission-add p old new,
  has_permission-add p (old ++ q ∷ []) new,
  has_permission-append_one p q old,
  has_permission-same p q old,
)

has_permission-add_if :
    (p : Permission) (b : Bool) (new old : List Permission)
    → has_permission p (add_if b new old) ≡ (has_permission p old || (b && has_permission p new))
unfolding add_if
has_permission-add_if p b new old = ground (arith, has_permission-add p old new)

reaches_more :
    (low high : ℕ) (limit : ℤ) → low ≤ high → reaches low limit ≡ true → reaches high limit ≡ true
reaches_more low high limit h r = ground arith

-- What the permissions are made of: five groups, each with its condition.
has_permission-groups :
    (c : StaffConfig) (level : ℕ) (username : Text) (p : Permission)
    → has_permission p (staff_permissions_for c level username) ≡ (
        ((((has_permission p []
                || (reaches level c.support_level && has_permission p support_group))
              || (reaches level c.moderator_level && has_permission p moderator_group))
            || (reaches level c.gm_level && has_permission p gm_group))
          || (c.shop_manager (to_upper username) && has_permission p shop_group))
        || ((c.console_enabled && reaches level c.console_level) && has_permission p console_group))
unfolding staff_permissions_for
has_permission-groups c level username p =
    rw
      (
        has_permission-add_if p (c.console_enabled && reaches level c.console_level),
        has_permission-add_if p (c.shop_manager (to_upper username)),
        has_permission-add_if p (reaches level c.gm_level),
        has_permission-add_if p (reaches level c.moderator_level),
        has_permission-add_if p (reaches level c.support_level),
      )
      refl

group_grows :
    (old old' b b' v : Bool)
    → (old ≡ true → old' ≡ true)
    → (b ≡ true → b' ≡ true)
    → (old || (b && v)) ≡ true
    → (old' || (b' && v)) ≡ true
group_grows old old' b b' v f g h = ground arith

console_grows :
    (c : StaffConfig) (low high : ℕ)
    → low ≤ high
    → (c.console_enabled && reaches low c.console_level) ≡ true
    → (c.console_enabled && reaches high c.console_level) ≡ true
console_grows c low high h r = ground arith

-- Whatever a level permits, a higher level permits to the same user.
pub staff_permissions_for-grows :
    (c : StaffConfig) (low high : ℕ) (username : Text) (p : Permission)
    → low ≤ high
    → has_permission p (staff_permissions_for c low username) ≡ true
    → has_permission p (staff_permissions_for c high username) ≡ true
staff_permissions_for-grows c low high username p h permitted =
    let with_support =
      group_grows _ _ _ _ (has_permission p support_group) (λ e. e)
        (reaches_more low high c.support_level h) in
    let with_moderator =
      group_grows _ _ _ _ (has_permission p moderator_group) with_support
        (reaches_more low high c.moderator_level h) in
    let with_gm =
      group_grows _ _ _ _ (has_permission p gm_group) with_moderator
        (reaches_more low high c.gm_level h) in
    let manager = c.shop_manager (to_upper username) in
    let with_shop =
      group_grows _ _ manager manager (has_permission p shop_group) with_gm (λ e. e) in
    rw (has_permission-groups c high username p) (
      group_grows _ _ _ _ (has_permission p console_group) with_shop (console_grows c low high h)
        (rw (has_permission-groups c low username p) at permitted))
