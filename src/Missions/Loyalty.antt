-- ===== src/Missions/Loyalty.antt =====
-- internal/web/reward_progress.go, `loyaltyForPoints`: the level of loyalty that an account's points
-- give, and the way to the next one.
use azeroth_core_web.Base.{
  ℕ, ◌+◌, ◌-◌, ◌%◌, ◌≤◌, ◌<◌, ◌≡◌, get_elem?, count_if, true, false, Bool-cases, inl, inr, refl,
  Option, none, some, List, [], ◌∷◌, Text, leb, if◌then◌else◌, codes, arith,
}
use azeroth_core_web.Base.Words.{u32_mod}

pub record Level : Type 0 where
  pub name : Text
  pub description : Text
  pub floor : ℕ

-- A level's name, how many points it begins with, and its description.
abbrev initiate : Level
initiate = record {
  name = codes "Initiate";
  description = codes "Your journey with the realm has begun.";
  floor = 0;
}

abbrev pub levels : List Level
levels =
    initiate
    ∷ record {
      name = codes "Adventurer";
      description = codes "A regular member of the realm community.";
      floor = 30;
    }
    ∷ record {
      name = codes "Veteran";
      description = codes "A proven and active member of the realm.";
      floor = 100;
    }
    ∷ record {
      name = codes "Champion";
      description = codes "A long-standing contributor to the community.";
      floor = 250;
    }
    ∷ record {
      name = codes "Legend";
      description = codes "Among the realm's most loyal players.";
      floor = 500;
    }
    ∷ []

pub record LoyaltyLevel : Type 0 where
  pub name : Text
  pub points : ℕ
  pub floor : ℕ
  pub description : Text
  pub next_name : Text
  pub next_floor : ℕ
  pub remaining : ℕ

abbrev head? : List Level → Option Level
head? [] = none
head? (l ∷ ls) = some l

-- The loop: the level so far and the one after it.
unfoldable pub level_loop : ℕ → Level → Option Level → List Level → Level × Option Level
level_loop points current next [] = (current, next)
level_loop points current next (l ∷ ls) =
    let reached = level_loop points l (head? ls) ls in
    let missed = level_loop points current next ls in if leb l.floor points then reached else missed

abbrev shown : ℕ → Level × Option Level → LoyaltyLevel
shown points (current, none) = record {
  name = current.name;
  points = points;
  floor = current.floor;
  description = current.description;
  next_name = [];
  next_floor = 0;
  remaining = 0;
}
shown points (current, some next) = record {
  name = current.name;
  points = points;
  floor = current.floor;
  description = current.description;
  next_name = next.name;
  next_floor = next.floor;
  remaining = (next.floor + (u32_mod - points)) % u32_mod;
}

-- `loyaltyForPoints`
unfoldable pub loyalty_for_points : ℕ → LoyaltyLevel
unfolding level_loop
loyalty_for_points points = shown points (level_loop points initiate none levels)

-- How many levels the points reach: the levels stand in the order of their floors.
abbrev pub reached : ℕ → ℕ
reached points = count_if (λ l. leb l.floor points) levels

-- What is shown of the next level, where there is one.
abbrev pub IsNext : LoyaltyLevel → Option Level → Type 0
IsNext l none = (l.next_name ≡ []) × (l.next_floor ≡ 0) × (l.remaining ≡ 0)
IsNext l (some next) =
    (l.next_name ≡ next.name)
    × (l.next_floor ≡ next.floor)
    × (l.points < next.floor)
    × (l.remaining + l.points ≡ next.floor)

missed : (a b points : ℕ) → leb a points ≡ false → leb a b ≡ true → leb b points ≡ false
missed a b points low above = ground (arith, low, above)

-- The level of an account is the last one whose floor its points reach, with that level's name,
-- description and floor; shown as the next level is the one right behind it, whose floor the points
-- fall short of by exactly the points that are shown as remaining; behind the last level nothing is
-- shown.
pub loyalty_for_points_exact :
    (points : ℕ)
    → let l = loyalty_for_points points in
      (l.points ≡ points)
      × (get_elem? levels (reached points - 1)
          ≡ some record { name = l.name; description = l.description; floor = l.floor })
      × (l.floor ≤ points)
      × IsNext l (get_elem? levels (reached points))
unfolding loyalty_for_points level_loop count_if
loyalty_for_points_exact points =
    let zero_reached : leb 0 points ≡ true = ground arith in
    elim (Bool-cases (leb 30 points)) [
      | inr low ↦
          rw
            (
              zero_reached,
              low,
              missed 30 100 points low refl,
              missed 30 250 points low refl,
              missed 30 500 points low refl,
            )
            (refl, refl, omega arith, (refl, refl, ground (arith, low), ground (arith, low)))
      | inl first ↦ elim (Bool-cases (leb 100 points)) [
        | inr low ↦
            rw
              (
                zero_reached,
                first,
                low,
                missed 100 250 points low refl,
                missed 100 500 points low refl,
              )
              (
                refl,
                refl,
                ground (arith, first),
                (refl, refl, ground (arith, low), ground (arith, low)),
              )
        | inl second ↦ elim (Bool-cases (leb 250 points)) [
          | inr low ↦
              rw (zero_reached, first, second, low, missed 250 500 points low refl)
                (
                  refl,
                  refl,
                  ground (arith, second),
                  (refl, refl, ground (arith, low), ground (arith, low)),
                )
          | inl third ↦ elim (Bool-cases (leb 500 points)) [
            | inr low ↦
                rw (zero_reached, first, second, third, low)
                  (
                    refl,
                    refl,
                    ground (arith, third),
                    (refl, refl, ground (arith, low), ground (arith, low)),
                  )
            | inl fourth ↦
                rw (zero_reached, first, second, third, fourth)
                  (refl, refl, ground (arith, fourth), (refl, refl, refl))
          ]
        ]
      ]
    ]
