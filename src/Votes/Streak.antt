-- ===== src/Votes/Streak.antt =====
-- internal/web/votes.go, `consecutiveVoteDays`: what a streak counts.
use azeroth_core_web.Base.{
  ℕ, zero, suc, ◌∙◌, ◌+◌, ◌-◌, ◌%◌, ◌≤◌, ◌<◌, ◌≡◌, refl, true, List, [], ◌∷◌, ◌++◌, ◌==◌, arith,
  leb, if◌then◌else◌, inl, inr, ◌⊎◌,
}
use azeroth_core_web.Base.Words.{u32_mod}
use azeroth_core_web.Votes.{streak_from, consecutive_vote_days}

-- The n days that end on a day.
abbrev pub run_back : ℕ → ℕ → List ℕ
run_back zero day = []
run_back (suc n) day = day ∷ run_back n (day - 1)

-- Every day of a list is before a day.
abbrev pub AllBefore : ℕ → List ℕ → Type 0
AllBefore day [] = Unit
AllBefore day (d ∷ days) = (d < day) × AllBefore day days

streak_ends :
    (streak expected b : ℕ) (days : List ℕ)
    → b + 1 ≤ expected + 1
    → (b + 1 ≡ expected) ⊎ (b ≡ 0)
    → AllBefore b days
    → streak_from streak expected days ≡ streak
unfolding streak_from
streak_ends streak expected b [] fits at before = refl
streak_ends streak expected b (d ∷ days) fits at before = ground (arith, before.0)

pred_eq : (day : ℕ) → suc day - 1 ≡ day
pred_eq day = omega arith

first_counts :
    (streak day : ℕ) (rest : List ℕ)
    → streak + 1 < u32_mod
    → streak_from streak (suc day) (day ∷ rest) ≡ streak_from (streak + 1) day rest
unfolding streak_from
first_counts streak day rest fits =
    let whole : (streak + 1) % u32_mod ≡ streak + 1 = omega (arith, fits) in
    let same : (suc day == suc day) ≡ true = ground arith in rw (same, whole, pred_eq day) refl

streak_from-run :
    (n streak day b : ℕ) (days : List ℕ)
    → n ≤ day + 1
    → streak + n < u32_mod
    → b ≡ day - n
    → AllBefore b days
    → streak_from streak (suc day) (run_back n day ++ days) ≡ streak + n
streak_from-run zero streak day b days h fits at before =
    streak_ends streak (suc day) b days (omega (arith, at)) (inl (omega (arith, at))) before
    ∙ omega arith
streak_from-run (suc n) streak zero b days h fits at before =
    let none_left : n ≡ 0 = omega (arith, h) in
    rw none_left (
      first_counts streak 0 days (omega (arith, fits))
      ∙ streak_ends (streak + 1) 0 b days (omega (arith, at)) (inr (omega (arith, at))) before)
streak_from-run (suc n) streak (suc day) b days h fits at before = rw (pred_eq day) (
    first_counts streak (suc day) (run_back n day ++ days) (omega (arith, fits))
    ∙ (streak_from-run n (streak + 1) day b days (omega (arith, h)) (omega (arith, fits))
          (omega (arith, at)) before
        ∙ omega arith))

-- A streak counts the days up to the first gap, if it is not over: for a list of n days in a row, of
-- n below 2^32, with only days behind them that are before the day before the first of them, it is n
-- if the last of the n days is yesterday or later, and else 0.
pub consecutive_vote_days-run :
    (n day today : ℕ) (days : List ℕ)
    → 1 ≤ n
    → n ≤ day + 1
    → n < u32_mod
    → AllBefore (day - n) days
    → consecutive_vote_days (run_back n day ++ days) today ≡ (if leb today (day + 1) then n else 0)
unfolding consecutive_vote_days
consecutive_vote_days-run zero day today days some_days h fits before =
    absurd (omega (arith, some_days))
consecutive_vote_days-run (suc n) day today days some_days h fits before =
    let counted =
      streak_from-run (suc n) 0 day (day - suc n) days h (omega (arith, fits)) refl before in
    ground (arith, counted)
