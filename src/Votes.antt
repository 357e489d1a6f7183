-- ===== src/Votes.antt =====
-- internal/web/votes.go, `consecutiveVoteDays`: the days on which an account voted, newest first, as
-- numbers of days. Go's calendar arithmetic on midnights in UTC is arithmetic on these numbers; the
-- day before day 0 is not reached.
pub mod Streak
pub mod Callback
pub mod Once
pub mod Cooldown
use azeroth_core_web.Base.{ℕ, suc, ◌+◌, ◌-◌, ◌%◌, Bool, List, [], ◌∷◌, ◌==◌, ltb, if◌then◌else◌}
use azeroth_core_web.Base.Words.{u32_mod}

-- The loop: `expected` is the next day of the streak, one more than it here, so that it may run out.
unfoldable pub streak_from : ℕ → ℕ → List ℕ → ℕ
streak_from streak expected [] = streak
streak_from streak expected (day ∷ days) =
    let counted = streak_from ((streak + 1) % u32_mod) (expected - 1) days in
    let skipped = streak_from streak expected days in
    if suc day == expected then counted else if ltb (suc day) expected then streak else skipped

-- `consecutiveVoteDays`
unfoldable pub consecutive_vote_days : List ℕ → ℕ → ℕ
consecutive_vote_days [] today = 0
consecutive_vote_days (latest ∷ days) today =
    if ltb (latest + 1) today then 0 else streak_from 0 (suc latest) (latest ∷ days)
