-- ===== src/Votes/Cooldown.antt =====
-- internal/web/votes.go: the two ways in which the cooldown of a vote site is asked for.
use azeroth_core_web.Base.{ℕ, ◌≡◌, refl, List, [], ◌∷◌, ltb, arith, count_if}
use azeroth_core_web.Tables.{VoteEvent}
use azeroth_core_web.Votes.Callback.{last_vote, is_cooling, recent_of}

-- The cooldown that `visitVoteSite` shows, from the newest vote of the account, is the one that
-- `voteSiteCallback` enforces, from the number of its votes within the cooldown.
pub is_cooling-last_vote :
    (site account cooldown now : ℕ) (votes : List VoteEvent)
    → is_cooling (last_vote site account votes) cooldown now
      ≡ ltb 0 (count_if (recent_of site account cooldown now) votes)
unfolding is_cooling last_vote count_if
is_cooling-last_vote site account cooldown now [] = refl
is_cooling-last_vote site account cooldown now (v ∷ votes) =
    ground (arith, is_cooling-last_vote site account cooldown now votes)
