-- ===== src/Tests/Site.antt =====
-- Permissions of a shop manager, and the last page of a short list.
use Prim.Native.Nat.{min}
use azeroth_core_web.Base.{
  ℕ, ◌-◌, ◌*◌, ◌≤◌, ◌≡◌, refl, true, none, some, ◌++◌, codes, find_if, keep_if, text_eq, List, [],
  ◌∷◌, leb, if◌then◌else◌, length, take, drop, arith, ◌+◌,
}
use azeroth_core_web.Base.Int.{pos}
use azeroth_core_web.Staff.{
  StaffConfig, Permission, index, has_permission, add_permissions, staff_permissions_for,
}
use azeroth_core_web.Staff.Grows.{staff_permissions_for-grows}
use azeroth_core_web.Limiter.{
  Limiter, rate, sweep, sweep_hits, admit, hits_of, set_hits, is_fresh, minute,
}
use azeroth_core_web.Limiter.Sweep.{IsMap, fresh_hits}
use azeroth_core_web.Limiter.Window.{WithinLimit, rate-WithinLimit}
use azeroth_core_web.Votes.{consecutive_vote_days}
use azeroth_core_web.Votes.Streak.{run_back, consecutive_vote_days-run}
use azeroth_core_web.Pages.{slice_page}
use azeroth_core_web.Pages.Slices.{page_count, slice_page_exact}

abbrev config : StaffConfig
config = record {
  support_level = pos 1;
  moderator_level = pos 2;
  gm_level = pos 3;
  console_enabled = true;
  console_level = pos 3;
  shop_manager = λ username. true;
}

moderator_may_audit : has_permission Permission.audit (staff_permissions_for config 2 []) ≡ true
unfolding has_permission index add_permissions staff_permissions_for
moderator_may_audit = refl

staff_permissions_for-grows_example :
    has_permission Permission.audit (staff_permissions_for config 3 []) ≡ true
staff_permissions_for-grows_example =
    staff_permissions_for-grows config 2 3 [] Permission.audit (omega arith) moderator_may_audit

abbrev five : List ℕ
five = 10 ∷ 20 ∷ 30 ∷ 40 ∷ 50 ∷ []

slice_page_exact_example :
    let (slice, meta) = slice_page five 9 2 in
    let start = (meta.page - 1) * 2 in
    (meta.page ≡ min 9 (page_count (length five) 2))
    × (slice ≡ some (take 2 (drop start five)))
    × (1 ≤ length (take 2 (drop start five)))
    × (length (take 2 (drop start five)) ≤ 2)
slice_page_exact_example =
    slice_page_exact five 9 2 (omega arith) (omega arith) (omega arith) (omega arith)

abbrev limiter : Limiter
limiter = record { hits = record { key = codes "a:/b"; times = 1000 ∷ [] } ∷ []; last_sweep = none }

second_admitted : (rate 2 minute (codes "a:/b") 2000 limiter).0 ≡ true
unfolding rate sweep sweep_hits admit hits_of set_hits is_fresh find_if keep_if text_eq
second_admitted = refl

limiter-IsMap : IsMap limiter.hits
unfolding find_if
limiter-IsMap = (refl, tt)

rate-WithinLimit_example :
    let after = (rate 2 minute (codes "a:/b") 2000 limiter).1 in
    let fresh = fresh_hits minute 2000 (codes "a:/b") limiter in
    (hits_of (codes "a:/b") after.hits ≡ fresh ++ 2000 ∷ [])
    × (length fresh + 1 ≤ 2)
    × WithinLimit (codes "a:/b") 2 after.hits
    × IsMap after.hits
rate-WithinLimit_example =
    rate-WithinLimit 2 minute (codes "a:/b") 2000 limiter (omega arith) limiter-IsMap
      (λ _. omega arith, tt) second_admitted

-- Three days up to yesterday, and one more before a gap.
consecutive_vote_days-run_example :
    consecutive_vote_days (run_back 3 100 ++ 96 ∷ []) 101 ≡ (if leb 101 (100 + 1) then 3 else 0)
consecutive_vote_days-run_example =
    consecutive_vote_days-run 3 100 101 (96 ∷ []) (omega arith) (omega arith) (omega arith)
      (omega arith, tt)
