-- ===== src/Limiter/Window.antt =====
-- internal/web/server.go, `rate`: the requests that one client gets through in a window.
use azeroth_core_web.Base.{
  ℕ, ◌+◌, ◌*◌, ◌≤◌, ◌<◌, ◌≡◌, refl, ◌&&◌, Bool, true, false, List, [], ◌∷◌, ◌++◌, Text, text_eq,
  text_eq_refl, arith, ltb, if◌then◌else◌, length, drop, keep_if, find_if, length-append,
  length-keep_if, length-drop, Bool-cases, inl, inr, ap, ◌∙◌,
}
use azeroth_core_web.Limiter.Sweep.{
  IsMap, fresh_hits, set_hits-IsMap, sweep-IsMap, fresh_hits-sweep,
}
use azeroth_core_web.Limiter.{
  Hits, Limiter, is_fresh, hits_of, set_hits, admit, sweep, sweep_hits, swept, is_due, rate, minute,
}

-- What is recorded under a key has at most `max` times.
abbrev pub WithinLimit : Text → ℕ → List Hits → Type 0
WithinLimit key max [] = Unit
WithinLimit key max (h ∷ hits) =
    (text_eq h.key key ≡ true → length h.times ≤ max) × WithinLimit key max hits

hits_of-WithinLimit :
    (key : Text) (max : ℕ) (hits : List Hits)
    → WithinLimit key max hits
    → length (hits_of key hits) ≤ max
unfolding hits_of find_if
hits_of-WithinLimit key max [] w = omega arith
hits_of-WithinLimit key max (h ∷ hits) w = elim (Bool-cases (text_eq h.key key)) [
  | inl here ↦ ground (arith, here, w.0 here)
  | inr there ↦ ground (arith, there, hits_of-WithinLimit key max hits w.1)
]

swept-WithinLimit :
    (key : Text) (max : ℕ) (h : Hits) (times : List ℕ) (rest : List Hits)
    → (text_eq h.key key ≡ true → length times ≤ max)
    → WithinLimit key max rest
    → WithinLimit key max (swept h times rest)
unfolding swept
swept-WithinLimit key max h [] rest few w = w
swept-WithinLimit key max h (t ∷ times) rest few w = (few, w)

sweep_hits-WithinLimit :
    (key : Text) (max now : ℕ) (hits : List Hits)
    → WithinLimit key max hits
    → WithinLimit key max (sweep_hits now hits)
unfolding sweep_hits
sweep_hits-WithinLimit key max now [] w = tt
sweep_hits-WithinLimit key max now (h ∷ hits) w =
    swept-WithinLimit key max h (keep_if (is_fresh (60 * minute) now) h.times) (sweep_hits now hits)
      (λ here. omega (arith, length-keep_if (is_fresh (60 * minute) now) h.times, w.0 here))
      (sweep_hits-WithinLimit key max now hits w.1)

sweep-WithinLimit :
    (key : Text) (max now : ℕ) (l : Limiter)
    → WithinLimit key max l.hits
    → WithinLimit key max (sweep now l).hits
unfolding sweep
sweep-WithinLimit key max now l w = elim (Bool-cases (is_due now l.last_sweep)) [
  | inl due ↦ rw due (sweep_hits-WithinLimit key max now l.hits w)
  | inr early ↦ rw early w
]

set_hits-WithinLimit :
    (key : Text) (max : ℕ) (times : List ℕ) (hits : List Hits)
    → length times ≤ max
    → WithinLimit key max hits
    → WithinLimit key max (set_hits key times hits)
unfolding set_hits
set_hits-WithinLimit key max times [] few w = (λ _. few, tt)
set_hits-WithinLimit key max times (h ∷ hits) few w = elim (Bool-cases (text_eq h.key key)) [
  | inl here ↦ rw here (λ _. few, w.1)
  | inr there ↦ rw there (w.0, set_hits-WithinLimit key max times hits few w.1)
]

hits_of-set_hits :
    (key : Text) (times : List ℕ) (hits : List Hits) → hits_of key (set_hits key times hits) ≡ times
unfolding set_hits hits_of find_if
hits_of-set_hits key times [] = ground (arith, text_eq_refl key)
hits_of-set_hits key times (h ∷ hits) = ground (arith, hits_of-set_hits key times hits)

-- The outcome of a request under the lock.
Admitted : ℕ → ℕ → Text → ℕ → List Hits → Bool × List Hits → Type 0
Admitted max window key now hits (allowed, after) =
    WithinLimit key max after
    × IsMap after
    × (allowed ≡ true
        → hits_of key after ≡ keep_if (is_fresh window now) (hits_of key hits) ++ now ∷ [])

decided-Admitted :
    (max window : ℕ) (key : Text) (now : ℕ) (hits : List Hits) (allowed known : Bool)
    → WithinLimit key max hits
    → IsMap hits
    → let keep = keep_if (is_fresh window now) (hits_of key hits) in
      (allowed ≡ true → length keep < max)
      → Admitted max window key now hits (
          if allowed
          then (true, set_hits key (keep ++ now ∷ []) hits)
          else if known
          then (false, set_hits key (keep ++ drop (length keep) (hits_of key hits)) hits)
          else (false, hits))
unfolding Admitted
decided-Admitted max window key now hits true known w m room =
    let keep = keep_if (is_fresh window now) (hits_of key hits) in
    (
      set_hits-WithinLimit key max (keep ++ now ∷ []) hits
          (omega (arith, length-append keep (now ∷ []), room refl)) w,
      set_hits-IsMap key (keep ++ now ∷ []) hits m,
      λ _. hits_of-set_hits key (keep ++ now ∷ []) hits,
    )
decided-Admitted max window key now hits false true w m room =
    let old = hits_of key hits in
    let keep = keep_if (is_fresh window now) old in
    (
      set_hits-WithinLimit key max (keep ++ drop (length keep) old) hits
          (omega (
            arith,
            length-append keep (drop (length keep) old),
            length-drop (length keep) old,
            length-keep_if (is_fresh window now) old,
            hits_of-WithinLimit key max hits w,
          ))
          w,
      set_hits-IsMap key (keep ++ drop (length keep) old) hits m,
      λ e. cc,
    )
decided-Admitted max window key now hits false false w m room = (w, m, λ e. cc)

has_room : (kept max : ℕ) (other : Bool) → (ltb kept max && other) ≡ true → kept < max
has_room kept max other h = ground arith

admit-Admitted :
    (max window : ℕ) (key : Text) (now : ℕ) (hits : List Hits)
    → WithinLimit key max hits
    → IsMap hits
    → Admitted max window key now hits (admit max window key now hits)
unfolding admit
admit-Admitted max window key now hits w m =
    decided-Admitted max window key now hits _ _ w m
      (has_room (length (keep_if (is_fresh window now) (hits_of key hits))) max _)

-- A request that is let through keeps the bound, for a window of at most an hour: if no key had two
-- entries and there were no more than `max` recorded requests under its key, then it is recorded
-- behind all of them that are still in the window, with it there are at most `max` of these, no more
-- than `max` are recorded and no key has two entries.
pub rate-WithinLimit :
    (max window : ℕ) (key : Text) (now : ℕ) (l : Limiter)
    → window ≤ 60 * minute
    → IsMap l.hits
    → WithinLimit key max l.hits
    → (rate max window key now l).0 ≡ true
    → let after = (rate max window key now l).1 in
      (hits_of key after.hits ≡ fresh_hits window now key l ++ now ∷ [])
      × (length (fresh_hits window now key l) + 1 ≤ max)
      × WithinLimit key max after.hits
      × IsMap after.hits
unfolding rate Admitted
rate-WithinLimit max window key now l short m w allowed =
    let (within, one, recorded) =
      admit-Admitted max window key now (sweep now l).hits (sweep-WithinLimit key max now l w)
        (sweep-IsMap now l m) in
    let hits = (admit max window key now (sweep now l).hits).1 in
    let all : hits_of key hits ≡ fresh_hits window now key l ++ now ∷ [] =
      recorded allowed
      ∙ ap (λ (x : List ℕ). x ++ now ∷ []) (fresh_hits-sweep window now key l short m) in
    let size = ap (λ (x : List ℕ). length x) all in
    (
      all,
      omega (
        arith,
        size,
        length-append (fresh_hits window now key l) (now ∷ []),
        hits_of-WithinLimit key max hits within,
      ),
      within,
      one,
    )
