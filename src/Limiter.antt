-- ===== src/Limiter.antt =====
-- internal/web/server.go, `rate`: how many requests of one client to one path are let through. A time is
-- a number of nanoseconds. A list that is filtered in place keeps its old tail where the filtered list
-- is not stored back, as Go's slices do.
pub mod Sweep
pub mod Window
use azeroth_core_web.Base.{
  ℕ, ◌+◌, ◌-◌, ◌*◌, ◌&&◌, ◌||◌, not, Bool, true, false, Option, none, some, List, [], ◌∷◌, ◌++◌,
  Text, text_eq, ◌==◌, ltb, leb, if◌then◌else◌, length, drop, keep_if, find_if,
}

pub record Hits : Type 0 where
  pub key : Text
  pub times : List ℕ

pub record Limiter : Type 0 where
  pub hits : List Hits
  pub last_sweep : Option ℕ

abbrev pub minute : ℕ
minute = 60 * 1000000000

-- `now.Sub(t) < window`, for a window that is not 0
unfoldable pub is_fresh : ℕ → ℕ → ℕ → Bool
is_fresh window now t = ltb (now - t) window

-- The sweep drops what is older than an hour, and a client with nothing left.
swept : Hits → List ℕ → List Hits → List Hits
swept h [] rest = rest
swept h (t ∷ times) rest = record h { times = t ∷ times } ∷ rest

unfoldable pub sweep_hits : ℕ → List Hits → List Hits
unfolding swept
sweep_hits now [] = []
sweep_hits now (h ∷ hits) =
    swept h (keep_if (is_fresh (60 * minute) now) h.times) (sweep_hits now hits)

is_due : ℕ → Option ℕ → Bool
is_due now none = true
is_due now (some last) = leb (5 * minute) (now - last)

unfoldable pub sweep : ℕ → Limiter → Limiter
unfolding is_due
sweep now l =
    if is_due now l.last_sweep
    then record { hits = sweep_hits now l.hits; last_sweep = some now }
    else l

-- `s.limiter.hits[key]`, empty where there is none
times_of : Option Hits → List ℕ
times_of none = []
times_of (some h) = h.times

abbrev pub at_key : Text → Hits → Bool
at_key key h = text_eq h.key key

unfoldable pub hits_of : Text → List Hits → List ℕ
unfolding times_of
hits_of key hits = times_of (find_if (at_key key) hits)

is_there : Option Hits → Bool
is_there none = false
is_there (some h) = true

-- `s.limiter.hits[key] = times`
unfoldable pub set_hits : Text → List ℕ → List Hits → List Hits
set_hits key times [] = record { key = key; times = times } ∷ []
set_hits key times (h ∷ hits) =
    let rest = set_hits key times hits in
    if text_eq h.key key then record h { times = times } ∷ hits else h ∷ rest

-- Under the lock: whether the request is let through, and the times that are kept.
unfoldable pub admit : ℕ → ℕ → Text → ℕ → List Hits → Bool × List Hits
unfolding is_there
admit max window key now hits =
    let old = hits_of key hits in
    let keep = keep_if (is_fresh window now) old in
    let known = is_there (find_if (at_key key) hits) in
    let allowed = ltb (length keep) max && not (not known && leb 10000 (length hits)) in
    if allowed
    then (true, set_hits key (keep ++ now ∷ []) hits)
    else if known
    then (false, set_hits key (keep ++ drop (length keep) old) hits)
    else (false, hits)

-- `rate`
unfoldable pub rate : ℕ → ℕ → Text → ℕ → Limiter → Bool × Limiter
rate max window key now l =
    let s = sweep now l in
    let (allowed, hits) = admit max window key now s.hits in (allowed, record s { hits = hits })
