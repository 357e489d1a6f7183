-- ===== src/Http.antt =====
-- internal/web/server.go, `problem`: an error response, with its status and its message.
use azeroth_core_web.Base.{ℕ, String, ◌≡◌, Option, none, some}
use azeroth_core_web.Db.{Result, ok, err}

pub data Problem : Type 0 where
  problem : ℕ → String → Problem

-- A value that the handler cannot go on without.
abbrev pub or_problem : {A : Type 0} → Option A → Problem → Result Problem A
or_problem none p = err p
or_problem (some a) p = ok a

pub or_problem-some :
    {A : Type 0} (found : Option A) (p : Problem) (a : A)
    → or_problem found p ≡ ok a
    → found ≡ some a
or_problem-some none p a h = cc
or_problem-some (some x) p a h = cc
