-- ===== src/Db.antt =====
-- The SQL connection that the handlers share. Every statement may fail: `fault` says which, by the
-- number of statements sent so far, and the theorems hold for every such schedule. A failed
-- statement changes nothing, as MySQL documents for a single statement of an InnoDB table.
pub mod Rules
pub mod Keeps
pub mod Atomic
use azeroth_core_web.Base.{
  ℕ, ◌+◌, Bool, true, false, Option, none, some, if◌then◌else◌, ◌≡◌, ◌⊎◌, inl, inr, refl,
}

pub record Conn (T : Type 0) : Type 0 where
  pub tables : T
  pub fault : ℕ → Bool
  pub tick : ℕ

pub data Result (E A : Type 0) : Type 0 where
  ok : A → Result E A
  err : E → Result E A

pub Result-cases :
    {E A : Type 0} (r : Result E A) → ((a : A) × (r ≡ ok a)) ⊎ ((e : E) × (r ≡ err e))
Result-cases (ok a) = inl (a, refl)
Result-cases (err e) = inr (e, refl)

abbrev pub with_tables : {T A : Type 0} → Option A → T → Option (A × T)
with_tables none t = none
with_tables (some a) t = some (a, t)

-- A piece of a handler: it may stop with an error, and what it wrote before that stays written.
abbrev pub Exec : Type 0 → Type 0 → Type 0 → Type 0
Exec T E A = Conn T → Result E A × Conn T

-- the next statement has been sent
abbrev pub sent : {T : Type 0} → Conn T → Conn T
sent c = record c { tick = c.tick + 1 }

module _ {T E A : Type 0} where
  unfoldable pub pure : A → Exec T E A
  pure a c = (ok a, c)

  unfoldable pub fail : E → Exec T E A
  fail e c = (err e, c)

  unfoldable pub lift : Result E A → Exec T E A
  lift r c = (r, c)

  -- How a statement ends, by whether the driver fails and by what it finds.
  abbrev pub settle : Bool → E → Option (A × T) → Exec T E A
  settle true e found c = (err e, c)
  settle false e none c = (err e, c)
  settle false e (some (a, t)) c = (ok a, record c { tables = t })

  -- One statement. It fails if the driver does, and where it has no result: no row to scan, a
  -- duplicate key, a number out of the column's range.
  unfoldable pub exec : E → (T → Option (A × T)) → Exec T E A
  exec e f c = settle (c.fault c.tick) e (f c.tables) (sent c)

  -- A write that no row can refuse, with the number of rows that it reports.
  unfoldable pub update : E → (T → A) → (T → T) → Exec T E A
  unfolding exec
  update e count f = exec e (λ t. some (count t, f t))

  -- A read.
  unfoldable pub query : E → (T → Option A) → Exec T E A
  unfolding exec
  query e f = exec e (λ t. with_tables (f t) t)

  -- How a transaction ends, by whether the driver fails and by how the body ended.
  abbrev pub close : Bool → E → T → Result E A → Exec T E A
  close down e before (err x) c = (err x, record c { tables = before })
  close true e before (ok a) c = (err e, record (sent c) { tables = before })
  close false e before (ok a) c = (ok a, sent c)

  -- A read whose failure is ignored.
  unfoldable pub query_or : A → (T → A) → Exec T E A
  query_or default f c = (ok (if c.fault c.tick then default else f c.tables), sent c)

  -- A write whose failure reads as a number of rows.
  unfoldable pub update_or : A → (T → A) → (T → T) → Exec T E A
  update_or default count f c =
      if c.fault c.tick
      then (ok default, sent c)
      else (ok (count c.tables), record (sent c) { tables = f c.tables })

  -- `BeginTx`, the body, `Commit`, with the deferred `Rollback`: every error restores the tables.
  unfoldable pub transaction : E → E → Exec T E A → Exec T E A
  transaction unavailable e body c =
      if c.fault c.tick
      then (err unavailable, sent c)
      else (let (r, c') = body (sent c) in close (c'.fault c'.tick) e c.tables r c')

module _ {T E : Type 0} where
  -- `if b { problem(...); return }`
  unfoldable pub stop_if : Bool → E → Exec T E Unit
  stop_if b e c = (if b then err e else ok tt, c)

  -- `_, _ = Exec(...)`: the handler goes on whether the statement worked or not.
  unfoldable pub attempt : (T → T) → Exec T E Unit
  attempt f c = (ok tt, if c.fault c.tick then sent c else record (sent c) { tables = f c.tables })

module _ {T E A B : Type 0} where
  abbrev pub resume : (A → Exec T E B) → Result E A × Conn T → Result E B × Conn T
  resume f (ok a, c) = f a c
  resume f (err e, c) = (err e, c)

  infixl 5 ◌>>=◌ ◌>>◌
  unfoldable pub ◌>>=◌ : Exec T E A → (A → Exec T E B) → Exec T E B
  ◌>>=◌ m f c = resume f (m c)

  abbrev pub ◌>>◌ : Exec T E A → Exec T E B → Exec T E B
  m >> k = m >>= λ _. k
