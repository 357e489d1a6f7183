-- ===== src/Db/Keeps.antt =====
-- Invariants of the tables under a handler: a rule for each piece that a handler is built of. An
-- invariant that every statement keeps is kept whichever of them fail.
use azeroth_core_web.Base.{◌≡◌, refl, Bool, true, false, Option, none, some, if◌then◌else◌}
use azeroth_core_web.Db.{
  Conn, Result, ok, err, Exec, sent, settle, close, resume, with_tables, pure, fail, lift, exec,
  update, query, query_or, update_or, transaction, attempt, stop_if, ◌>>=◌,
}

pub record Keeps {T E A : Type 0} (I : T → Type 0) (m : Exec T E A) : Type 0 where
  pub at : (c : Conn T) → I c.tables → I (m c).1.tables

module _ {T E A : Type 0} (I : T → Type 0) where
  Keeps-settle_some :
      (down : Bool) (e : E) (a : A) (t : T) (c : Conn T)
      → I c.tables
      → I t
      → I (settle down e (some (a, t)) c).1.tables
  Keeps-settle_some true e a t c h next = h
  Keeps-settle_some false e a t c h next = next

  Keeps-settle_same :
      (down : Bool) (e : E) (found : Option A) (c : Conn T)
      → I c.tables
      → I (settle down e (with_tables found c.tables) c).1.tables
  Keeps-settle_same true e found c h = h
  Keeps-settle_same false e none c h = h
  Keeps-settle_same false e (some a) c h = h

  Keeps-close :
      (down : Bool) (e : E) (before : T) (r : Result E A) (c : Conn T)
      → I before
      → I c.tables
      → I (close down e before r c).1.tables
  Keeps-close down e before (err x) c h k = h
  Keeps-close true e before (ok a) c h k = h
  Keeps-close false e before (ok a) c h k = k

module _ {T E A : Type 0} {I : T → Type 0} where
  pub Keeps-pure : (a : A) → Keeps I (pure {E = E} a)
  unfolding pure
  Keeps-pure a = record { at = λ c h. h }

  pub Keeps-fail : (e : E) → Keeps I (fail {A = A} e)
  unfolding fail
  Keeps-fail e = record { at = λ c h. h }

  pub Keeps-lift : (r : Result E A) → Keeps I (lift r)
  unfolding lift
  Keeps-lift r = record { at = λ c h. h }

  Keeps-settle :
      (down : Bool) (e : E) (found : Option (A × T)) (c : Conn T)
      → I c.tables
      → ((a : A) (t : T) → found ≡ some (a, t) → I t)
      → I (settle down e found c).1.tables
  Keeps-settle true e found c h next = h
  Keeps-settle false e none c h next = h
  Keeps-settle false e (some (a, t)) c h next = next a t refl

  pub Keeps-exec :
      (e : E) (f : T → Option (A × T))
      → ((s : T) → I s → (a : A) (t : T) → f s ≡ some (a, t) → I t)
      → Keeps I (exec e f)
  unfolding exec
  Keeps-exec e f next = record {
    at = λ c h. Keeps-settle (c.fault c.tick) e (f c.tables) (sent c) h (next c.tables h);
  }

  pub Keeps-update :
      (e : E) (count : T → A) (f : T → T) → ((s : T) → I s → I (f s)) → Keeps I (update e count f)
  unfolding update
  Keeps-update e count f next = record {
    at = λ c h.
        Keeps-settle_some I (c.fault c.tick) e (count c.tables) (f c.tables) (sent c) h
          (next c.tables h);
  }

  pub Keeps-query : (e : E) (f : T → Option A) → Keeps I (query e f)
  unfolding query
  Keeps-query e f = record {
    at = λ c h. Keeps-settle_same I (c.fault c.tick) e (f c.tables) (sent c) h;
  }

  pub Keeps-query_or : (default : A) (f : T → A) → Keeps I (query_or {E = E} default f)
  unfolding query_or
  Keeps-query_or default f = record { at = λ c h. h }

  pub Keeps-update_or :
      (default : A) (count : T → A) (f : T → T)
      → ((s : T) → I s → I (f s))
      → Keeps I (update_or {E = E} default count f)
  unfolding update_or
  Keeps-update_or default count f next = record { at = λ c h. written (c.fault c.tick) c h }
    where
      written :
          (down : Bool) (c : Conn T)
          → I c.tables
          → I
              (if◌then◌else◌ {A = Result E A × Conn T} down
                (ok default, sent c)
                (ok (count c.tables), record (sent c) { tables = f c.tables })).1.tables
      written true c h = h
      written false c h = next c.tables h

  Keeps-open :
      (down : Bool) (unavailable e : E) (body : Exec T E A) (c : Conn T)
      → Keeps I body
      → I c.tables
      → I
          (if down
            then (err unavailable, sent c)
            else (let (r, c') = body (sent c) in close (c'.fault c'.tick) e c.tables r c')).1.tables
  Keeps-open true unavailable e body c k h = h
  Keeps-open false unavailable e body c k h =
      let (r, c') = body (sent c) in
      Keeps-close I (c'.fault c'.tick) e c.tables r c' h (k.at (sent c) h)

  pub Keeps-transaction :
      (unavailable e : E) (body : Exec T E A)
      → Keeps I body
      → Keeps I (transaction unavailable e body)
  unfolding transaction
  Keeps-transaction unavailable e body k = record {
    at = λ c h. Keeps-open (c.fault c.tick) unavailable e body c k h;
  }

  pub Keeps-branch :
      (b : Bool) (m n : Exec T E A) → Keeps I m → Keeps I n → Keeps I (if b then m else n)
  Keeps-branch true m n km kn = km
  Keeps-branch false m n km kn = kn

module _ {T E : Type 0} {I : T → Type 0} where
  pub Keeps-stop_if : (b : Bool) (e : E) → Keeps I (stop_if b e)
  unfolding stop_if
  Keeps-stop_if b e = record { at = λ c h. h }

  pub Keeps-attempt : (f : T → T) → ((s : T) → I s → I (f s)) → Keeps I (attempt {E = E} f)
  unfolding attempt
  Keeps-attempt f next = record { at = λ c h. tried (c.fault c.tick) c h }
    where
      tried :
          (down : Bool) (c : Conn T)
          → I c.tables
          → I (if down then sent c else record (sent c) { tables = f c.tables }).tables
      tried true c h = h
      tried false c h = next c.tables h

module _ {T E A B : Type 0} {I : T → Type 0} where
  Keeps-resume :
      (g : A → Exec T E B) (r : Result E A) (c : Conn T)
      → ((a : A) → Keeps I (g a))
      → I c.tables
      → I (resume g (r, c)).1.tables
  Keeps-resume g (ok a) c k h = (k a).at c h
  Keeps-resume g (err e) c k h = h

  pub Keeps-bind :
      (m : Exec T E A) (g : A → Exec T E B)
      → Keeps I m
      → ((a : A) → Keeps I (g a))
      → Keeps I (m >>= g)
  unfolding ◌>>=◌
  Keeps-bind m g km kg = record {
    at = λ c h. let (r, c') = m c in Keeps-resume g r c' kg (km.at c h);
  }

pub ruleset keeps_rules = (
  Keeps-pure, Keeps-fail, Keeps-lift, Keeps-query, Keeps-query_or, Keeps-branch, Keeps-stop_if,
  Keeps-bind, Keeps-transaction,
)
