-- ===== src/Db/Rules.antt =====
-- Rules to reason about a handler statement by statement, for any property of its outcome.
use azeroth_core_web.Base.{
  ◌⊎◌, inl, inr, ◌≡◌, refl, Bool, true, false, Option, none, some, if◌then◌else◌,
}
use azeroth_core_web.Db.{
  Conn, Result, ok, err, Exec, pure, fail, lift, sent, exec, update, query, query_or, resume,
  settle, with_tables, attempt, stop_if, ◌>>=◌,
}

-- The connection after a statement that wrote `t`.
abbrev pub wrote : {T : Type 0} → Conn T → T → Conn T
wrote c t = record (sent c) { tables = t }

module _ {T E A B : Type 0} (P : Result E B × Conn T → Type 0) where
  settle-resume :
      (down : Bool) (found : Option (A × T)) (e : E) (g : A → Exec T E B) (c : Conn T)
      → P (err e, c)
      → ((a : A) (t : T) → found ≡ some (a, t) → P (g a (record c { tables = t })))
      → P (resume g (settle down e found c))
  settle-resume true found e g c failed done = failed
  settle-resume false none e g c failed done = failed
  settle-resume false (some (a, t)) e g c failed done = done a t refl

  pub exec-bind :
      (e : E) (f : T → Option (A × T)) (g : A → Exec T E B) (c : Conn T)
      → P (err e, sent c)
      → ((a : A) (t : T) → f c.tables ≡ some (a, t) → P (g a (wrote c t)))
      → P ((exec e f >>= g) c)
  unfolding exec ◌>>=◌
  exec-bind e f g c = settle-resume (c.fault c.tick) (f c.tables) e g (sent c)

  update-resume :
      (down : Bool) (a : A) (t : T) (e : E) (g : A → Exec T E B) (c : Conn T)
      → P (err e, c)
      → P (g a (record c { tables = t }))
      → P (resume g (settle down e (some (a, t)) c))
  update-resume true a t e g c failed done = failed
  update-resume false a t e g c failed done = done

  pub update-bind :
      (e : E) (count : T → A) (f : T → T) (g : A → Exec T E B) (c : Conn T)
      → P (err e, sent c)
      → P (g (count c.tables) (wrote c (f c.tables)))
      → P ((update e count f >>= g) c)
  unfolding update ◌>>=◌
  update-bind e count f g c =
      update-resume (c.fault c.tick) (count c.tables) (f c.tables) e g (sent c)

  query-resume :
      (down : Bool) (found : Option A) (e : E) (g : A → Exec T E B) (c : Conn T)
      → P (err e, c)
      → ((a : A) → found ≡ some a → P (g a c))
      → P (resume g (settle down e (with_tables found c.tables) c))
  query-resume true found e g c failed done = failed
  query-resume false none e g c failed done = failed
  query-resume false (some a) e g c failed done = done a refl

  pub query-bind :
      (e : E) (f : T → Option A) (g : A → Exec T E B) (c : Conn T)
      → P (err e, sent c)
      → ((a : A) → f c.tables ≡ some a → P (g a (sent c)))
      → P ((query e f >>= g) c)
  unfolding query ◌>>=◌
  query-bind e f g c = query-resume (c.fault c.tick) (f c.tables) e g (sent c)

module _ {T E A : Type 0} (P : Result E A × Conn T → Type 0) where
  settle-end :
      (down : Bool) (found : Option (A × T)) (e : E) (c : Conn T)
      → P (err e, c)
      → ((a : A) (t : T) → found ≡ some (a, t) → P (ok a, record c { tables = t }))
      → P (settle down e found c)
  settle-end true found e c failed done = failed
  settle-end false none e c failed done = failed
  settle-end false (some (a, t)) e c failed done = done a t refl

  update-end :
      (down : Bool) (a : A) (t : T) (e : E) (c : Conn T)
      → P (err e, c)
      → P (ok a, record c { tables = t })
      → P (settle down e (some (a, t)) c)
  update-end true a t e c failed done = failed
  update-end false a t e c failed done = done

  pub update_end :
      (e : E) (count : T → A) (f : T → T) (c : Conn T)
      → P (err e, sent c)
      → P (ok (count c.tables), wrote c (f c.tables))
      → P (update e count f c)
  unfolding update
  update_end e count f c = update-end (c.fault c.tick) (count c.tables) (f c.tables) e (sent c)

  -- The last statement of a handler.
  pub exec_end :
      (e : E) (f : T → Option (A × T)) (c : Conn T)
      → P (err e, sent c)
      → ((a : A) (t : T) → f c.tables ≡ some (a, t) → P (ok a, wrote c t))
      → P (exec e f c)
  unfolding exec
  exec_end e f c = settle-end (c.fault c.tick) (f c.tables) e (sent c)

module _ {T E A : Type 0} (P : Result E A × Conn T → Type 0) where
  query-end :
      (down : Bool) (found : Option A) (e : E) (c : Conn T)
      → P (err e, c)
      → ((a : A) → found ≡ some a → P (ok a, c))
      → P (settle down e (with_tables found c.tables) c)
  query-end true found e c failed done = failed
  query-end false none e c failed done = failed
  query-end false (some a) e c failed done = done a refl

  pub query_end :
      (e : E) (f : T → Option A) (c : Conn T)
      → P (err e, sent c)
      → ((a : A) → f c.tables ≡ some a → P (ok a, sent c))
      → P (query e f c)
  unfolding query
  query_end e f c = query-end (c.fault c.tick) (f c.tables) e (sent c)

module _ {T E A B : Type 0} (P : Result E B × Conn T → Type 0) where
  pub query_or-bind :
      (default : A) (f : T → A) (g : A → Exec T E B) (c : Conn T)
      → ((a : A) → P (g a (sent c)))
      → P ((query_or default f >>= g) c)
  unfolding query_or ◌>>=◌
  query_or-bind default f g c h = h (if c.fault c.tick then default else f c.tables)

  -- The same, with what may have been read.
  pub query_or-read :
      (default : A) (f : T → A) (g : A → Exec T E B) (c : Conn T)
      → ((a : A) → (a ≡ default) ⊎ (a ≡ f c.tables) → P (g a (sent c)))
      → P ((query_or default f >>= g) c)
  unfolding query_or ◌>>=◌
  query_or-read default f g c h = read_case (c.fault c.tick)
    where
      read_case : (down : Bool) → P (g (if down then default else f c.tables) (sent c))
      read_case true = h default (inl refl)
      read_case false = h (f c.tables) (inr refl)

module _ {T E B : Type 0} (P : Result E B × Conn T → Type 0) where
  pub stop_if-bind :
      (b : Bool) (e : E) (g : Unit {0} → Exec T E B) (c : Conn T)
      → (b ≡ true → P (err e, c))
      → (b ≡ false → P (g tt c))
      → P ((stop_if b e >>= g) c)
  unfolding stop_if ◌>>=◌
  stop_if-bind true e g c failed done = failed refl
  stop_if-bind false e g c failed done = done refl

  pub attempt-bind :
      (f : T → T) (g : Unit {0} → Exec T E B) (c : Conn T)
      → P (g tt (sent c))
      → P (g tt (wrote c (f c.tables)))
      → P ((attempt f >>= g) c)
  unfolding attempt ◌>>=◌
  attempt-bind f g c failed done = attempt_case (c.fault c.tick)
    where
      attempt_case : (down : Bool) → P (g tt (if down then sent c else wrote c (f c.tables)))
      attempt_case true = failed
      attempt_case false = done

  pub lift-bind :
      {A : Type 0} (r : Result E A) (g : A → Exec T E B) (c : Conn T)
      → ((e : E) → r ≡ err e → P (err e, c))
      → ((a : A) → r ≡ ok a → P (g a c))
      → P ((lift r >>= g) c)
  unfolding lift ◌>>=◌
  lift-bind (ok a) g c failed done = done a refl
  lift-bind (err e) g c failed done = failed e refl

  pub pure_end : (b : B) (c : Conn T) → P (ok b, c) → P (pure b c)
  unfolding pure
  pure_end b c h = h

  pub fail_end : (e : E) (c : Conn T) → P (err e, c) → P (fail e c)
  unfolding fail
  fail_end e c h = h

  pub branch :
      (b : Bool) (m n : Exec T E B) (c : Conn T)
      → (b ≡ true → P (m c))
      → (b ≡ false → P (n c))
      → P ((if b then m else n) c)
  branch true m n c yes_case no_case = yes_case refl
  branch false m n c yes_case no_case = no_case refl

module _ {T E : Type 0} (P : Result E (Unit {0}) × Conn T → Type 0) where
  pub stop_if_end :
      (b : Bool) (e : E) (c : Conn T)
      → (b ≡ true → P (err e, c))
      → (b ≡ false → P (ok tt, c))
      → P (stop_if b e c)
  unfolding stop_if
  stop_if_end true e c failed done = failed refl
  stop_if_end false e c failed done = done refl
