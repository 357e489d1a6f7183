-- ===== src/Db/Atomic.antt =====
-- Outcomes of a transaction: all of it, or nothing.
use azeroth_core_web.Base.{◌≡◌, ◌∙◌, refl, Bool, true, false, if◌then◌else◌}
use azeroth_core_web.Db.{Conn, Result, ok, err, Exec, sent, close, resume, transaction, pure, ◌>>=◌}
use azeroth_core_web.Db.Keeps.{Keeps}

-- What holds of the tables where the handler went through.
abbrev pub OnOk : {T E A : Type 0} → (A → T → Type 0) → Result E A × Conn T → Type 0
OnOk Q (ok a, c) = Q a c.tables
OnOk Q (err e, c) = Unit

-- Either it went through and `Q` holds, or it stopped and the tables are the old ones.
abbrev pub AllOrNothing : {T E A : Type 0} → T → (A → T → Type 0) → Result E A × Conn T → Type 0
AllOrNothing before Q (ok a, c) = Q a c.tables
AllOrNothing before Q (err e, c) = c.tables ≡ before

module _ {T E A : Type 0} (Q : A → T → Type 0) where
  close-AllOrNothing :
      (down : Bool) (e : E) (before : T) (r : Result E A) (c : Conn T)
      → OnOk Q (r, c)
      → AllOrNothing before Q (close down e before r c)
  close-AllOrNothing down e before (err x) c h = refl
  close-AllOrNothing true e before (ok a) c h = refl
  close-AllOrNothing false e before (ok a) c h = h

  begin-AllOrNothing :
      (down : Bool) (unavailable e : E) (body : Exec T E A) (c : Conn T)
      → OnOk Q (body (sent c))
      → AllOrNothing c.tables Q (
          if down
          then (err unavailable, sent c)
          else (let (r, c') = body (sent c) in close (c'.fault c'.tick) e c.tables r c'))
  begin-AllOrNothing true unavailable e body c h = refl
  begin-AllOrNothing false unavailable e body c h =
      let (r, c') = body (sent c) in close-AllOrNothing (c'.fault c'.tick) e c.tables r c' h

  -- A transaction is all or nothing, whichever of its statements or its commit fail.
  pub transaction-AllOrNothing :
      (unavailable e : E) (body : Exec T E A) (c : Conn T)
      → OnOk Q (body (sent c))
      → AllOrNothing c.tables Q (transaction unavailable e body c)
  unfolding transaction
  transaction-AllOrNothing unavailable e body c h =
      begin-AllOrNothing (c.fault c.tick) unavailable e body c h

pub OnOk-map :
    {T E A : Type 0} (Q R : A → T → Type 0) (r : Result E A × Conn T)
    → OnOk Q r
    → ((a : A) (t : T) → Q a t → R a t)
    → OnOk R r
OnOk-map Q R (ok a, c) h f = f a c.tables h
OnOk-map Q R (err e, c) h f = tt

-- What went through went through with its own result.
pub OnOk-own :
    {T E A : Type 0} (Q : A → T → Type 0) (r : Result E A × Conn T)
    → OnOk Q r
    → OnOk (λ a t. Q a t × (r.0 ≡ ok a)) r
OnOk-own Q (ok a, c) h = (h, refl)
OnOk-own Q (err e, c) h = tt

pub OnOk-result :
    {T E A : Type 0} (Q : A → T → Type 0) (r : Result E A × Conn T)
    → ((a : A) → Q a r.1.tables)
    → OnOk Q r
OnOk-result Q (ok a, c) h = h a
OnOk-result Q (err e, c) h = tt

module _ {T E A B : Type 0} where
  resume-OnOk :
      (Q : A → T → Type 0) (R : B → T → Type 0) (r : Result E A × Conn T) (k : A → Exec T E B)
      → OnOk Q r
      → ((a : A) (c : Conn T) → Q a c.tables → OnOk R (k a c))
      → OnOk R (resume k r)
  resume-OnOk Q R (ok a, c) k h next = next a c h
  resume-OnOk Q R (err e, c) k h next = tt

  -- Two parts of a handler, one after the other.
  pub chain :
      (Q : A → T → Type 0) (R : B → T → Type 0) (m : Exec T E A) (k : A → Exec T E B) (c : Conn T)
      → OnOk Q (m c)
      → ((a : A) (d : Conn T) → Q a d.tables → OnOk R (k a d))
      → OnOk R ((m >>= k) c)
  unfolding ◌>>=◌
  chain Q R m k c h next = resume-OnOk Q R (m c) k h next

-- An invariant that a part keeps holds where it goes through.
pub Keeps-OnOk :
    {T E A : Type 0} (I : T → Type 0) (m : Exec T E A) (c : Conn T)
    → Keeps I m
    → I c.tables
    → OnOk (λ _ t. I t) (m c)
Keeps-OnOk I m c keeps h = OnOk-result (λ _ t. I t) (m c) λ _. keeps.at c h

outcome-Keeps :
    {T E A : Type 0} (I : T → Type 0) (before : T) (r : Result E A × Conn T)
    → I before
    → AllOrNothing before (λ _ t. I t) r
    → I r.1.tables
outcome-Keeps I before (ok a, c) h k = k
outcome-Keeps I before (err e, c) h k = rw k h

-- A transaction keeps an invariant that its body restores wherever it goes through.
pub transaction-Keeps :
    {T E A : Type 0} (I : T → Type 0) (unavailable e : E) (body : Exec T E A)
    → ((c : Conn T) → I c.tables → OnOk (λ _ t. I t) (body c))
    → Keeps I (transaction unavailable e body)
transaction-Keeps I unavailable e body done = record {
  at = λ c h.
      outcome-Keeps I c.tables (transaction unavailable e body c) h
        (transaction-AllOrNothing (λ _ t. I t) unavailable e body c (done (sent c) h));
}

-- A part that changes nothing, with what it has found.
abbrev pub Reads : {T E A : Type 0} → T → (A → Type 0) → Result E A × Conn T → Type 0
Reads before Q r = AllOrNothing before (λ a t. (t ≡ before) × Q a) r

module _ {T E A B : Type 0} where
  resume-Reads :
      (before : T) (Q : A → Type 0) (R : B → T → Type 0) (r : Result E A × Conn T)
      (k : A → Exec T E B)
      → Reads before Q r
      → ((a : A) (d : Conn T) → d.tables ≡ before → Q a → AllOrNothing before R (k a d))
      → AllOrNothing before R (resume k r)
  resume-Reads before Q R (ok a, c) k (same, found) next = next a c same found
  resume-Reads before Q R (err e, c) k same next = same

  -- A part that only reads, and the rest of the handler.
  pub after_reading :
      (before : T) (Q : A → Type 0) (R : B → T → Type 0) (m : Exec T E A) (k : A → Exec T E B)
      (c : Conn T)
      → Reads before Q (m c)
      → ((a : A) (d : Conn T) → d.tables ≡ before → Q a → AllOrNothing before R (k a d))
      → AllOrNothing before R ((m >>= k) c)
  unfolding ◌>>=◌
  after_reading before Q R m k c h next = resume-Reads before Q R (m c) k h next

-- The same tables under another name.
pub rebase :
    {T E A : Type 0} (Q : A → T → Type 0) (before now : T) (r : Result E A × Conn T)
    → now ≡ before
    → AllOrNothing now Q r
    → AllOrNothing before Q r
rebase Q before now (ok a, c) same h = h
rebase Q before now (err e, c) same h = h ∙ same

module _ {T E A B : Type 0} where
  resume-pure :
      (before : T) (Q : A → T → Type 0) (R : B → T → Type 0) (b : B) (r : Result E A × Conn T)
      → AllOrNothing before Q r
      → ((a : A) (t : T) → Q a t → R b t)
      → AllOrNothing before R (resume (λ _. pure b) r)
  unfolding pure
  resume-pure before Q R b (ok a, c) h f = f a c.tables h
  resume-pure before Q R b (err e, c) h f = h

  -- A part that ends the handler, but for the answer.
  pub answered :
      (before : T) (Q : A → T → Type 0) (R : B → T → Type 0) (b : B) (m : Exec T E A) (c : Conn T)
      → AllOrNothing before Q (m c)
      → ((a : A) (t : T) → Q a t → R b t)
      → AllOrNothing before R ((m >>= λ _. pure b) c)
  unfolding ◌>>=◌
  answered before Q R b m c h f = resume-pure before Q R b (m c) h f

pub went_through :
    {T E A : Type 0} (before : T) (Q : A → T → Type 0) (r : Result E A × Conn T) (a : A)
    → AllOrNothing before Q r
    → r.0 ≡ ok a
    → Q a r.1.tables
went_through before Q (ok b, c) a h e = let same : b ≡ a = cc in rw same at h
went_through before Q (err x, c) a h e = cc
