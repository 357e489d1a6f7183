-- ===== src/Wallet/Payments.antt =====
-- What the ledger says that was paid for one kind of reason.
use azeroth_core_web.Base.{
  ℕ, ◌≡◌, ◌≤◌, sym, inl, inr, Bool-cases, count_if, count_if-append_one, refl, ap, Bool, true, List,
  [], ◌∷◌, ◌++◌, map, if◌then◌else◌, arith,
}
use azeroth_core_web.Base.Int.{ℤ}
use azeroth_core_web.Tables.{Reason, LedgerEntry}

-- To whom, and how much.
abbrev pub payments : (Reason → Bool) → List LedgerEntry → List (ℕ × ℤ)
payments p [] = []
payments p (e ∷ ledger) =
    let rest = payments p ledger in if p e.reason then (e.target, e.amount) ∷ rest else rest

pub payments-append :
    (p : Reason → Bool) (e : LedgerEntry) (ledger : List LedgerEntry)
    → p e.reason ≡ true
    → payments p (ledger ++ e ∷ []) ≡ payments p ledger ++ (e.target, e.amount) ∷ []
payments-append p e [] h = ground (arith, h)
payments-append p e (x ∷ ledger) h = ground (arith, payments-append p e ledger h)

pub map-append_one :
    {A B : Type 0} (f : A → B) (x : A) (xs : List A) → map f (xs ++ x ∷ []) ≡ map f xs ++ f x ∷ []
map-append_one f x [] = refl
map-append_one f x (y ∷ xs) = ap (λ t. f y ∷ t) (map-append_one f x xs)

-- No two rows have the same key.
abbrev pub NoTwice : {K A : Type 0} → (K → A → Bool) → List A → Type 0
NoTwice {K} test rows = (k : K) → count_if (test k) rows ≤ 1

-- A row whose key is new keeps the keys apart.
pub NoTwice-append :
    {K A : Type 0} (test : K → A → Bool) (key : K) (x : A) (rows : List A)
    → ((k : K) → test k x ≡ true → k ≡ key)
    → count_if (test key) rows ≡ 0
    → NoTwice test rows
    → NoTwice test (rows ++ x ∷ [])
NoTwice-append test key x rows own fresh h k = elim (Bool-cases (test k x)) [
  | inl same ↦
      let none_before = rw (sym (own k same)) at fresh in
      ground (arith, none_before, same, count_if-append_one (test k) x rows)
  | inr other ↦ ground (arith, h k, other, count_if-append_one (test k) x rows)
]
