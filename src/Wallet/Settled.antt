-- ===== src/Wallet/Settled.antt =====
-- The wallets say what the ledger says: every balance is the sum of the entries of its account.
use azeroth_core_web.Base.{
  ℕ, ◌+◌, ◌-◌, ◌≤◌, ◌≡◌, refl, Option, none, some, List, [], ◌∷◌, ◌++◌, ◌==◌, leb, if◌then◌else◌,
  arith, find_if, find_if-update_if, find_if-append_one, find_if-holds, Option-cases, Bool-cases,
  leb→le, ◌⊎◌, inl, inr,
}
use azeroth_core_web.Base.Int.{ℤ, pos, ◌+ℤ◌, int_laws}
use azeroth_core_web.Tables.{Wallet, LedgerEntry, Reason}
use azeroth_core_web.Wallet.{
  at_account, balance_of, set_balance, credit, debit, debit_if_covered, deposit, entry, negative,
}

-- What the ledger says of an account.
abbrev pub ledger_sum : ℕ → List LedgerEntry → ℤ
ledger_sum account [] = pos 0
ledger_sum account (e ∷ ledger) =
    if e.target == account then e.amount +ℤ ledger_sum account ledger else ledger_sum account ledger

-- The balance of an account, 0 where it has no wallet.
abbrev pub balance_or_0 : Option ℕ → ℕ
balance_or_0 none = 0
balance_or_0 (some b) = b

abbrev pub Settled : List Wallet → List LedgerEntry → Type 0
Settled wallets ledger = (a : ℕ) → pos (balance_or_0 (balance_of a wallets)) ≡ ledger_sum a ledger

wallet_found :
    (a : ℕ) (wallets : List Wallet) (w : Wallet)
    → find_if (at_account a) wallets ≡ some w
    → w.account ≡ a
wallet_found a wallets w e = ground (arith, find_if-holds (at_account a) w wallets)

at_account-set : (a n : ℕ) (w : Wallet) → at_account a (record w { balance = n }) ≡ at_account a w
at_account-set a n w = refl

pub balance_of-set_balance :
    (a b n : ℕ) (wallets : List Wallet)
    → balance_of a (set_balance b n wallets)
      ≡ elim (balance_of a wallets) [ none ↦ none | some old ↦ some (if a == b then n else old) ]
unfolding balance_of set_balance
balance_of-set_balance a b n wallets =
    let moved =
      find_if-update_if (at_account a) (at_account b) (λ w. record w { balance = n })
        (at_account-set a n) wallets in
    elim (Option-cases (find_if (at_account a) wallets)) [
      | inl e ↦ ground (arith, e, moved)
      | inr (w, e) ↦ ground (arith, e, moved, wallet_found a wallets w e)
    ]

pub balance_of-append :
    (a b n : ℕ) (wallets : List Wallet)
    → balance_of a (wallets ++ record { account = b; balance = n } ∷ [])
      ≡ elim (balance_of a wallets) [ none ↦ if a == b then some n else none | some old ↦ some old ]
unfolding balance_of
balance_of-append a b n wallets =
    ground (arith, find_if-append_one (at_account a) (record { account = b; balance = n }) wallets)

ledger_sum-append :
    (a : ℕ) (e : LedgerEntry) (ledger : List LedgerEntry)
    → ledger_sum a (ledger ++ e ∷ [])
      ≡ (if e.target == a then ledger_sum a ledger +ℤ e.amount else ledger_sum a ledger)
ledger_sum-append a e [] = grind int_laws
ledger_sum-append a e (x ∷ ledger) = grind (int_laws, ledger_sum-append a e ledger)

-- A new balance with the entry that accounts for the difference.
set_balance-Settled :
    (b old new : ℕ) (e : LedgerEntry) (wallets : List Wallet) (ledger : List LedgerEntry)
    → balance_of b wallets ≡ some old
    → e.target ≡ b
    → pos new ≡ pos old +ℤ e.amount
    → Settled wallets ledger
    → Settled (set_balance b new wallets) (ledger ++ e ∷ [])
set_balance-Settled b old new e wallets ledger found target moved h a =
    grind (arith, h a, h b, balance_of-set_balance a b new wallets, ledger_sum-append a e ledger)

credit_amount : (old n : ℕ) → pos (old + n) ≡ pos old +ℤ pos n
credit_amount old n = omega int_laws

debit_amount : (old n : ℕ) → n ≤ old → pos (old - n) ≡ pos old +ℤ negative n
debit_amount old n h = omega int_laws

-- `UPDATE ... balance+?` and its ledger entry keep the books, for an account with a wallet.
pub credit-Settled :
    (actor b n old : ℕ) (reason : Reason) (wallets after : List Wallet) (ledger : List LedgerEntry)
    → balance_of b wallets ≡ some old
    → credit b n wallets ≡ some after
    → Settled wallets ledger
    → Settled after (ledger ++ entry actor b (pos n) reason ∷ [])
      × (balance_of b after ≡ some (old + n))
unfolding credit
credit-Settled actor b n old reason wallets after ledger found done h =
    let written : after ≡ set_balance b (old + n) wallets = ground arith in
    rw written (
      set_balance-Settled b old (old + n) (entry actor b (pos n) reason) wallets ledger found refl
          (credit_amount old n) h,
      ground (arith, balance_of-set_balance b b (old + n) wallets),
    )

pub debit-Settled :
    (actor b n old : ℕ) (reason : Reason) (wallets after : List Wallet) (ledger : List LedgerEntry)
    → balance_of b wallets ≡ some old
    → debit b n wallets ≡ some after
    → Settled wallets ledger
    → Settled after (ledger ++ entry actor b (negative n) reason ∷ [])
      × (balance_of b after ≡ some (old - n))
      × (n ≤ old)
unfolding debit
debit-Settled actor b n old reason wallets after ledger found done h =
    let written : after ≡ set_balance b (old - n) wallets = ground arith in
    let covered : n ≤ old = ground arith in
    rw written (
      set_balance-Settled b old (old - n) (entry actor b (negative n) reason) wallets ledger found
          refl (debit_amount old n covered) h,
      ground (arith, balance_of-set_balance b b (old - n) wallets),
      covered,
    )

pub credit-balance_of :
    (b n old : ℕ) (wallets after : List Wallet)
    → balance_of b wallets ≡ some old
    → credit b n wallets ≡ some after
    → balance_of b after ≡ some (old + n)
unfolding credit
credit-balance_of b n old wallets after found done =
    let written : after ≡ set_balance b (old + n) wallets = ground arith in
    rw written (ground (arith, balance_of-set_balance b b (old + n) wallets))

-- `INSERT ... ON DUPLICATE KEY UPDATE` needs no wallet: it opens one.
pub deposit-Settled :
    (actor b n : ℕ) (reason : Reason) (wallets after : List Wallet) (ledger : List LedgerEntry)
    → deposit b n wallets ≡ some after
    → Settled wallets ledger
    → Settled after (ledger ++ entry actor b (pos n) reason ∷ [])
      × (balance_of b after ≡ some (balance_or_0 (balance_of b wallets) + n))
unfolding deposit
deposit-Settled actor b n reason wallets after ledger done h =
    elim (Option-cases (balance_of b wallets)) [
      | inl missing ↦
          let written : after ≡ wallets ++ record { account = b; balance = n } ∷ [] =
            ground arith in
          rw written (
            (λ a. grind (
              int_laws,
              h a,
              h b,
              balance_of-append a b n wallets,
              ledger_sum-append a (entry actor b (pos n) reason) ledger,
            )),
            ground (arith, balance_of-append b b n wallets),
          )
      | inr (old, found) ↦
          let written : after ≡ set_balance b (old + n) wallets = ground arith in
          rw written (
            set_balance-Settled b old (old + n) (entry actor b (pos n) reason) wallets ledger found
                refl (credit_amount old n) h,
            ground (arith, balance_of-set_balance b b (old + n) wallets),
          )
    ]

-- The guarded debit reports whether it debited; if so the account had the credits.
pub debit_if_covered-Settled :
    (actor b n : ℕ) (reason : Reason) (wallets : List Wallet) (ledger : List LedgerEntry)
    → Settled wallets ledger
    → let (changed, after) = debit_if_covered b n wallets in
      ((changed ≡ 0) × (after ≡ wallets))
      ⊎ ((old : ℕ) × (balance_of b wallets ≡ some old)
          × (n ≤ old)
          × (changed ≡ 1)
          × (balance_of b after ≡ some (old - n))
          × Settled after (ledger ++ entry actor b (negative n) reason ∷ []))
unfolding debit_if_covered
debit_if_covered-Settled actor b n reason wallets ledger h =
    elim (Option-cases (balance_of b wallets)) [
      | inl missing ↦ inl (ground arith, ground arith)
      | inr (old, found) ↦ elim (Bool-cases (leb n old)) [
        | inl covered ↦
            let after : (debit_if_covered b n wallets).1 ≡ set_balance b (old - n) wallets =
              ground arith in
            inr (
              old,
              found,
              leb→le n old covered,
              ground arith,
              ground (arith, balance_of-set_balance b b (old - n) wallets),
              rw after (
                  set_balance-Settled b old (old - n) (entry actor b (negative n) reason) wallets
                    ledger found refl (debit_amount old n (leb→le n old covered)) h),
            )
        | inr short ↦ inl (ground arith, ground arith)
      ]
    ]
