-- ===== src/Wallet.antt =====
-- portal_wallets and portal_credit_ledger: the statements that move credits, in the transactions of
-- internal/web/server.go, delivery.go, billing.go and gift_codes.go. A balance is an INT UNSIGNED:
-- MySQL refuses a write below 0 or above 2^32 - 1.
pub mod Settled
pub mod Payments
use azeroth_core_web.Base.{
  ℕ, ◌+◌, ◌-◌, ◌≡◌, refl, ◌&&◌, Bool, true, false, Option, none, some, List, [], ◌∷◌, ◌++◌, ◌==◌,
  ltb, leb, if◌then◌else◌, find_if, count_if, update_if,
}
use azeroth_core_web.Base.Int.{ℤ, pos, ◌-ℤ◌, ◌+ℤ◌}
use azeroth_core_web.Base.Words.{u32_mod}
use azeroth_core_web.Tables.{Wallet, LedgerEntry, Reason, State, Product}

abbrev pub at_account : ℕ → Wallet → Bool
at_account account w = w.account == account

-- `SELECT balance FROM portal_wallets WHERE account_id=?`
unfoldable pub balance_of : ℕ → List Wallet → Option ℕ
balance_of account wallets = elim (find_if (at_account account) wallets) [
  | none ↦ none
  | some w ↦ some w.balance
]

unfoldable pub set_balance : ℕ → ℕ → List Wallet → List Wallet
set_balance account balance = update_if (at_account account) (λ w. record w { balance = balance })

-- `UPDATE portal_wallets SET balance=balance+? WHERE account_id=?`: a missing row is no error.
credited : ℕ → ℕ → List Wallet → Option ℕ → Option (List Wallet)
credited account amount wallets none = some wallets
credited account amount wallets (some balance) =
    if ltb (balance + amount) u32_mod
    then some (set_balance account (balance + amount) wallets)
    else none

unfoldable pub credit : ℕ → ℕ → List Wallet → Option (List Wallet)
unfolding credited
credit account amount wallets = credited account amount wallets (balance_of account wallets)

-- `UPDATE portal_wallets SET balance=balance-? WHERE account_id=?`
debited : ℕ → ℕ → List Wallet → Option ℕ → Option (List Wallet)
debited account amount wallets none = some wallets
debited account amount wallets (some balance) =
    if leb amount balance then some (set_balance account (balance - amount) wallets) else none

unfoldable pub debit : ℕ → ℕ → List Wallet → Option (List Wallet)
unfolding debited
debit account amount wallets = debited account amount wallets (balance_of account wallets)

-- `UPDATE ... SET balance=balance-? WHERE account_id=? AND balance>=?`, with the rows it changed
debited_if : ℕ → ℕ → List Wallet → Option ℕ → ℕ × List Wallet
debited_if account amount wallets none = (0, wallets)
debited_if account amount wallets (some balance) =
    if leb amount balance then (1, set_balance account (balance - amount) wallets) else (0, wallets)

unfoldable pub debit_if_covered : ℕ → ℕ → List Wallet → ℕ × List Wallet
unfolding debited_if
debit_if_covered account amount wallets =
    debited_if account amount wallets (balance_of account wallets)

-- `INSERT INTO portal_wallets ... ON DUPLICATE KEY UPDATE balance=balance+VALUES(balance)`
deposited : ℕ → ℕ → List Wallet → Option ℕ → Option (List Wallet)
deposited account amount wallets none =
    if ltb amount u32_mod
    then some (wallets ++ record { account = account; balance = amount } ∷ [])
    else none
deposited account amount wallets (some balance) =
    if ltb (balance + amount) u32_mod
    then some (set_balance account (balance + amount) wallets)
    else none

unfoldable pub deposit : ℕ → ℕ → List Wallet → Option (List Wallet)
unfolding deposited
deposit account amount wallets = deposited account amount wallets (balance_of account wallets)

-- `INSERT INTO portal_credit_ledger(actor_account_id,target_account_id,amount,reason)`
abbrev pub entry : ℕ → ℕ → ℤ → Reason → LedgerEntry
entry actor target amount reason = record {
  actor = actor;
  target = target;
  amount = amount;
  reason = reason;
}

-- `-int64(n)`
abbrev pub negative : ℕ → ℤ
negative n = pos 0 -ℤ pos n

-- A statement on one table, as a statement on all of them.
abbrev pub with_wallets : State → Option (List Wallet) → Option (Unit {0} × State)
with_wallets s none = none
with_wallets s (some wallets) = some (tt, record s { wallets = wallets })

abbrev pub with_products : State → Option (List Product) → Option (Unit {0} × State)
with_products s none = none
with_products s (some products) = some (tt, record s { products = products })

pub with_wallets_eq :
    (s : State) {t : State} {a : Unit {0}} (w : Option (List Wallet))
    → with_wallets s w ≡ some (a, t)
    → (wallets : List Wallet) × (w ≡ some wallets) × (t ≡ record s { wallets = wallets })
with_wallets_eq s none h = cc
with_wallets_eq s (some wallets) h = (wallets, refl, cc)

pub with_products_eq :
    (s : State) {t : State} {a : Unit {0}} (p : Option (List Product))
    → with_products s p ≡ some (a, t)
    → (products : List Product) × (p ≡ some products) × (t ≡ record s { products = products })
with_products_eq s none h = cc
with_products_eq s (some products) h = (products, refl, cc)
