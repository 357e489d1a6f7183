-- ===== src/Billing/Gifts/Books.antt =====
-- internal/web/gift_codes.go, `redeemGiftCode`: what a redemption does to the books.
use azeroth_core_web.Base.{
  ℕ, ◌≡◌, refl, false, ◌&&◌, some, List, [], ◌∷◌, ◌++◌, Text, ◌==◌, arith, find_if, count_if,
  update_if,
}
use azeroth_core_web.Base.Int.{pos}
use azeroth_core_web.Db.{Conn, Result, ok, err}
use azeroth_core_web.Db.Rules.{exec-bind, query-bind, update-bind, stop_if-bind, pure_end}
use azeroth_core_web.Db.Atomic.{OnOk, AllOrNothing, transaction-AllOrNothing}
use azeroth_core_web.Http.{Problem}
use azeroth_core_web.Tables.{State, GiftCode, GiftCodeUse, Reason, Wallet}
use azeroth_core_web.Wallet.{deposit, entry, with_wallets_eq}
use azeroth_core_web.Wallet.Settled.{Settled, deposit-Settled}
use azeroth_core_web.Billing.Gifts.{
  code_here, is_spent, insert_use, count_use, redeem_body, redeem_gift_code, normalize_gift_code,
}

-- What a redemption that goes through has found and done.
pub record IsRedeemed (realm : Text) (now account : ℕ) (hash : Text) (s : State) (credits : ℕ)
    (t : State) : Type 0 where
  pub code : GiftCode
  pub found : find_if (code_here realm hash) s.gift_codes ≡ some code
  pub fresh : is_spent now code ≡ false
  pub worth : credits ≡ code.credits
  pub once :
      count_if (λ (u : GiftCodeUse). (u.code == code.id) && (u.account == account)) s.gift_code_uses
      ≡ 0
  pub noted :
      t.gift_code_uses
      ≡ s.gift_code_uses ++ record { code = code.id; account = account; credits = credits } ∷ []
  pub counted : t.gift_codes ≡ update_if (λ (x : GiftCode). x.id == code.id) count_use s.gift_codes
  pub paid : deposit account credits s.wallets ≡ some t.wallets
  pub booked : t.ledger ≡ s.ledger ++ entry 0 account (pos credits) (Reason.gift_code []) ∷ []

insert_use_eq :
    (code account credits : ℕ) (s t : State) (a : Unit {0})
    → insert_use code account credits s ≡ some (a, t)
    → (count_if (λ (u : GiftCodeUse). (u.code == code) && (u.account == account)) s.gift_code_uses
        ≡ 0)
      × (t ≡ record s {
        gift_code_uses =
            s.gift_code_uses ++ record { code = code; account = account; credits = credits } ∷ [];
      })
unfolding insert_use
insert_use_eq code account credits s t a h = (ground arith, ground arith)

redeemed :
    (realm : Text) (now account : ℕ) (hash : Text) (s t u : State) (g : GiftCode)
    (wallets : List Wallet)
    → find_if (code_here realm hash) s.gift_codes ≡ some g
    → is_spent now g ≡ false
    → count_if (λ (x : GiftCodeUse). (x.code == g.id) && (x.account == account)) s.gift_code_uses
      ≡ 0
    → t ≡ record s {
      gift_code_uses =
          s.gift_code_uses ++ record { code = g.id; account = account; credits = g.credits } ∷ [];
    }
    → deposit account g.credits t.wallets ≡ some wallets
    → u ≡ record t {
      gift_codes = update_if (λ (x : GiftCode). x.id == g.id) count_use t.gift_codes;
      wallets = wallets;
    }
    → IsRedeemed realm now account hash s g.credits (record u {
      ledger = u.ledger ++ entry 0 account (pos g.credits) (Reason.gift_code []) ∷ [];
    })
redeemed realm now account hash s t u g wallets found fresh once noted paid moved =
    rw (moved, noted)
      (record {
        code = g;
        found = found;
        fresh = fresh;
        worth = refl;
        once = once;
        noted = refl;
        counted = refl;
        paid = rw noted at paid;
        booked = refl;
      })

redeem_body-IsRedeemed :
    (realm : Text) (now account : ℕ) (hash : Text) (c : Conn State)
    → OnOk (IsRedeemed realm now account hash c.tables) (redeem_body realm now account hash c)
unfolding redeem_body
redeem_body-IsRedeemed realm now account hash c =
    let P = OnOk {E = Problem} (IsRedeemed realm now account hash c.tables) in
    query-bind P _ _ _ c tt λ g found.
      stop_if-bind P _ _ _ _ (λ _. tt)
        λ fresh. exec-bind P _ _ _ _ tt λ a t inserted.
          let (once, noted) = insert_use_eq g.id account g.credits c.tables t a inserted in
          update-bind P _ _ _ _ _ tt (
            exec-bind P _ _ _ _ tt λ b u paid.
              let (wallets, deposited, moved) =
                with_wallets_eq
                  (record t {
                    gift_codes = update_if (λ (x : GiftCode). x.id == g.id) count_use t.gift_codes;
                  })
                  _ paid in
              update-bind P _ _ _ _ _ tt (
                pure_end P _ _ (
                  redeemed realm now account hash c.tables t u g wallets found fresh once noted
                    deposited moved)))

-- A redemption is all or nothing. If it goes through, the code was active, not expired and not used up,
-- the account had not used it before, its credits are on the wallet with a ledger entry, and the use
-- is counted; if it stops, for whatever reason, no table has changed.
pub redeem_gift_code-AllOrNothing :
    (sha256 : Text → Text) (realm : Text) (now account : ℕ) (code : Text) (c : Conn State)
    → AllOrNothing c.tables
        (IsRedeemed realm now account (sha256 (normalize_gift_code code)) c.tables)
        (redeem_gift_code sha256 realm now account code c)
unfolding redeem_gift_code
redeem_gift_code-AllOrNothing sha256 realm now account code c =
    transaction-AllOrNothing
      (IsRedeemed realm now account (sha256 (normalize_gift_code code)) c.tables) _ _
      (redeem_body realm now account (sha256 (normalize_gift_code code))) c
      (redeem_body-IsRedeemed realm now account (sha256 (normalize_gift_code code)) _)

-- A redemption keeps the books: if every balance was the sum of the ledger's entries of its account,
-- so it is afterwards, whether the redemption went through or not.
pub redeem_gift_code-Settled :
    (sha256 : Text → Text) (realm : Text) (now account : ℕ) (code : Text) (c : Conn State)
    → Settled c.tables.wallets c.tables.ledger
    → let t = (redeem_gift_code sha256 realm now account code c).1.tables in
      Settled t.wallets t.ledger
redeem_gift_code-Settled sha256 realm now account code c h =
    settled_outcome (redeem_gift_code sha256 realm now account code c)
      (redeem_gift_code-AllOrNothing sha256 realm now account code c)
  where
    settled_outcome :
        (o : Result Problem ℕ × Conn State)
        → AllOrNothing c.tables
            (IsRedeemed realm now account (sha256 (normalize_gift_code code)) c.tables)
            o
        → Settled o.1.tables.wallets o.1.tables.ledger
    settled_outcome (ok credits, d) done =
        rw done.booked
          (deposit-Settled 0 account credits (Reason.gift_code []) c.tables.wallets d.tables.wallets
            c.tables.ledger done.paid h).0
    settled_outcome (err e, d) same = rw same h
