-- ===== src/Billing/Gifts.antt =====
-- internal/web/gift_codes.go, `redeemGiftCode` of a signed-in account. The hash of the code is an
-- argument: SHA-256 is a library's. The balance that the response reports is left out, and so is
-- the mock mode.
pub mod Books
use azeroth_core_web.Base.{
  ℕ, ◌+◌, ◌&&◌, ◌||◌, not, Bool, true, false, Option, none, some, List, [], ◌∷◌, ◌++◌, Text,
  text_eq, ◌==◌, ltb, leb, if◌then◌else◌, find_if, count_if, update_if, keep_if, trim_space,
  to_upper,
}
use azeroth_core_web.Base.Int.{pos}
use azeroth_core_web.Http.{Problem, problem}
use azeroth_core_web.Db.{Exec, exec, update, query, transaction, stop_if, pure, ◌>>=◌, ◌>>◌}
use azeroth_core_web.Tables.{State, GiftCode, GiftCodeUse, Reason}
use azeroth_core_web.Wallet.{deposit, entry, with_wallets}

abbrev pub code_here : Text → Text → GiftCode → Bool
code_here realm hash g = text_eq g.code_hash hash && text_eq g.realm_key realm

-- `!code.Active || (code.ExpiresAt != nil && !code.ExpiresAt.After(time.Now())) || code.UsedCount >= code.MaxUses`
unfoldable pub is_spent : ℕ → GiftCode → Bool
is_spent now g =
    not g.active
    || elim g.expires_at [ none ↦ false | some t ↦ leb t now ]
    || leb g.max_uses g.used_count

-- `INSERT INTO portal_gift_code_uses`: the code and the account are the primary key.
unfoldable pub insert_use : ℕ → ℕ → ℕ → State → Option (Unit {0} × State)
insert_use code account credits s =
    if ltb 0
      (count_if (λ (u : GiftCodeUse). (u.code == code) && (u.account == account)) s.gift_code_uses)
    then none
    else some (
      tt,
      record s {
        gift_code_uses =
            s.gift_code_uses ++ record { code = code; account = account; credits = credits } ∷ [];
      },
    )

abbrev pub count_use : GiftCode → GiftCode
count_use g = record g { used_count = g.used_count + 1 }

unfoldable pub redeem_body : Text → ℕ → ℕ → Text → Exec State Problem ℕ
redeem_body realm now account hash = do
  g ←
      query (problem 422 "Gift code is invalid, expired, or exhausted")
        (λ s. find_if (code_here realm hash) s.gift_codes)
  stop_if (is_spent now g) (problem 422 "Gift code is invalid, expired, or exhausted")
  exec (problem 409 "This code was already redeemed by your account")
      (insert_use g.id account g.credits)
  update (problem 500 "Could not redeem gift code") (λ _. tt {0})
      (λ s. record s {
        gift_codes = update_if (λ (x : GiftCode). x.id == g.id) count_use s.gift_codes;
      })
  exec (problem 500 "Could not redeem gift code")
      (λ s. with_wallets s (deposit account g.credits s.wallets))
  update (problem 500 "Could not redeem gift code") (λ _. tt {0})
      (λ s. record s {
        ledger = s.ledger ++ entry 0 account (pos g.credits) (Reason.gift_code []) ∷ [];
      })
  pure g.credits

-- `normalizeGiftCode`: no white space round it, no blanks inside, in upper case
unfoldable pub normalize_gift_code : Text → Text
normalize_gift_code value = to_upper (keep_if (λ c. not (c == 32)) (trim_space value))

-- `redeemGiftCode`: the credits that the account got
unfoldable pub redeem_gift_code : (Text → Text) → Text → ℕ → ℕ → Text → Exec State Problem ℕ
redeem_gift_code sha256 realm now account code =
    transaction (problem 503 "Database unavailable") (problem 500 "Could not redeem gift code")
      (redeem_body realm now account (sha256 (normalize_gift_code code)))
