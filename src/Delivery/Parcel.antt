-- ===== src/Delivery/Parcel.antt =====
-- internal/web/delivery.go: how the items of an order become mail attachments. A stack is the pair
-- that the source prints as "item:count".
pub mod Laws
use Prim.Native.Nat.{zero, suc}
use azeroth_core_web.Base.{
  ℕ, ◌-◌, List, [], ◌∷◌, Option, some, none, Text, codes, text_eq, ltb, ◌==◌, if◌then◌else◌, length,
  take, drop, ◌++◌,
}
use azeroth_core_web.Base.Int.{ℤ, pos, negsuc}

pub record Stack : Type 0 where
  pub item : ℕ
  pub count : ℕ

-- The loop `for remaining > 0`; a round takes at least one piece, so `remaining` rounds are enough.
stack_loop : ℕ → ℕ → ℕ → ℕ → List Stack
stack_loop zero item most remaining = []
stack_loop (suc rounds) item most remaining =
    let count = if ltb most remaining then most else remaining in
    let rest =
      record { item = item; count = count } ∷ stack_loop rounds item most (remaining - count) in
    if ltb 0 remaining then rest else []

-- `if stackable < 1 { stackable = 1 }`
at_least_one : ℤ → ℕ
at_least_one (pos zero) = 1
at_least_one (pos (suc n)) = suc n
at_least_one (negsuc n) = 1

unfoldable pub split_item_stacks : ℕ → ℕ → ℤ → List Stack
unfolding stack_loop at_least_one
split_item_stacks item quantity stackable =
    if quantity == 0 then [] else stack_loop quantity item (at_least_one stackable) quantity

-- Twelve attachments fit one mail; a round consumes twelve, so `length` rounds are enough.
chunk_loop {ℓ} : {A : Type ℓ} → ℕ → List A → List (List A)
chunk_loop zero stacks = []
chunk_loop (suc rounds) stacks =
    let rest = take 12 stacks ∷ chunk_loop rounds (drop 12 stacks) in
    if ltb 0 (length stacks) then rest else []

unfoldable pub chunk_mail_stacks {ℓ} : {A : Type ℓ} → List A → List (List A)
unfolding chunk_loop
chunk_mail_stacks stacks = chunk_loop (length stacks) stacks

-- The worldserver command for a bought service; `none` is the unsupported action.
unfoldable pub service_command : Text → Text → Option Text
service_command action name =
    if text_eq action []
    then some []
    else if text_eq action (codes "race_change")
    then some (codes "character changerace " ++ name)
    else if text_eq action (codes "faction_change")
    then some (codes "character changefaction " ++ name)
    else none
