-- ===== src/Tables.antt =====
-- The rows of the portal's tables in acore_auth (internal/store/store.go), with the columns that the
-- modelled handlers read or write. Times that only record when a row changed are left out; a time
-- that a handler compares is a number of seconds. An unsigned column is a number; `Text` is a
-- string's bytes.
use azeroth_core_web.Base.{ℕ, Bool, Option, List, Text}
use azeroth_core_web.Base.Int.{ℤ}

pub data OrderStatus : Type 0 where
  pending delivering delivered review failed refunded : OrderStatus

pub data StepStatus : Type 0 where
  pending executing completed failed : StepStatus

pub record Wallet : Type 0 where
  pub account : ℕ
  pub balance : ℕ

-- A row of portal_products, with its sale window and its flags.
pub record Product : Type 0 where
  pub id : ℕ
  pub realm_key : Text
  pub item_id : ℕ
  pub quantity : ℕ
  pub price : ℕ
  pub category : Text
  pub class_id : ℕ
  pub tier : Text
  pub service_level : ℕ
  pub gold : ℕ
  pub service_action : Text
  pub per_account_limit : ℕ
  pub sale_price : ℕ
  pub stock_limit : ℕ
  pub sold_count : ℕ
  pub variant_required : Bool
  pub bundle_id : ℕ
  pub active : Bool
  pub starts_at : Option ℕ
  pub ends_at : Option ℕ

pub record ItemQuantity : Type 0 where
  pub item_id : ℕ
  pub quantity : ℕ

-- Why an order waits for a person: the message that `reviewOrder` stores, or the empty one.
pub data Note : Type 0 where
  blank interrupted no_character online unsafe_name items_unread item_unavailable : Note
  unsupported_service step_uncreated step_unread step_uncertain step_unstarted : Note
  step_unclaimed step_failed step_unrecorded training_failed : Note

pub record Order : Type 0 where
  pub id : ℕ
  pub account : ℕ
  pub character : ℕ
  pub realm_key : Text
  pub product : ℕ
  pub total : ℕ
  pub subtotal : ℕ
  pub discount : ℕ
  pub coupon_code : Text
  pub status : OrderStatus
  pub note : Note
  pub attempts : ℕ
  pub service_level : ℕ
  pub gold : ℕ
  pub service_action : Text
  pub variant : ℕ

pub record OrderItem : Type 0 where
  pub order : ℕ
  pub item_id : ℕ
  pub quantity : ℕ

pub record OrderStep : Type 0 where
  pub order : ℕ
  pub key : Text
  pub kind : Text
  pub status : StepStatus
  pub attempts : ℕ
  pub response : Text

-- What the ledger's `reason` column says, before it is printed.
pub data Reason : Type 0 where
  order_purchase order_refund : ℕ → Reason
  gift_code stripe_checkout stripe_reversal dispute_won : Text → Reason
  verified_vote monthly_mission event_reward : Text → Reason

pub record LedgerEntry : Type 0 where
  pub actor : ℕ
  pub target : ℕ
  pub amount : ℤ
  pub reason : Reason

pub record CouponUse : Type 0 where
  pub coupon : ℕ
  pub account : ℕ
  pub order : ℕ

pub record Coupon : Type 0 where
  pub id : ℕ
  pub code : Text
  pub discount_percent : ℕ
  pub discount_credits : ℕ
  pub max_uses : ℕ
  pub per_account_limit : ℕ
  pub allow_sale : Bool
  pub min_subtotal : ℕ
  pub category : Text
  pub active : Bool
  pub starts_at : Option ℕ
  pub ends_at : Option ℕ

pub record StockMovement : Type 0 where
  pub realm_key : Text
  pub product : ℕ
  pub delta : ℤ
  pub kind : Text
  pub reference : ℕ
  pub actor : ℕ

pub record Audit : Type 0 where
  pub actor : ℕ
  pub action : Text
  pub target : Text

-- The rows of the characters database that training writes.
pub record Skill : Type 0 where
  pub guid : ℕ
  pub skill : ℕ
  pub value : ℕ
  pub max : ℕ

pub record LearnedSpell : Type 0 where
  pub guid : ℕ
  pub spell : ℕ
  pub spec_mask : ℕ

-- One fulfilment action that the realm was asked for, and whether it reported success.
pub record Send : Type 0 where
  pub order : ℕ
  pub key : Text
  pub confirmed : Bool

pub record ProductItem : Type 0 where
  pub product : ℕ
  pub item : ItemQuantity

pub record BundleItem : Type 0 where
  pub realm_key : Text
  pub bundle : ℕ
  pub item : ItemQuantity

pub record Variant : Type 0 where
  pub id : ℕ
  pub product : ℕ
  pub adjustment : ℤ
  pub active : Bool

pub record VariantItem : Type 0 where
  pub variant : ℕ
  pub item : ItemQuantity

pub record GiftCode : Type 0 where
  pub id : ℕ
  pub realm_key : Text
  pub code_hash : Text
  pub code_hint : Text
  pub credits : ℕ
  pub max_uses : ℕ
  pub used_count : ℕ
  pub expires_at : Option ℕ
  pub active : Bool

pub record GiftCodeUse : Type 0 where
  pub code : ℕ
  pub account : ℕ
  pub credits : ℕ

pub data PaymentStatus : Type 0 where
  paid partially_refunded refunded disputed chargeback reversal_review : PaymentStatus

pub record Payment : Type 0 where
  pub checkout : Text
  pub intent : Text
  pub realm_key : Text
  pub purchaser : ℕ
  pub recipient : ℕ
  pub credits : ℕ
  pub amount_total : ℕ
  pub status : PaymentStatus
  pub refunded_credits : ℕ
  pub dispute : Text

pub record PaymentEvent : Type 0 where
  pub event : Text
  pub checkout : Text
  pub account : ℕ
  pub credits : ℕ

pub record Gift : Type 0 where
  pub purchaser : ℕ
  pub recipient : ℕ
  pub checkout : Text
  pub credits : ℕ

pub record Webhook : Type 0 where
  pub event : Text
  pub kind : Text
  pub object : Text
  pub processed : Bool

pub record VoteSite : Type 0 where
  pub id : ℕ
  pub realm_key : Text
  pub slug : Text
  pub url : Text
  pub reward_credits : ℕ
  pub cooldown_minutes : ℕ
  pub active : Bool

pub record VoteClick : Type 0 where
  pub site : ℕ
  pub account : ℕ
  pub realm_key : Text

pub record VoteEvent : Type 0 where
  pub site : ℕ
  pub account : ℕ
  pub realm_key : Text
  pub event : Text
  pub credits : ℕ
  pub ip_hash : Option Text
  pub voted_at : ℕ

pub record Mission : Type 0 where
  pub id : ℕ
  pub realm_key : Text
  pub name : Text
  pub metric : Text
  pub target : ℕ
  pub reward_credits : ℕ
  pub active : Bool

pub record MissionClaim : Type 0 where
  pub mission : ℕ
  pub account : ℕ
  pub period : Text
  pub credits : ℕ

pub data EventStatus : Type 0 where
  scheduled cancelled completed : EventStatus

-- A row of portal_events, with its registration deadline and its reward.
pub record RealmEvent : Type 0 where
  pub id : ℕ
  pub realm_key : Text
  pub status : EventStatus
  pub starts_at : ℕ
  pub max_participants : ℕ
  pub signup_enabled : Bool
  pub registration_deadline : Option ℕ
  pub reward_credits : ℕ

pub data Attendance : Type 0 where
  registered attended no_show cancelled : Attendance

pub record Registration : Type 0 where
  pub event : ℕ
  pub account : ℕ
  pub character : ℕ
  pub status : Attendance

pub record EventGrant : Type 0 where
  pub event : ℕ
  pub account : ℕ
  pub credits : ℕ
  pub granted_by : ℕ
  pub reason : Text

-- Everything that the modelled handlers read or change. The tables are lists in the order of their
-- primary keys. `sends` is no table: it lists the fulfilment actions that the realm was asked for.
pub record State : Type 0 where
  pub wallets : List Wallet
  pub ledger : List LedgerEntry
  pub products : List Product
  pub product_items : List ProductItem
  pub bundle_items : List BundleItem
  pub variants : List Variant
  pub variant_items : List VariantItem
  pub coupons : List Coupon
  pub coupon_uses : List CouponUse
  pub movements : List StockMovement
  pub next_order : ℕ
  pub orders : List Order
  pub items : List OrderItem
  pub steps : List OrderStep
  pub audits : List Audit
  pub gift_codes : List GiftCode
  pub gift_code_uses : List GiftCodeUse
  pub payments : List Payment
  pub payment_events : List PaymentEvent
  pub gifts : List Gift
  pub webhooks : List Webhook
  pub vote_sites : List VoteSite
  pub vote_clicks : List VoteClick
  pub vote_events : List VoteEvent
  pub missions : List Mission
  pub mission_claims : List MissionClaim
  pub events : List RealmEvent
  pub registrations : List Registration
  pub event_grants : List EventGrant
  pub skills : List Skill
  pub spells : List LearnedSpell
  pub sends : List Send
