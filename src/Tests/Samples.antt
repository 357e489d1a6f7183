-- ===== src/Tests/Samples.antt =====
-- A realm with one account, one product and one waiting order.
use azeroth_core_web.Base.{true, false, none, List, [], ◌∷◌, Text, codes}
use azeroth_core_web.Base.Int.{pos}
use azeroth_core_web.Db.{Conn}
use azeroth_core_web.Tables.{
  State, Wallet, LedgerEntry, Reason, Product, Coupon, Order, OrderStatus, Note, GiftCode, Payment,
  PaymentStatus, VoteSite, Mission, RealmEvent, EventStatus, Registration, Attendance,
}

abbrev pub realm : Text
realm = codes "main"

abbrev product : Product
product = record {
  id = 5;
  realm_key = realm;
  item_id = 19019;
  quantity = 2;
  price = 300;
  category = codes "Items";
  class_id = 0;
  tier = [];
  service_level = 0;
  gold = 0;
  service_action = [];
  per_account_limit = 1;
  sale_price = 0;
  stock_limit = 3;
  sold_count = 1;
  variant_required = false;
  bundle_id = 0;
  active = true;
  starts_at = none;
  ends_at = none;
}

abbrev pub coupon : Coupon
coupon = record {
  id = 9;
  code = codes "SAVE10";
  discount_percent = 10;
  discount_credits = 5;
  max_uses = 0;
  per_account_limit = 1;
  allow_sale = false;
  min_subtotal = 0;
  category = [];
  active = true;
  starts_at = none;
  ends_at = none;
}

abbrev order : Order
order = record {
  id = 1;
  account = 7;
  character = 40;
  realm_key = realm;
  product = 6;
  total = 100;
  subtotal = 100;
  discount = 0;
  coupon_code = [];
  status = OrderStatus.pending;
  note = Note.blank;
  attempts = 0;
  service_level = 70;
  gold = 0;
  service_action = [];
  variant = 0;
}

abbrev gift_code : GiftCode
gift_code = record {
  id = 3;
  realm_key = realm;
  code_hash = codes "GIFT";
  code_hint = [];
  credits = 50;
  max_uses = 1;
  used_count = 0;
  expires_at = none;
  active = true;
}

abbrev pub payment : Payment
payment = record {
  checkout = codes "cs_1";
  intent = codes "pi_1";
  realm_key = realm;
  purchaser = 7;
  recipient = 7;
  credits = 400;
  amount_total = 1000;
  status = PaymentStatus.paid;
  refunded_credits = 0;
  dispute = [];
}

abbrev pub wallets : List Wallet
wallets = record { account = 7; balance = 500 } ∷ []

abbrev pub ledger : List LedgerEntry
ledger = record { actor = 0; target = 7; amount = pos 500; reason = Reason.stripe_checkout [] } ∷ []

abbrev pub vote_site : VoteSite
vote_site = record {
  id = 3;
  realm_key = realm;
  slug = codes "top";
  url = codes "https://top.example";
  reward_credits = 20;
  cooldown_minutes = 720;
  active = true;
}

abbrev pub mission : Mission
mission = record {
  id = 4;
  realm_key = realm;
  name = codes "Votes";
  metric = codes "verified_votes";
  target = 2;
  reward_credits = 30;
  active = true;
}

abbrev pub event : RealmEvent
event = record {
  id = 9;
  realm_key = realm;
  status = EventStatus.scheduled;
  starts_at = 5000;
  max_participants = 2;
  signup_enabled = true;
  registration_deadline = none;
  reward_credits = 15;
}

abbrev pub registration : Registration
registration = record { event = 9; account = 7; character = 70; status = Attendance.attended }

abbrev pub tables : State
tables = record {
  wallets = wallets;
  ledger = ledger;
  products = product ∷ (record product { id = 6; stock_limit = 0 }) ∷ [];
  product_items = [];
  bundle_items = [];
  variants = [];
  variant_items = [];
  coupons = coupon ∷ [];
  coupon_uses = [];
  movements = [];
  next_order = 2;
  orders = order ∷ [];
  items = [];
  steps = [];
  audits = [];
  gift_codes = gift_code ∷ [];
  gift_code_uses = [];
  payments = payment ∷ [];
  payment_events = record { event = codes "evt_0"; checkout = []; account = 7; credits = 500 } ∷ [];
  gifts = [];
  webhooks = [];
  vote_sites = vote_site ∷ [];
  vote_clicks = [];
  vote_events = [];
  missions = mission ∷ [];
  mission_claims = [];
  events = event ∷ [];
  registrations = registration ∷ [];
  event_grants = [];
  skills = [];
  spells = [];
  sends = [];
}

abbrev pub conn : Conn State
conn = record { tables = tables; fault = λ _. false; tick = 0 }
