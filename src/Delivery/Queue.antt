-- ===== src/Delivery/Queue.antt =====
-- internal/web/delivery.go: `claimOrder`, `fulfillOrder`, `reviewOrder` and a round of
-- `deliveryLoop`. The other databases and the worldserver are an `Env`; the metrics, the log and the
-- player's notification change none of the tables and are left out. `portal_orders` is held in the
-- order of its ids, so the first pending row is the one with the least id.
pub mod Once
use azeroth_core_web.Base.{
  ℕ, ◌+◌, ◌*◌, Bool, true, false, ◌&&◌, Option, none, some, List, [], ◌∷◌, ◌++◌, Text, text_eq,
  ◌==◌, ltb, if◌then◌else◌, map, codes, decimal, decimal2, join, take, contains_any, keep_if,
  find_if, update_if, contains_num,
}
use azeroth_core_web.Base.Int.{ℤ}
use azeroth_core_web.Db.{
  Conn, Exec, Result, ok, err, pure, fail, lift, update, query, attempt, transaction, stop_if,
  ◌>>=◌, ◌>>◌,
}
use azeroth_core_web.Tables.{Order, OrderItem, OrderStatus, Note}
use azeroth_core_web.Delivery.State.{State, is_pending, is_delivering}
use azeroth_core_web.Delivery.Parcel.{Stack, split_item_stacks, chunk_mail_stacks, service_command}
use azeroth_core_web.Delivery.Steps.{Run, run_order_step}
use azeroth_core_web.Delivery.Training.{TrainerSpell, prepare_level_80}

pub record Character : Type 0 where
  pub name : Text
  pub online : Bool
  pub class : ℕ

-- What the handlers ask of the characters and world databases and of the worldserver. A query that
-- fails finds nothing; the worldserver is told how many statements were sent before, so that its
-- answers may change.
pub record Env : Type 0 where
  pub realm_key : Text
  pub realm_name : Text
  pub character : ℕ → ℕ → Option Character
  pub stackable : ℕ → Option ℤ
  pub trainer_spells : ℕ → Option (List TrainerSpell)
  pub soap : ℕ → Text → Result Text Text

abbrev pub at_order : ℕ → Order → Bool
at_order id o = o.id == id

-- `WHERE status='pending' AND realm_key=?`
unfoldable pub claimable : Text → Order → Bool
claimable realm o = is_pending o.status && text_eq o.realm_key realm

abbrev pub claim_row : Order → Order
claim_row o = record o {
  status = OrderStatus.delivering;
  attempts = o.attempts + 1;
  note = Note.blank;
}

-- `claimOrder`; its errors all mean that there is nothing to do.
unfoldable pub claim_order : Text → Exec State Note Order
claim_order realm = transaction Note.blank Note.blank (do
  o ← query Note.blank (λ s. find_if (claimable realm) s.orders)
  update Note.blank (λ _. tt {0})
      (λ s. record s { orders = update_if (at_order o.id) claim_row s.orders })
  pure o)

abbrev pub delivering_at : ℕ → Order → Bool
delivering_at id o = (o.id == id) && is_delivering o.status

-- `UPDATE portal_orders SET ... WHERE id=? AND status='delivering'`, its error ignored
unfoldable pub leave_delivering : ℕ → (Order → Order) → Exec State Note Unit
leave_delivering id f = attempt (λ s. record s { orders = update_if (delivering_at id) f s.orders })

unfoldable pub review_order : ℕ → Note → Exec State Note Unit
review_order id note =
    leave_delivering id (λ o. record o { status = OrderStatus.review; note = note })

-- strings.ContainsAny(name, " \t\r\n\"\\")
abbrev pub unsafe_bytes : Text
unsafe_bytes = 32 ∷ 9 ∷ 13 ∷ 10 ∷ 34 ∷ 92 ∷ []

-- The replacer on the realm's name, and the cut at 80 bytes.
clean_realm : Text → Text
clean_realm [] = []
clean_realm (c ∷ s) =
    let rest = clean_realm s in
    if contains_num (34 ∷ 92 ∷ []) c
    then rest
    else (if contains_num (13 ∷ 10 ∷ []) c then 32 else c) ∷ rest

unfoldable pub realm_label : Text → Text
unfolding clean_realm
realm_label name = take 80 (clean_realm name)

-- `ORDER BY item_id`
insert_by_item : OrderItem → List OrderItem → List OrderItem
insert_by_item i [] = i ∷ []
insert_by_item i (j ∷ items) =
    let rest = insert_by_item i items in if ltb j.item_id i.item_id then j ∷ rest else i ∷ j ∷ items

unfoldable pub order_by_item : List OrderItem → List OrderItem
unfolding insert_by_item
order_by_item [] = []
order_by_item (i ∷ items) = insert_by_item i (order_by_item items)

-- The stacks of all items; an item that the world database lacks stops the order.
unfoldable pub gather : (ℕ → Option ℤ) → List OrderItem → Result Note (List Stack)
gather stackable [] = ok []
gather stackable (item ∷ items) = elim (stackable item.item_id) [
  | none ↦ err Note.item_unavailable
  | some most ↦ elim (gather stackable items) [
    | ok stacks ↦ ok (split_item_stacks item.item_id item.quantity most ++ stacks)
    | err e ↦ err e
  ]
]

pub record Command : Type 0 where
  pub key : Text
  pub kind : Text
  pub text : Text

print_stack : Stack → Text
print_stack s = decimal s.item ++ (codes ":" ++ decimal s.count)

subject : ℕ → Text → Text
subject id realm =
    codes " \"Portal order "
    ++ (decimal id ++ (codes "\" \"Thank you for supporting " ++ (realm ++ codes ".\" ")))

mail_commands : ℕ → Text → Text → ℕ → List (List Stack) → List Command
mail_commands id realm name index [] = []
mail_commands id realm name index (mail ∷ mails) =
    record {
      key = codes "items-" ++ decimal2 (index + 1);
      kind = codes "item_mail";
      text =
          codes "send items "
          ++ (name ++ (subject id realm ++ join (codes " ") (map print_stack mail)));
    }
    ∷ mail_commands id realm name (index + 1) mails

level_commands : ℕ → Text → List Command
level_commands level name =
    if ltb 0 level
    then record {
      key = codes "level";
      kind = codes "character_level";
      text = codes "character level " ++ (name ++ (codes " " ++ decimal level));
    }
      ∷ []
    else []

gold_commands : ℕ → Text → Text → ℕ → List Command
gold_commands id realm name gold =
    if ltb 0 gold
    then record {
      key = codes "money";
      kind = codes "money_mail";
      text = codes "send money " ++ (name ++ (subject id realm ++ decimal (gold * 10000)));
    }
      ∷ []
    else []

service_commands : Text → List Command
service_commands [] = []
service_commands (c ∷ s) =
    record { key = codes "service"; kind = codes "character_service"; text = c ∷ s } ∷ []

-- The commands of an order, in the order in which they run.
unfoldable pub order_commands : Text → Order → Text → List Stack → Text → List Command
unfolding mail_commands level_commands gold_commands service_commands subject print_stack
order_commands realm o name stacks service =
    mail_commands o.id realm name 0 (chunk_mail_stacks stacks)
    ++ (level_commands o.service_level name
        ++ (gold_commands o.id realm name o.gold ++ service_commands service))

-- `s.soapCommand`
abbrev pub soap_run : Env → Text → Run
soap_run env text c = (env.soap c.tick text, c)

unfoldable pub run_commands : Env → ℕ → List Command → Exec State Note Unit
run_commands env id [] = pure tt
run_commands env id (command ∷ commands) =
    run_order_step id command.key command.kind (soap_run env command.text)
    >> run_commands env id commands

-- The run of the training step.
unfoldable pub training_run : Env → ℕ → ℕ → Run
training_run env guid class c =
    let (r, c') = prepare_level_80 env.trainer_spells guid class c in
    (
      elim r [
        | ok _ ↦ ok (codes "Level 80 training applied")
        | err _ ↦ err (codes "training failed")
      ],
      c',
    )

-- Any error of the training step is reported as this one.
abbrev pub as_training_failed : Result Note (Unit {0}) → Result Note (Unit {0})
as_training_failed (ok a) = ok a
as_training_failed (err _) = err Note.training_failed

unfoldable pub training_step : Env → Order → ℕ → Exec State Note Unit
training_step env o class c =
    let (r, c') =
      run_order_step o.id (codes "training") (codes "level_80_training")
        (training_run env o.character class) c in
    (as_training_failed r, c')

unfoldable pub train_if_80 : Env → Order → ℕ → Exec State Note Unit
train_if_80 env o class = if o.service_level == 80 then training_step env o class else pure tt

abbrev pub or_error : {A : Type 0} → Note → Option A → Result Note A
or_error e none = err e
or_error e (some a) = ok a

-- `fulfillOrder` up to the end of its steps: the error is the message of the review.
unfoldable pub fulfil_steps : Env → Order → Exec State Note Unit
fulfil_steps env o = do
  who ← lift (or_error Note.no_character (env.character o.character o.account))
  stop_if who.online Note.online
  stop_if (contains_any who.name unsafe_bytes) Note.unsafe_name
  rows ←
      query Note.items_unread
        (λ s. some (order_by_item (keep_if (λ (i : OrderItem). i.order == o.id) s.items)))
  stacks ← lift (gather env.stackable rows)
  service ← lift (or_error Note.unsupported_service (service_command o.service_action who.name))
  run_commands env o.id (order_commands (realm_label env.realm_name) o who.name stacks service)
  train_if_80 env o who.class

unfoldable pub conclude : ℕ → Result Note (Unit {0}) → Exec State Note Unit
conclude id (err note) = review_order id note
conclude id (ok _) = leave_delivering id (λ o. record o { status = OrderStatus.delivered })

unfoldable pub fulfil_order : Env → Order → Exec State Note Unit
fulfil_order env o c = let (r, c') = fulfil_steps env o c in conclude o.id r c'

-- One tick of `deliveryLoop`: an order that was claimed is fulfilled.
unfoldable pub delivery_round : Env → Exec State Note Unit
delivery_round env = do o ← claim_order env.realm_key; fulfil_order env o

-- The first statement of `deliveryLoop`: what was being delivered when the portal stopped.
unfoldable pub interrupt_orders : Text → Exec State Note Unit
interrupt_orders realm = attempt (λ s. record s {
  orders =
      update_if (λ o. is_delivering o.status && text_eq o.realm_key realm)
        (λ o. record o { status = OrderStatus.review; note = Note.interrupted }) s.orders;
})
