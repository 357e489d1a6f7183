-- ===== src/Delivery/Queue/Once.antt =====
-- internal/web/delivery.go: however the delivery rounds run, no fulfilment step is confirmed twice.
use azeroth_core_web.Base.{
  ℕ, ◌≡◌, refl, Option, none, some, List, [], ◌∷◌, Text, ◌||◌, ◌==◌, contains_num,
}
use azeroth_core_web.Db.{Result, ok, err}
use azeroth_core_web.Db.Keeps.{
  Keeps, Keeps-update, Keeps-attempt, Keeps-branch, Keeps-bind, keeps_rules,
}
use azeroth_core_web.Tables.{Order, OrderStep, Send, Note}
use azeroth_core_web.Delivery.State.{State}
use azeroth_core_web.Delivery.Training.{
  TrainingError, TrainerSpell, raise_skill, learn_spell, train_skills, learn_spells, training_body,
  train_with, train_rows, train_class, prepare_level_80, weapon_skills,
}
use azeroth_core_web.Delivery.Steps.{run_order_step}
use azeroth_core_web.Delivery.Steps.Once.{AtMostOnce, IsQuiet, run_order_step-AtMostOnce}
use azeroth_core_web.Delivery.Queue.{
  Env, Command, claim_order, leave_delivering, review_order, soap_run, run_commands, training_run,
  training_step, train_if_80, fulfil_steps, conclude, fulfil_order, delivery_round,
  interrupt_orders,
}

-- The steps and the log are the given ones.
abbrev HasSteps : List OrderStep → List Send → State → Type 0
HasSteps steps sends s = (s.steps ≡ steps) × (s.sends ≡ sends)

module _ (steps : List OrderStep) (sends : List Send) where
  train_skills-Keeps :
      (guid : ℕ) (skills : List ℕ) → Keeps (HasSteps steps sends) (train_skills guid skills)
  unfolding train_skills
  train_skills-Keeps guid [] = search keeps_rules
  train_skills-Keeps guid (skill ∷ skills) =
      let first =
        Keeps-update {I = HasSteps steps sends} TrainingError.skill_failed (λ _. tt {0})
          (λ (s : State). record s { skills = raise_skill guid skill 400 s.skills }) (λ s h. h) in
      search (keeps_rules, train_skills-Keeps guid skills, first)

  learn_spells-Keeps :
      (guid : ℕ) (seen spells : List ℕ)
      → Keeps (HasSteps steps sends) (learn_spells guid seen spells)
  unfolding learn_spells
  learn_spells-Keeps guid seen [] = search keeps_rules
  learn_spells-Keeps guid seen (spell ∷ spells) =
      let first =
        Keeps-update {I = HasSteps steps sends} TrainingError.spell_failed (λ _. tt {0})
          (λ (s : State). record s { spells = learn_spell guid spell s.spells }) (λ s h. h) in
      Keeps-branch ((spell == 0) || contains_num seen spell) _ _
        (learn_spells-Keeps guid seen spells)
        (Keeps-bind _ _ first (λ _. learn_spells-Keeps guid (spell ∷ seen) spells))

  training_body-Keeps :
      (guid : ℕ) (skills spells : List ℕ)
      → Keeps (HasSteps steps sends) (training_body guid skills spells)
  unfolding training_body
  training_body-Keeps guid skills spells =
      search (keeps_rules, Keeps-update, train_skills-Keeps, learn_spells-Keeps)

  train_with-Keeps :
      (guid : ℕ) (skills : List ℕ) (rows : List TrainerSpell)
      → Keeps (HasSteps steps sends) (train_with guid skills rows)
  unfolding train_with
  train_with-Keeps guid skills rows = search (keeps_rules, training_body-Keeps)

  train_rows-Keeps :
      (guid : ℕ) (skills : List ℕ) (rows : Option (List TrainerSpell))
      → Keeps (HasSteps steps sends) (train_rows guid skills rows)
  unfolding train_rows
  train_rows-Keeps guid skills none = search keeps_rules
  train_rows-Keeps guid skills (some rows) = train_with-Keeps guid skills rows

  train_class-Keeps :
      (guid : ℕ) (rows : Option (List TrainerSpell)) (skills : Option (List ℕ))
      → Keeps (HasSteps steps sends) (train_class guid rows skills)
  unfolding train_class
  train_class-Keeps guid rows none = search keeps_rules
  train_class-Keeps guid rows (some skills) = train_rows-Keeps guid skills rows

  prepare_level_80-Keeps :
      (trainer_spells : ℕ → Option (List TrainerSpell)) (guid class : ℕ)
      → Keeps (HasSteps steps sends) (prepare_level_80 trainer_spells guid class)
  unfolding prepare_level_80
  prepare_level_80-Keeps trainer_spells guid class =
      train_class-Keeps guid (trainer_spells class) (weapon_skills class)

soap_run-IsQuiet : (env : Env) (text : Text) → IsQuiet (soap_run env text)
soap_run-IsQuiet env text c = (refl, refl)

training_run-IsQuiet : (env : Env) (guid class : ℕ) → IsQuiet (training_run env guid class)
unfolding training_run
training_run-IsQuiet env guid class c =
    (prepare_level_80-Keeps c.tables.steps c.tables.sends env.trainer_spells guid class).at c
      (refl, refl)

soap_step :
    (env : Env) (id : ℕ) (command : Command)
    → Keeps AtMostOnce (run_order_step id command.key command.kind (soap_run env command.text))
soap_step env id command = record {
  at = λ c h.
      run_order_step-AtMostOnce id command.key command.kind (soap_run env command.text) c
        (soap_run-IsQuiet env command.text) h;
}

run_commands-Keeps :
    (env : Env) (id : ℕ) (commands : List Command) → Keeps AtMostOnce (run_commands env id commands)
unfolding run_commands
run_commands-Keeps env id [] = search keeps_rules
run_commands-Keeps env id (command ∷ commands) =
    search (keeps_rules, soap_step env id command, run_commands-Keeps env id commands)

leave_delivering-Keeps : (id : ℕ) (f : Order → Order) → Keeps AtMostOnce (leave_delivering id f)
unfolding leave_delivering
leave_delivering-Keeps id f = Keeps-attempt _ (λ s h. h)

training_step-Keeps :
    (env : Env) (o : Order) (class : ℕ) → Keeps AtMostOnce (training_step env o class)
unfolding training_step
training_step-Keeps env o class = record {
  at = λ c h.
      run_order_step-AtMostOnce o.id _ _ (training_run env o.character class) c
        (training_run-IsQuiet env o.character class) h;
}

train_if_80-Keeps : (env : Env) (o : Order) (class : ℕ) → Keeps AtMostOnce (train_if_80 env o class)
unfolding train_if_80
train_if_80-Keeps env o class = search (keeps_rules, training_step-Keeps)

fulfil_steps-Keeps : (env : Env) (o : Order) → Keeps AtMostOnce (fulfil_steps env o)
unfolding fulfil_steps
fulfil_steps-Keeps env o = search (keeps_rules, run_commands-Keeps, train_if_80-Keeps) depth 20

conclude-Keeps : (id : ℕ) (r : Result Note (Unit {0})) → Keeps AtMostOnce (conclude id r)
unfolding conclude review_order
conclude-Keeps id (err note) = leave_delivering-Keeps id _
conclude-Keeps id (ok _) = leave_delivering-Keeps id _

fulfil_order-Keeps : (env : Env) (o : Order) → Keeps AtMostOnce (fulfil_order env o)
unfolding fulfil_order
fulfil_order-Keeps env o = record {
  at = λ c h.
      let (r, c') = fulfil_steps env o c in
      (conclude-Keeps o.id r).at c' ((fulfil_steps-Keeps env o).at c h);
}

claim_order-Keeps : (realm : Text) → Keeps AtMostOnce (claim_order realm)
unfolding claim_order
claim_order-Keeps realm = search (keeps_rules, Keeps-update) depth 10

-- One tick of the delivery loop keeps the bound on the confirmed steps.
pub delivery_round-Keeps : (env : Env) → Keeps AtMostOnce (delivery_round env)
unfolding delivery_round
delivery_round-Keeps env = search (keeps_rules, claim_order-Keeps, fulfil_order-Keeps)

pub interrupt_orders-Keeps : (realm : Text) → Keeps AtMostOnce (interrupt_orders realm)
unfolding interrupt_orders
interrupt_orders-Keeps realm = Keeps-attempt _ (λ s h. h)
