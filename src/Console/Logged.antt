-- ===== src/Console/Logged.antt =====
-- internal/web/console.go, `adminConsoleExecute`: what reaches the worldserver.
use azeroth_core_web.Base.{
  ℕ, ◌≡◌, ◌∙◌, refl, Bool, true, ◌⊎◌, inl, inr, Option, none, some, List, [], ◌∷◌, ◌++◌, Text,
  arith, update_if,
}
use azeroth_core_web.Db.{Conn, Result, Exec, ok, err, ◌>>=◌}
use azeroth_core_web.Db.Rules.{
  update-bind, stop_if-bind, lift-bind, attempt-bind, pure_end, fail_end,
}
use azeroth_core_web.Http.{Problem, or_problem}
use azeroth_core_web.Console.{
  Console, ConsoleConfig, CommandLog, may_use_console, normalize_console_command,
  console_command_allowed, pending_row, log_command, send_command, log_answer, respond,
  admin_console_execute,
}

abbrev log_ids : List CommandLog → List (ℕ × ℕ × Text)
log_ids [] = []
log_ids (x ∷ logs) = (x.id, x.actor, x.command) ∷ log_ids logs

-- A command that the worldserver was sent: who sent it may, it is one line and allowed, and the log has
-- a new row with the account and the audited command.
pub record IsLogged (config : ConsoleConfig) (caller : Option (ℕ × ℕ)) (text : Text) (s t : Console)
    : Type 0 where
  pub actor : ℕ
  pub level : ℕ
  pub who : caller ≡ some (actor, level)
  pub granted : may_use_console config level ≡ true
  pub command : Text
  pub normal : normalize_console_command text ≡ some command
  pub allowed : console_command_allowed command config.allow_all config.allowed ≡ true
  pub sent : t.runs ≡ s.runs ++ command ∷ []
  pub logged : log_ids t.logs ≡ log_ids (s.logs ++ pending_row actor config.realm command s ∷ [])

-- Nothing was sent, or one command that is logged.
abbrev pub SendsLogged : ConsoleConfig → Option (ℕ × ℕ) → Text → Console → Console → Type 0
SendsLogged config caller text s t =
    ((t.runs ≡ s.runs) × (t.logs ≡ s.logs)) ⊎ IsLogged config caller text s t

send_command-bind :
    {B : Type 0} (P : Result Problem B × Conn Console → Type 0) (world : Text → Result Text Text)
    (command : Text) (g : Result Text Text → Exec Console Problem B) (c : Conn Console)
    → P (
        g
          (world command)
          (record c { tables = record c.tables { runs = c.tables.runs ++ command ∷ [] } }))
    → P ((send_command world command >>= g) c)
unfolding send_command ◌>>=◌
send_command-bind P world command g c h = h

log_ids-update :
    (p : CommandLog → Bool) (f : CommandLog → CommandLog) (logs : List CommandLog)
    → ((x : CommandLog) → (f x).id ≡ x.id)
    → ((x : CommandLog) → (f x).actor ≡ x.actor)
    → ((x : CommandLog) → (f x).command ≡ x.command)
    → log_ids (update_if p f logs) ≡ log_ids logs
unfolding update_if
log_ids-update p f [] a b d = refl
log_ids-update p f (x ∷ logs) a b d = ground (arith, a x, b x, d x, log_ids-update p f logs a b d)

answered-IsLogged :
    (config : ConsoleConfig) (caller : Option (ℕ × ℕ)) (text : Text) (s t : Console) (id : ℕ)
    (answer : Result Text Text)
    → IsLogged config caller text s t
    → IsLogged config caller text s (log_answer id answer t)
answered-IsLogged config caller text s t id answer h = record {
  actor = h.actor;
  level = h.level;
  who = h.who;
  granted = h.granted;
  command = h.command;
  normal = h.normal;
  allowed = h.allowed;
  sent = h.sent;
  logged = log_ids-update _ _ t.logs (λ x. refl) (λ x. refl) (λ x. refl) ∙ h.logged;
}

module _ (config : ConsoleConfig) (caller : Option (ℕ × ℕ)) (text : Text) (s : Console) where
  abbrev Outcome : Result Problem Text × Conn Console → Type 0
  Outcome r = SendsLogged config caller text s r.1.tables

  respond-end :
      (answer : Result Text Text) (c : Conn Console)
      → SendsLogged config caller text s c.tables
      → Outcome (respond answer c)
  respond-end (ok response) c h = pure_end Outcome _ c h
  respond-end (err message) c h = fail_end Outcome _ c h

or_problem_ok :
    {A : Type 0} (o : Option A) (p : Problem) (a : A) → or_problem o p ≡ ok a → o ≡ some a
or_problem_ok none p a h = cc
or_problem_ok (some b) p a h = cc

-- No command reaches the worldserver unlogged. A request sends either nothing, and then the log is as
-- it was, or one command: one line that the configuration allows, of an account whose level suffices, and
-- then the log has one new row, with the account and the audited command; this holds whichever statements
-- fail and whatever the worldserver answers.
pub admin_console_execute-SendsLogged :
    (config : ConsoleConfig) (world : Text → Result Text Text) (caller : Option (ℕ × ℕ))
    (text : Text) (c : Conn Console)
    → SendsLogged config caller text c.tables
        (admin_console_execute config world caller text c).1.tables
unfolding admin_console_execute
admin_console_execute-SendsLogged config world caller text c =
    let P = Outcome config caller text c.tables in
    let nothing : SendsLogged config caller text c.tables c.tables = inl (refl, refl) in
    lift-bind P _ _ c (λ _ _. nothing)
      λ (actor, level) who.
        stop_if-bind P _ _ _ _ (λ _. nothing)
          λ granted.
            stop_if-bind P _ _ _ _ (λ _. nothing)
              λ _.
                lift-bind P _ _ _ (λ _ _. nothing)
                  λ command normal.
                    stop_if-bind P _ _ _ _ (λ _. nothing)
                      λ allowed. update-bind P _ _ _ _ _ nothing (
                        send_command-bind P world command _ _ (
                          let done : IsLogged config caller text c.tables
                              (record (log_command actor config.realm command c.tables) {
                                runs = c.tables.runs ++ command ∷ [];
                              }) =
                            record {
                              actor = actor;
                              level = level;
                              who = or_problem_ok caller _ (actor, level) who;
                              granted = ground (arith, granted);
                              command = command;
                              normal =
                                  or_problem_ok (normalize_console_command text) _ command normal;
                              allowed = ground (arith, allowed);
                              sent = refl;
                              logged = refl;
                            } in
                          attempt-bind P _ _ _
                            (respond-end config caller text c.tables _ _ (inr done))
                            (respond-end config caller text c.tables _ _
                              (inr (answered-IsLogged config caller text c.tables _ _ _ done)))))
