-- ===== src/Console.antt =====
-- internal/web/console.go: commands that game masters send to the worldserver from the portal. The
-- worldserver is an argument; a text is its bytes.
pub mod Logged
use azeroth_core_web.Base.{
  zero, suc, count_if, ℕ, ◌+◌, ◌&&◌, ◌||◌, not, Bool, true, false, Option, none, some, List, [],
  ◌∷◌, ◌++◌, Text, text_eq, ◌==◌, ltb, leb, if◌then◌else◌, length, take, update_if, codes,
  trim_space, trim_prefix, has_prefix, to_lower,
}
use azeroth_core_web.Base.Int.{ℤ, pos, ltb_ℤ}
use azeroth_core_web.Http.{Problem, problem, or_problem}
use azeroth_core_web.Db.{
  Conn, Result, ok, err, Exec, update, attempt, stop_if, pure, fail, lift, ◌>>=◌, ◌>>◌,
}

-- A row of portal_command_log.
pub record CommandLog : Type 0 where
  pub id : ℕ
  pub actor : ℕ
  pub realm_key : Text
  pub command : Text
  pub response : Text
  pub success : Bool

-- The log and its next key. `runs` is no table: it lists the commands that the worldserver was sent.
pub record Console : Type 0 where
  pub logs : List CommandLog
  pub next_log : ℕ
  pub runs : List Text

pub record ConsoleConfig : Type 0 where
  pub realm : Text
  pub level : ℤ
  pub allow_all : Bool
  pub allowed : List Text
  pub soap_enabled : Bool

-- The level that `requireConsoleGM` asks for.
unfoldable pub required_level : ConsoleConfig → ℤ
required_level config =
    let required = if ltb_ℤ config.level (pos 1) then pos 3 else config.level in
    if config.allow_all && ltb_ℤ required (pos 3) then pos 3 else required

-- `requireConsoleGM`, of an account with a level
unfoldable pub may_use_console : ConsoleConfig → ℕ → Bool
may_use_console config level = not (ltb_ℤ (pos level) (required_level config))

unfoldable pub has_control : Text → Bool
has_control [] = false
has_control (c ∷ s) = ltb c 32 || (c == 127) || has_control s

-- `normalizeConsoleCommand`
unfoldable pub normalize_console_command : Text → Option Text
normalize_console_command text =
    let command = trim_space (trim_prefix (trim_space text) (codes ".")) in
    if text_eq command [] || ltb 255 (length command)
    then none
    else if has_control command
    then none
    else some command

-- A prefix up to the end of a word.
unfoldable pub at_word : Text → Text → Bool
at_word command prefix = text_eq command prefix || has_prefix command (prefix ++ 32 ∷ [])

abbrev pub plain_prefix : Text → Text
plain_prefix prefix = to_lower (trim_space (trim_prefix prefix (codes ".")))

unfoldable pub any_prefix : Text → List Text → Bool
any_prefix command [] = false
any_prefix command (prefix ∷ prefixes) =
    at_word command (plain_prefix prefix) || any_prefix command prefixes

-- `consoleCommandAllowed`
unfoldable pub console_command_allowed : Text → Bool → List Text → Bool
console_command_allowed command allow_all prefixes =
    if allow_all then true else any_prefix (to_lower command) prefixes

abbrev sensitive : List Text
sensitive =
    codes "account create"
    ∷ codes "account set password"
    ∷ codes "account set email"
    ∷ codes "account set regemail"
    ∷ []

-- The first of the sensitive commands that a text is.
unfoldable pub redacted_by : Text → Text → List Text → Text
redacted_by command lower [] = command
redacted_by command lower (s ∷ rest) =
    let other = redacted_by command lower rest in
    if at_word lower s then s ++ codes " [arguments redacted]" else other

-- `auditConsoleCommand`
unfoldable pub audit_console_command : Text → Text
audit_console_command command = redacted_by command (to_lower command) sensitive

-- A byte at which a rune of valid UTF-8 begins.
starts_rune : ℕ → Bool
starts_rune c = not (leb 128 c && leb c 191)

-- The bytes of the first n runes: `string([]rune(s)[:n])`
unfoldable pub take_runes : ℕ → Text → Text
unfolding starts_rune
take_runes n [] = []
take_runes zero (c ∷ s) = let rest = take_runes zero s in if starts_rune c then [] else c ∷ rest
take_runes (suc n) (c ∷ s) = c ∷ take_runes (if starts_rune c then n else suc n) s

-- `limitConsoleText`, of valid UTF-8
unfoldable pub limit_console_text : Text → Text
unfolding starts_rune
limit_console_text value =
    let text = trim_space value in
    if ltb 16000 (count_if starts_rune text)
    then take_runes 16000 text ++ (10 ∷ codes "[response truncated]")
    else text

abbrev pub pending_row : ℕ → Text → Text → Console → CommandLog
pending_row actor realm command s = record {
  id = s.next_log;
  actor = actor;
  realm_key = realm;
  command = audit_console_command command;
  response = codes "Pending";
  success = false;
}

-- `INSERT INTO portal_command_log`, with the row's key
abbrev pub log_command : ℕ → Text → Text → Console → Console
log_command actor realm command s = record s {
  logs = s.logs ++ pending_row actor realm command s ∷ [];
  next_log = s.next_log + 1;
}

-- The worldserver is sent a command and answers, or refuses it with a message.
unfoldable pub send_command :
    (Text → Result Text Text) → Text → Exec Console Problem (Result Text Text)
send_command world command c = (
  ok (world command),
  record c { tables = record c.tables { runs = c.tables.runs ++ command ∷ [] } },
)

abbrev pub answer_text : Result Text Text → Text
answer_text (ok response) = limit_console_text response
answer_text (err message) = limit_console_text message

abbrev pub or_no_output : Text → Text
or_no_output [] = codes "Command completed with no output."
or_no_output (c ∷ s) = c ∷ s

abbrev pub succeeded : Result Text Text → Bool
succeeded (ok response) = true
succeeded (err message) = false

abbrev pub log_answer : ℕ → Result Text Text → Console → Console
log_answer id answer s = record s {
  logs =
      update_if (λ (x : CommandLog). x.id == id)
        (λ x. record x { response = or_no_output (answer_text answer); success = succeeded answer })
        s.logs;
}

abbrev pub respond : Result Text Text → Exec Console Problem Text
respond (ok response) = pure (or_no_output (limit_console_text response))
respond (err message) =
    fail (problem 502 "Worldserver rejected the command; review the console audit log")

-- `adminConsoleExecute`, of an account with its level: the output
unfoldable pub admin_console_execute :
    ConsoleConfig → (Text → Result Text Text) → Option (ℕ × ℕ) → Text → Exec Console Problem Text
admin_console_execute config world caller text = do
  (actor, level) ← lift (or_problem caller (problem 403 "GM console access required"))
  stop_if (not (may_use_console config level)) (problem 403 "GM console access required")
  stop_if (not config.soap_enabled) (problem 503 "AzerothCore SOAP is not configured")
  command ← lift (
      or_problem (normalize_console_command text)
        (problem 422 "Command must contain 1–255 characters on one line"))
  stop_if (not (console_command_allowed command config.allow_all config.allowed))
      (problem 403 "Command is not included in GM_CONSOLE_ALLOWED_PREFIXES")
  id ←
      update (problem 500 "Could not create command audit entry") (λ s. s.next_log)
        (log_command actor config.realm command)
  answer ← send_command world command
  attempt (log_answer id answer)
  respond answer
