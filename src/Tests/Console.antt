-- ===== src/Tests/Console.antt =====
-- Commands of a game master of level 3, of which `server` and `account` are allowed.
use azeroth_core_web.Base.{
  count_if, ◌≡◌, refl, true, false, some, [], ◌∷◌, Text, codes, text_eq, lower, has_prefix,
  trim_space, trim_left, is_space, trim_prefix, update_if,
}
use azeroth_core_web.Base.Int.{pos}
use azeroth_core_web.Db.{Conn, Result, ok, ◌>>=◌, update, exec, stop_if, lift, pure, attempt}
use azeroth_core_web.Console.{
  Console, ConsoleConfig, admin_console_execute, audit_console_command, normalize_console_command,
  console_command_allowed, any_prefix, at_word, has_control, may_use_console, required_level,
  limit_console_text, send_command, redacted_by,
}
use azeroth_core_web.Console.Logged.{SendsLogged, admin_console_execute-SendsLogged}

abbrev config : ConsoleConfig
config = record {
  realm = codes "main";
  level = pos 3;
  allow_all = false;
  allowed = codes "server" ∷ codes ".account" ∷ [];
  soap_enabled = true;
}

abbrev world : Text → Result Text Text
world command = ok (codes "done")

abbrev conn : Conn Console
conn = record {
  tables = record { logs = []; next_log = 1; runs = [] };
  fault = λ _. false;
  tick = 0;
}

admin_console_execute-SendsLogged_example :
    SendsLogged config
      (some (9, 3))
      (codes ".server info")
      conn.tables
      (admin_console_execute config world (some (9, 3)) (codes ".server info") conn).1.tables
admin_console_execute-SendsLogged_example =
    admin_console_execute-SendsLogged config world (some (9, 3)) (codes ".server info") conn

command_accepted :
    (admin_console_execute config world (some (9, 3)) (codes ".server info") conn).0
    ≡ ok (codes "done")
unfolding ◌>>=◌ update exec stop_if lift pure attempt admin_console_execute
    normalize_console_command console_command_allowed any_prefix at_word has_control may_use_console
    required_level limit_console_text send_command text_eq has_prefix trim_prefix trim_space
    trim_left is_space lower update_if audit_console_command redacted_by count_if
command_accepted = refl

-- A prefix ends with a word: `server` does not allow `serverfoo`.
word_refused : (console_command_allowed (codes "serverfoo") false (codes "server" ∷ [])) ≡ false
unfolding console_command_allowed any_prefix at_word text_eq has_prefix trim_prefix trim_space
    trim_left is_space lower
word_refused = refl
