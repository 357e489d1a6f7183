-- ===== src/Tests/Agent.antt =====
-- Two new rates in a short configuration, of which one is set already.
use azeroth_core_web.Base.{
  ◌≡◌, refl, true, List, [], ◌∷◌, ◌++◌, Text, codes, text_eq, trim_space, trim_left, is_space, join,
}
use azeroth_core_web.Agent.{
  actual_of, lookup, replace_all, replace_lines, replace_values, parse_line, cut, is_setting,
  is_found, missing_of, sort_settings, insert_setting, appended, split_lines, unix_lines, text_lt,
  starts_line,
}
use azeroth_core_web.Agent.Lines.{IsPlain, is_plain, all_plain, all_plain-Plain}
use azeroth_core_web.Agent.Missing.{IsMap}
use azeroth_core_web.Agent.Settings.{AllPlain, override, actual_of-replace_all}

abbrev rates : List (Text × Text)
rates = (codes "Rate.XP.Kill", codes "2.5") ∷ (codes "Rate.Honor", codes "3") ∷ []

abbrev lines : List Text
lines = codes "# rates" ∷ codes "Rate.Honor = 1 # default" ∷ codes "GameType=0" ∷ []

rates_plain :
    (all_plain (codes "Rate.XP.Kill") ≡ true)
    × (all_plain (codes "2.5") ≡ true)
    × (all_plain (codes "Rate.Honor") ≡ true)
    × (all_plain (codes "3") ≡ true)
unfolding all_plain is_plain is_space
rates_plain = (refl, refl, refl, refl)

kill-IsPlain : IsPlain (codes "Rate.XP.Kill") (codes "2.5")
kill-IsPlain = record {
  plain_key = all_plain-Plain _ rates_plain.0;
  plain_value = all_plain-Plain _ rates_plain.1;
  some_key = λ e. cc;
  some_value = λ e. cc;
}

honor-IsPlain : IsPlain (codes "Rate.Honor") (codes "3")
honor-IsPlain = record {
  plain_key = all_plain-Plain _ rates_plain.2;
  plain_value = all_plain-Plain _ rates_plain.3;
  some_key = λ e. cc;
  some_value = λ e. cc;
}

rates-AllPlain : AllPlain rates
rates-AllPlain = (kill-IsPlain, (honor-IsPlain, tt))

rates-IsMap : IsMap rates
unfolding lookup text_eq
rates-IsMap = (refl, (refl, tt))

actual_of-replace_all_example :
    actual_of (codes "Rate.Honor") (replace_all rates lines)
    ≡ override (lookup (codes "Rate.Honor") rates) (actual_of (codes "Rate.Honor") lines)
actual_of-replace_all_example =
    actual_of-replace_all rates (codes "Rate.Honor") lines rates-AllPlain rates-IsMap

-- The configuration as it is written.
rates_written :
    replace_values rates (codes "Rate.Honor = 1" ++ 13 ∷ 10 ∷ codes "GameType=0")
    ≡ codes "Rate.Honor = 3"
      ++ 10 ∷ codes "GameType=0"
      ++ 10 ∷ 10 ∷ codes "# Managed by Azeroth Portal realm agent"
      ++ 10 ∷ codes "Rate.XP.Kill = 2.5"
unfolding replace_values replace_all replace_lines parse_line cut is_setting lookup text_eq is_found
    missing_of sort_settings insert_setting appended split_lines unix_lines starts_line text_lt
    trim_space trim_left is_space join
rates_written = refl
