-- ===== src/Agent.antt =====
-- internal/realmagent/agent.go: how the agent of a realm reads the settings of the worldserver's
-- configuration and writes new ones. Files and HTTP are left out.
pub mod Lines
pub mod Missing
pub mod Settings
pub mod Apply
use azeroth_core_web.Base.{
  ℕ, ◌&&◌, ◌||◌, not, Bool, true, false, Option, none, some, List, [], ◌∷◌, ◌++◌, map, Text,
  text_eq, ◌==◌, ltb, if◌then◌else◌, contains, join, trim_space, codes,
}

-- Text replaced: each CR LF by LF.
unfoldable pub starts_line : Text → Bool
starts_line [] = false
starts_line (c ∷ s) = c == 10

unfoldable pub unix_lines : Text → Text
unix_lines [] = []
unix_lines (c ∷ s) =
    let rest = unix_lines s in if (c == 13) && starts_line s then rest else c ∷ rest

abbrev pub onto_first : ℕ → List Text → List Text
onto_first c [] = (c ∷ []) ∷ []
onto_first c (line ∷ lines) = (c ∷ line) ∷ lines

-- `strings.Split(text, "\n")`
unfoldable pub split_lines : Text → List Text
split_lines [] = [] ∷ []
split_lines (c ∷ s) = let rest = split_lines s in if c == 10 then [] ∷ rest else onto_first c rest

abbrev pub behind : ℕ → Option (Text × Text) → Option (Text × Text)
behind c none = none
behind c (some (before, after)) = some (c ∷ before, after)

-- `strings.Cut(text, separator)`
unfoldable pub cut : ℕ → Text → Option (Text × Text)
cut separator [] = none
cut separator (c ∷ s) =
    let rest = cut separator s in if c == separator then some ([], s) else behind c rest

-- `strings.SplitN(text, separator, 2)[0]`
unfoldable pub up_to : ℕ → Text → Text
up_to separator [] = []
up_to separator (c ∷ s) = let rest = up_to separator s in if c == separator then [] else c ∷ rest

-- Not empty and no comment.
unfoldable pub is_setting : Text → Bool
is_setting [] = false
is_setting (c ∷ s) = not ((c == 35) || (c == 59))

abbrev pub trimmed_key : Option (Text × Text) → Option (Text × Text)
trimmed_key none = none
trimmed_key (some (key, value)) = some (trim_space key, value)

-- The key of a line and what follows its equals sign.
unfoldable pub parse_line : Text → Option (Text × Text)
parse_line line =
    if is_setting (trim_space line) then trimmed_key (cut 61 (trim_space line)) else none

abbrev pub clean_value : Text → Text
clean_value value = trim_space (up_to 35 value)

abbrev pub or_later : Option Text → Text → Option (Text × Text) → Option Text
or_later (some value) key parsed = some value
or_later none key none = none
or_later none key (some (name, value)) = if text_eq name key then some (clean_value value) else none

-- What `inspect` reads for a key: a later line overrides an earlier one.
unfoldable pub actual_of : Text → List Text → Option Text
actual_of key [] = none
actual_of key (line ∷ lines) = or_later (actual_of key lines) key (parse_line line)

-- A new value for a key: `replacements[key]`
unfoldable pub lookup : Text → List (Text × Text) → Option Text
lookup key [] = none
lookup key ((name, value) ∷ rest) =
    let later = lookup key rest in if text_eq name key then some value else later

-- `key + " = " + value`
abbrev pub setting : Text → Text → Text
setting key value = key ++ 32 ∷ 61 ∷ 32 ∷ value

abbrev pub rewritten : Text → Text → Option Text → Text
rewritten line key none = line
rewritten line key (some value) = setting key value

abbrev pub replaced : List (Text × Text) → Text → Option (Text × Text) → Text
replaced new line none = line
replaced new line (some (key, value)) = rewritten line key (lookup key new)

unfoldable pub replace_lines : List (Text × Text) → List Text → List Text
replace_lines new [] = []
replace_lines new (line ∷ lines) = replaced new line (parse_line line) ∷ replace_lines new lines

abbrev pub key_is : Text → Option (Text × Text) → Bool
key_is key none = false
key_is key (some (name, value)) = text_eq name key

-- `found[key]`: whether a line sets the key.
unfoldable pub is_found : Text → List Text → Bool
is_found key [] = false
is_found key (line ∷ lines) = key_is key (parse_line line) || is_found key lines

-- The replacements of keys that no line sets.
unfoldable pub missing_of : List Text → List (Text × Text) → List (Text × Text)
missing_of lines [] = []
missing_of lines ((key, value) ∷ new) =
    let rest = missing_of lines new in if is_found key lines then rest else (key, value) ∷ rest

-- The order of strings, byte by byte.
unfoldable pub text_lt : Text → Text → Bool
text_lt s [] = false
text_lt [] (d ∷ t) = true
text_lt (c ∷ s) (d ∷ t) = ltb c d || ((c == d) && text_lt s t)

unfoldable pub insert_setting : Text × Text → List (Text × Text) → List (Text × Text)
insert_setting x [] = x ∷ []
insert_setting x (y ∷ ys) =
    let rest = insert_setting x ys in if text_lt y.0 x.0 then y ∷ rest else x ∷ y ∷ ys

-- `sort.Strings(keys)`, with the values
unfoldable pub sort_settings : List (Text × Text) → List (Text × Text)
sort_settings [] = []
sort_settings (x ∷ xs) = insert_setting x (sort_settings xs)

abbrev pub setting_of : Text × Text → Text
setting_of (key, value) = setting key value

abbrev pub managed : Text
managed = codes "# Managed by Azeroth Portal realm agent"

-- The lines for the missing keys, under a heading, where there are any.
unfoldable pub appended : List (Text × Text) → List Text
appended [] = []
appended (x ∷ xs) = [] ∷ managed ∷ map setting_of (x ∷ xs)

-- `replaceValues`, on the lines
unfoldable pub replace_all : List (Text × Text) → List Text → List Text
replace_all new lines = replace_lines new lines ++ appended (sort_settings (missing_of lines new))

-- `replaceValues`
unfoldable pub replace_values : List (Text × Text) → Text → Text
replace_values new text = join (10 ∷ []) (replace_all new (split_lines (unix_lines text)))
