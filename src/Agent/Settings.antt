-- ===== src/Agent/Settings.antt =====
-- internal/realmagent/agent.go, `replaceValues`: what is read from the lines that it writes.
use azeroth_core_web.Base.{
  ◌≡◌, refl, sym, ap, ◌∙◌, false, Option, none, some, List, [], ◌∷◌, ◌++◌, map, Text, text_eq,
  text_eq→eq, text_eq_refl, if◌then◌else◌, arith, Bool-cases, Option-cases, inl, inr, trim_space,
}
use azeroth_core_web.Agent.{
  parse_line, clean_value, or_later, actual_of, lookup, setting, setting_of, replaced,
  replace_lines, key_is, is_found, missing_of, sort_settings, managed, appended, replace_all,
  is_setting,
}
use azeroth_core_web.Agent.Missing.{
  Agrees, IsMap, has, Agrees-missing, Agrees-sort, has-sort, has-found, has-lost, has-lookup,
  has-unknown,
}
use azeroth_core_web.Agent.Lines.{IsPlain, parse_line-setting}

abbrev pub AllPlain : List (Text × Text) → Type 0
AllPlain [] = Unit
AllPlain ((key, value) ∷ new) = IsPlain key value × AllPlain new

abbrev pub override : Option Text → Option Text → Option Text
override none earlier = earlier
override (some value) earlier = some value

or_later-override :
    (a b : Option Text) (key : Text) (p : Option (Text × Text))
    → or_later (override a b) key p ≡ override a (or_later b key p)
or_later-override none b key p = refl
or_later-override (some v) b key p = refl

actual_of-append :
    (key : Text) (xs ys : List Text)
    → actual_of key (xs ++ ys) ≡ override (actual_of key ys) (actual_of key xs)
unfolding actual_of
actual_of-append key [] ys = override_none (actual_of key ys)
  where
    override_none : (o : Option Text) → o ≡ override o none
    override_none none = refl
    override_none (some v) = refl
actual_of-append key (x ∷ xs) ys =
    rw (actual_of-append key xs ys)
      (or_later-override (actual_of key ys) (actual_of key xs) key (parse_line x))

lookup-IsPlain :
    (new : List (Text × Text)) (key value : Text)
    → AllPlain new
    → lookup key new ≡ some value
    → IsPlain key value
unfolding lookup
lookup-IsPlain [] key value h e = cc
lookup-IsPlain ((name, v) ∷ new) key value (p, h) e = elim (Bool-cases (text_eq name key)) [
  | inl same ↦
      let name_eq : name ≡ key = text_eq→eq name key same in
      let value_eq : v ≡ value = ground (arith, e, same) in rw (name_eq, value_eq) at p
  | inr other ↦ lookup-IsPlain new key value h (rw other at e)
]

or_later-miss :
    (later : Option Text) (key name value : Text)
    → text_eq name key ≡ false
    → or_later later key (some (name, value)) ≡ later
or_later-miss none key name value miss = rw miss refl
or_later-miss (some v) key name value miss = refl

module _ (new : List (Text × Text)) (plain : AllPlain new) (key : Text) where
  written :
      (name value : Text)
      → lookup name new ≡ some value
      → (parse_line (setting name value) ≡ some (name, 32 ∷ value))
        × (clean_value (32 ∷ value) ≡ value)
  written name value given =
      parse_line-setting name value (lookup-IsPlain new name value plain given)

  other_name :
      (name value : Text)
      → lookup key new ≡ none
      → lookup name new ≡ some value
      → text_eq name key ≡ false
  other_name name value none_new given = elim (Bool-cases (text_eq name key)) [
    | inl same ↦
        let name_eq : name ≡ key = text_eq→eq name key same in
        let bad : some value ≡ none = sym given ∙ (ap (λ k. lookup k new) name_eq ∙ none_new) in cc
    | inr other ↦ other
  ]

  -- What a line says of a key that is not replaced does not change.
  replaced_other :
      (line : Text) (later : Option Text) (p : Option (Text × Text))
      → parse_line line ≡ p
      → lookup key new ≡ none
      → or_later later key (parse_line (replaced new line p)) ≡ or_later later key p
  replaced_other line later none e none_new = rw e refl
  replaced_other line later (some (name, raw)) e none_new = elim (Option-cases (lookup name new)) [
    | inl kept ↦ rw (kept, e) refl
    | inr (value, given) ↦
        let miss = other_name name value none_new given in
        rw (given, (written name value given).0)
          (or_later-miss later key name (32 ∷ value) miss
            ∙ sym (or_later-miss later key name raw miss))
  ]

  -- A line that sets a replaced key says its new value.
  replaced_own :
      (line value : Text) (p : Option (Text × Text))
      → parse_line line ≡ p
      → lookup key new ≡ some value
      → or_later none key (parse_line (replaced new line p))
        ≡ (if key_is key p then some value else none)
  replaced_own line value none e given = rw e refl
  replaced_own line value (some (name, raw)) e given = elim (Bool-cases (text_eq name key)) [
    | inl same ↦
        let name_eq : name ≡ key = text_eq→eq name key same in
        rw
          (
            name_eq,
            given,
            (written key value given).0,
            text_eq_refl key,
            (written key value given).1,
          )
          refl
    | inr other ↦ elim (Option-cases (lookup name new)) [
      | inl kept ↦ rw (kept, e, other) refl
      | inr (v, found) ↦ rw (found, (written name v found).0, other) refl
    ]
  ]

  replace_lines-other :
      (lines : List Text)
      → lookup key new ≡ none
      → actual_of key (replace_lines new lines) ≡ actual_of key lines
  unfolding actual_of replace_lines
  replace_lines-other [] none_new = refl
  replace_lines-other (line ∷ lines) none_new =
      rw (replace_lines-other lines none_new)
        (replaced_other line (actual_of key lines) (parse_line line) refl none_new)

  replace_lines-own :
      (lines : List Text) (value : Text)
      → lookup key new ≡ some value
      → actual_of key (replace_lines new lines) ≡ (if is_found key lines then some value else none)
  unfolding actual_of replace_lines is_found
  replace_lines-own [] value given = refl
  replace_lines-own (line ∷ lines) value given = elim (Bool-cases (is_found key lines)) [
    | inl later ↦ rw (replace_lines-own lines value given, later) (ground arith)
    | inr first ↦
        rw (replace_lines-own lines value given, first)
          (replaced_own line value (parse_line line) refl given ∙ ground arith)
  ]

module _ (new : List (Text × Text)) (plain : AllPlain new) (key : Text) where
  -- One more written line.
  step_unknown :
      (name value : Text) (ys : List (Text × Text))
      → Agrees new ((name, value) ∷ ys)
      → lookup key new ≡ none
      → or_later (if has key ys then lookup key new else none) key (some (name, 32 ∷ value))
        ≡ (if has key ((name, value) ∷ ys) then lookup key new else none)
  step_unknown name value ys h none_new =
      let rest = has-unknown key new ys h.1 none_new in
      let whole = has-unknown key new ((name, value) ∷ ys) h none_new in
      let miss = other_name new plain key name value none_new h.0 in
      rw (whole, rest) (or_later-miss none key name (32 ∷ value) miss)

  step_known :
      (name value found : Text) (ys : List (Text × Text))
      → lookup name new ≡ some value
      → lookup key new ≡ some found
      → or_later (if has key ys then lookup key new else none) key (some (name, 32 ∷ value))
        ≡ (if has key ((name, value) ∷ ys) then lookup key new else none)
  step_known name value found ys e given = elim (Bool-cases (has key ys)) [
    | inl later ↦ rw (later, given) (ground arith)
    | inr last ↦ elim (Bool-cases (text_eq name key)) [
      | inl same ↦
          let name_eq : name ≡ key = text_eq→eq name key same in
          rw (last, same, (written new plain key name value e).1)
            (sym e ∙ ap (λ k. lookup k new) name_eq)
      | inr other ↦ rw (last, other) refl
    ]
  ]

  -- Written lines say what is looked up.
  actual_of-settings :
      (ys : List (Text × Text))
      → Agrees new ys
      → actual_of key (map setting_of ys) ≡ (if has key ys then lookup key new else none)
  unfolding actual_of
  actual_of-settings [] h = refl
  actual_of-settings ((name, value) ∷ ys) (e, h) =
      rw (actual_of-settings ys h, (written new plain key name value e).0)
        (elim (Option-cases (lookup key new)) [
          | inl none_new ↦ step_unknown name value ys (e, h) none_new
          | inr (found, given) ↦ step_known name value found ys e given
        ])

  managed_says_nothing : parse_line managed ≡ none
  unfolding parse_line is_setting trim_space
  managed_says_nothing = refl

  empty_says_nothing : parse_line [] ≡ none
  unfolding parse_line is_setting trim_space
  empty_says_nothing = refl

  or_later-nothing : (o : Option Text) → or_later o key none ≡ o
  or_later-nothing none = refl
  or_later-nothing (some v) = refl

  actual_of-heading :
      (lines : List Text) → actual_of key ([] ∷ managed ∷ lines) ≡ actual_of key lines
  unfolding actual_of
  actual_of-heading lines =
      rw (managed_says_nothing, empty_says_nothing)
        (or_later-nothing _ ∙ or_later-nothing (actual_of key lines))

  no_lines : actual_of key [] ≡ none
  unfolding actual_of
  no_lines = refl

  actual_of-appended :
      (ys : List (Text × Text))
      → Agrees new ys
      → actual_of key (appended ys) ≡ (if has key ys then lookup key new else none)
  unfolding appended
  actual_of-appended [] h = no_lines
  actual_of-appended (y ∷ ys) h =
      actual_of-heading (map setting_of (y ∷ ys)) ∙ actual_of-settings (y ∷ ys) h

-- What the agent writes is what it reads. Where every key and value is plain and every key has one value, a
-- key that is replaced is read with its new value, wherever and however often the lines set it before,
-- and any other key is read as before.
pub actual_of-replace_all :
    (new : List (Text × Text)) (key : Text) (lines : List Text)
    → AllPlain new
    → IsMap new
    → actual_of key (replace_all new lines) ≡ override (lookup key new) (actual_of key lines)
unfolding replace_all
actual_of-replace_all new key lines plain one =
    let added = sort_settings (missing_of lines new) in
    let agree = Agrees-sort new (missing_of lines new) (Agrees-missing new lines new one) in
    rw
      (
        actual_of-append key (replace_lines new lines) (appended added),
        actual_of-appended new plain key added agree,
        has-sort key (missing_of lines new),
      )
      (elim (Option-cases (lookup key new)) [
        | inl none_new ↦
            let agreed = Agrees-missing new lines new one in
            rw (has-unknown key new (missing_of lines new) agreed none_new, none_new)
              (replace_lines-other new plain key lines none_new)
        | inr (value, given) ↦ elim (Bool-cases (is_found key lines)) [
          | inl found ↦
              rw (has-found key lines new found, given)
                (replace_lines-own new plain key lines value given ∙ rw found refl)
          | inr lost ↦ rw (has-lost key lines new lost, has-lookup key value new given, given) refl
        ]
      ])
