-- ===== src/Agent/Missing.antt =====
-- internal/realmagent/agent.go, `replaceValues`: the replacements that no line sets, and their order.
use azeroth_core_web.Base.{
  ◌≡◌, refl, sym, ap, ◌∙◌, Bool, true, false, ◌||◌, none, some, List, [], ◌∷◌, Text, text_eq,
  text_eq→eq, arith, Bool-cases, inl, inr,
}
use azeroth_core_web.Agent.{lookup, is_found, missing_of, text_lt, insert_setting, sort_settings}

-- Every pair of a list is what is looked up for its key.
abbrev pub Agrees : List (Text × Text) → List (Text × Text) → Type 0
Agrees new [] = Unit
Agrees new ((key, value) ∷ ys) = (lookup key new ≡ some value) × Agrees new ys

-- A list of replacements as a map: one value for each key.
abbrev pub IsMap : List (Text × Text) → Type 0
IsMap new = Agrees new new

abbrev pub has : Text → List (Text × Text) → Bool
has key [] = false
has key ((name, value) ∷ ys) = text_eq name key || has key ys

-- The lists of replacements that the appended lines go through.
pub Agrees-missing :
    (new : List (Text × Text)) (lines : List Text) (ys : List (Text × Text))
    → Agrees new ys
    → Agrees new (missing_of lines ys)
unfolding missing_of
Agrees-missing new lines [] h = tt
Agrees-missing new lines ((key, value) ∷ ys) (e, h) = elim (Bool-cases (is_found key lines)) [
  | inl found ↦ rw found (Agrees-missing new lines ys h)
  | inr lost ↦ rw lost (e, Agrees-missing new lines ys h)
]

Agrees-insert :
    (new : List (Text × Text)) (key value : Text) (ys : List (Text × Text))
    → lookup key new ≡ some value
    → Agrees new ys
    → Agrees new (insert_setting (key, value) ys)
unfolding insert_setting
Agrees-insert new key value [] e h = (e, tt)
Agrees-insert new key value ((name, v) ∷ ys) e (d, h) = elim (Bool-cases (text_lt name key)) [
  | inl less ↦ rw less (d, Agrees-insert new key value ys e h)
  | inr more ↦ rw more (e, (d, h))
]

pub Agrees-sort : (new ys : List (Text × Text)) → Agrees new ys → Agrees new (sort_settings ys)
unfolding sort_settings
Agrees-sort new [] h = tt
Agrees-sort new ((key, value) ∷ ys) (e, h) =
    Agrees-insert new key value (sort_settings ys) e (Agrees-sort new ys h)

has-insert :
    (key : Text) (x : Text × Text) (ys : List (Text × Text))
    → has key (insert_setting x ys) ≡ (text_eq x.0 key || has key ys)
unfolding insert_setting
has-insert key (name, value) [] = refl
has-insert key (name, value) ((other, v) ∷ ys) = ground (arith, has-insert key (name, value) ys)

pub has-sort : (key : Text) (ys : List (Text × Text)) → has key (sort_settings ys) ≡ has key ys
unfolding sort_settings
has-sort key [] = refl
has-sort key ((name, value) ∷ ys) =
    has-insert key (name, value) (sort_settings ys)
    ∙ ap (λ b. text_eq name key || b) (has-sort key ys)

pub has-found :
    (key : Text) (lines : List Text) (ys : List (Text × Text))
    → is_found key lines ≡ true
    → has key (missing_of lines ys) ≡ false
unfolding missing_of
has-found key lines [] found = refl
has-found key lines ((name, value) ∷ ys) found = elim (Bool-cases (text_eq name key)) [
  | inl same ↦
      let name_eq : name ≡ key = text_eq→eq name key same in
      rw (name_eq, found) (has-found key lines ys found)
  | inr other ↦ ground (arith, other, has-found key lines ys found)
]

pub has-lost :
    (key : Text) (lines : List Text) (ys : List (Text × Text))
    → is_found key lines ≡ false
    → has key (missing_of lines ys) ≡ has key ys
unfolding missing_of
has-lost key lines [] lost = refl
has-lost key lines ((name, value) ∷ ys) lost = elim (Bool-cases (text_eq name key)) [
  | inl same ↦
      let name_eq : name ≡ key = text_eq→eq name key same in
      rw (name_eq, lost) (ap (λ b. text_eq key key || b) (has-lost key lines ys lost))
  | inr other ↦ ground (arith, other, has-lost key lines ys lost)
]

pub has-lookup :
    (key value : Text) (new : List (Text × Text)) → lookup key new ≡ some value → has key new ≡ true
unfolding lookup
has-lookup key value [] e = cc
has-lookup key value ((name, v) ∷ new) e = ground (arith, e, has-lookup key value new)

pub has-unknown :
    (key : Text) (new ys : List (Text × Text))
    → Agrees new ys
    → lookup key new ≡ none
    → has key ys ≡ false
has-unknown key new [] h e = refl
has-unknown key new ((name, value) ∷ ys) (d, h) e = elim (Bool-cases (text_eq name key)) [
  | inl same ↦
      let name_eq : name ≡ key = text_eq→eq name key same in
      let bad : some value ≡ none = sym d ∙ (ap (λ k. lookup k new) name_eq ∙ e) in cc
  | inr other ↦ rw other (has-unknown key new ys h e)
]
