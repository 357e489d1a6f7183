-- ===== src/Passkeys/Transports.antt =====
-- internal/web/passkeys.go, `cleanTransports`: what is kept of a list of transports.
use azeroth_core_web.Base.{
  ◌≡◌, refl, sym, ◌∙◌, true, false, List, [], ◌∷◌, ◌++◌, Text, text_eq, text_eq→eq, text_eq_sym,
  contains, trim_space, trim_left, to_lower, append-nil, append_assoc, Bool-cases, inl, inr, arith,
  is_space, lower,
}
use azeroth_core_web.Passkeys.{transports, add_transport, clean_from, clean_transports}

-- Allowed transports, none of them twice.
abbrev pub IsClean : List Text → Type 0
IsClean [] = Unit
IsClean (v ∷ vs) = (contains transports v ≡ true) × (contains vs v ≡ false) × IsClean vs

contains-append_one :
    (vs : List Text) (v t : Text)
    → contains vs t ≡ false
    → text_eq v t ≡ false
    → contains (vs ++ v ∷ []) t ≡ false
unfolding contains
contains-append_one [] v t h e = ground (arith, e)
contains-append_one (u ∷ vs) v t h e =
    ground (arith, h, contains-append_one vs v t (ground (arith, h)) e)

IsClean-append_one :
    (vs : List Text) (v : Text)
    → IsClean vs
    → contains transports v ≡ true
    → contains vs v ≡ false
    → IsClean (vs ++ v ∷ [])
unfolding contains
IsClean-append_one [] v clean known new = (known, refl, tt)
IsClean-append_one (u ∷ vs) v clean known new = (
  clean.0,
  contains-append_one vs v u clean.1 (text_eq_sym u v (ground (arith, new))),
  IsClean-append_one vs v clean.2 known (ground (arith, new)),
)

add_transport-IsClean : (out : List Text) (v : Text) → IsClean out → IsClean (add_transport out v)
unfolding add_transport
add_transport-IsClean out v clean = elim (Bool-cases (contains transports v)) [
  | inr other ↦ rw other clean
  | inl known ↦ elim (Bool-cases (contains out v)) [
    | inl old ↦ rw (known, old) clean
    | inr new ↦ rw (known, new) (IsClean-append_one out v clean known new)
  ]
]

clean_from-IsClean : (out values : List Text) → IsClean out → IsClean (clean_from out values)
unfolding clean_from
clean_from-IsClean out [] clean = clean
clean_from-IsClean out (v ∷ values) clean =
    clean_from-IsClean (add_transport out (to_lower (trim_space v))) values
      (add_transport-IsClean out (to_lower (trim_space v)) clean)

-- A name in lower case without white space around it.
abbrev AllFixed : List Text → Type 0
AllFixed [] = Unit
AllFixed (t ∷ ts) = (to_lower (trim_space t) ≡ t) × AllFixed ts

contains-AllFixed :
    (ts : List Text) (v : Text) → AllFixed ts → contains ts v ≡ true → to_lower (trim_space v) ≡ v
unfolding contains
contains-AllFixed [] v fixed h = cc
contains-AllFixed (t ∷ ts) v fixed h = elim (Bool-cases (text_eq t v)) [
  | inl same ↦ rw (text_eq→eq t v same) at fixed.0
  | inr other ↦ contains-AllFixed ts v fixed.1 (ground (arith, h, other))
]

transports-AllFixed : (v : Text) → contains transports v ≡ true → to_lower (trim_space v) ≡ v
unfolding trim_space trim_left is_space lower
transports-AllFixed v h =
    contains-AllFixed transports v (refl, (refl, (refl, (refl, (refl, tt))))) h

contains-append :
    (vs ws : List Text) (v t : Text) → contains (vs ++ v ∷ ws) t ≡ false → text_eq v t ≡ false
unfolding contains
contains-append [] ws v t h = ground (arith, h)
contains-append (u ∷ vs) ws v t h = contains-append vs ws v t (ground (arith, h))

contains-before :
    (out : List Text) (v : Text) (vs : List Text) → IsClean (out ++ v ∷ vs) → contains out v ≡ false
unfolding contains
contains-before [] v vs clean = refl
contains-before (u ∷ out) v vs clean =
    let other = text_eq_sym v u (contains-append out vs v u clean.1) in
    ground (arith, other, contains-before out v vs clean.2)

IsClean-known :
    (out : List Text) (v : Text) (vs : List Text)
    → IsClean (out ++ v ∷ vs)
    → contains transports v ≡ true
IsClean-known [] v vs clean = clean.0
IsClean-known (u ∷ out) v vs clean = IsClean-known out v vs clean.2

clean_from-same :
    (out values : List Text) → IsClean (out ++ values) → clean_from out values ≡ out ++ values
unfolding clean_from add_transport
clean_from-same out [] clean = sym (append-nil out)
clean_from-same out (v ∷ values) clean =
    let known = IsClean-known out v values clean in
    let split : (out ++ v ∷ []) ++ values ≡ out ++ v ∷ values = append_assoc out (v ∷ []) values in
    rw (transports-AllFixed v known, known, contains-before out v values clean)
      (clean_from-same (out ++ v ∷ []) values (rw (sym split) at clean) ∙ split)

-- The transports that cleanTransports keeps are allowed and none of them occurs twice, and it keeps
-- all of them when it is given them again, as it is when the stored list is read.
pub clean_transports-IsClean :
    (values : List Text)
    → IsClean (clean_transports values)
      × (clean_transports (clean_transports values) ≡ clean_transports values)
unfolding clean_transports
clean_transports-IsClean values =
    let clean = clean_from-IsClean [] values tt in
    (clean, clean_from-same [] (clean_from [] values) clean)
