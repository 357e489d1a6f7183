-- ===== src/Agent/Lines.antt =====
-- internal/realmagent/agent.go: a line that the agent writes is read back.
use azeroth_core_web.Base.{
  ℕ, ◌≡◌, ◌≢◌, refl, sym, ap, ◌∙◌, Bool, true, false, ◌&&◌, not, some, [], ◌∷◌, ◌++◌, append_assoc,
  Text, ◌==◌, arith, is_space, trim_left, trim_space,
}
use mathlib.Core.List.{reverse, reverse-cons, reverse-append, reverse-reverse}
use azeroth_core_web.Agent.{cut, up_to, is_setting, parse_line, clean_value, setting}

-- No white space, no equals sign, no sign of a comment.
unfoldable pub is_plain : ℕ → Bool
is_plain c = not (is_space c) && not (c == 61) && not (c == 35) && not (c == 59)

abbrev pub Plain : Text → Type 0
Plain [] = Unit
Plain (c ∷ s) = (is_plain c ≡ true) × Plain s

-- The test of plain texts.
unfoldable pub all_plain : Text → Bool
all_plain [] = true
all_plain (c ∷ s) = is_plain c && all_plain s

pub all_plain-Plain : (s : Text) → all_plain s ≡ true → Plain s
unfolding all_plain
all_plain-Plain [] h = tt
all_plain-Plain (c ∷ s) h = (ground (arith, h), all_plain-Plain s (ground (arith, h)))

Plain-append : (s t : Text) → Plain s → Plain t → Plain (s ++ t)
Plain-append [] t h k = k
Plain-append (c ∷ s) t (p, h) k = (p, Plain-append s t h k)

Plain-reverse : (s : Text) → Plain s → Plain (reverse s)
Plain-reverse [] h = tt
Plain-reverse (c ∷ s) (p, h) =
    rw (reverse-cons c s) (Plain-append (reverse s) (c ∷ []) (Plain-reverse s h) (p, tt))

plain_no_space : (c : ℕ) → is_plain c ≡ true → is_space c ≡ false
unfolding is_plain
plain_no_space c h = ground (arith, h)

trim_left-Plain : (s : Text) → Plain s → trim_left s ≡ s
unfolding trim_left
trim_left-Plain [] h = refl
trim_left-Plain (c ∷ s) (p, h) = ground (arith, plain_no_space c p)

trim_left-head : (c : ℕ) (s t : Text) → is_plain c ≡ true → trim_left ((c ∷ s) ++ t) ≡ (c ∷ s) ++ t
unfolding trim_left
trim_left-head c s t p = ground (arith, plain_no_space c p)

trim_left-blank : (s : Text) → trim_left (32 ∷ s) ≡ trim_left s
unfolding trim_left is_space
trim_left-blank s = refl

trim_space-Plain : (s : Text) → Plain s → trim_space s ≡ s
unfolding trim_space
trim_space-Plain s h =
    rw (trim_left-Plain s h, trim_left-Plain (reverse s) (Plain-reverse s h)) (reverse-reverse s)

-- ` value` and `key `
trim_space-before : (s : Text) → Plain s → trim_space (32 ∷ s) ≡ s
unfolding trim_space
trim_space-before s h =
    rw (trim_left-blank s, trim_left-Plain s h, trim_left-Plain (reverse s) (Plain-reverse s h))
      (reverse-reverse s)

trim_space-after : (c : ℕ) (s : Text) → Plain (c ∷ s) → trim_space ((c ∷ s) ++ 32 ∷ []) ≡ c ∷ s
unfolding trim_space
trim_space-after c s h =
    rw
      (
        trim_left-head c s (32 ∷ []) h.0,
        reverse-append (c ∷ s) (32 ∷ []),
        trim_left-blank (reverse (c ∷ s)),
        trim_left-Plain (reverse (c ∷ s)) (Plain-reverse (c ∷ s) h),
      )
      (reverse-reverse (c ∷ s))

trim_left-tail :
    (r t : Text) (c : ℕ) (s : Text) → r ≡ c ∷ s → is_plain c ≡ true → trim_left (r ++ t) ≡ r ++ t
trim_left-tail r t c s h p = rw h (trim_left-head c s t p)

-- A text that is not empty has a last character.
last_of :
    (c : ℕ) (s : Text)
    → Plain (c ∷ s)
    → (d : ℕ) × (t : Text) × (reverse (c ∷ s) ≡ d ∷ t) × (is_plain d ≡ true)
last_of c s h = head_of (reverse (c ∷ s)) refl (Plain-reverse (c ∷ s) h)
  where
    head_of :
        (r : Text)
        → reverse (c ∷ s) ≡ r
        → Plain r
        → (d : ℕ) × (t : Text) × (reverse (c ∷ s) ≡ d ∷ t) × (is_plain d ≡ true)
    head_of [] e k =
        let bad : c ∷ s ≡ [] = sym (reverse-reverse (c ∷ s)) ∙ ap (λ (x : Text). reverse x) e in cc
    head_of (d ∷ t) e (p, k) = (d, t, e, p)

trim_space-setting :
    (c : ℕ) (s : Text) (d : ℕ) (t : Text)
    → Plain (c ∷ s)
    → Plain (d ∷ t)
    → trim_space (setting (c ∷ s) (d ∷ t)) ≡ setting (c ∷ s) (d ∷ t)
unfolding trim_space
trim_space-setting c s d t h k =
    let line = setting (c ∷ s) (d ∷ t) in
    let (e, u, back, p) = last_of d t k in
    let turned : reverse line ≡ reverse (32 ∷ 61 ∷ 32 ∷ d ∷ t) ++ reverse (c ∷ s) =
      reverse-append (c ∷ s) (32 ∷ 61 ∷ 32 ∷ d ∷ t) in
    let ends : reverse (32 ∷ 61 ∷ 32 ∷ d ∷ t) ≡ reverse (d ∷ t) ++ reverse (32 ∷ 61 ∷ 32 ∷ []) =
      reverse-append (32 ∷ 61 ∷ 32 ∷ []) (d ∷ t) in
    let whole : reverse line ≡ reverse (d ∷ t) ++ (reverse (32 ∷ 61 ∷ 32 ∷ []) ++ reverse (c ∷ s)) =
      turned
      ∙ (ap (λ (x : Text). x ++ reverse (c ∷ s)) ends
          ∙ append_assoc (reverse (d ∷ t)) (reverse (32 ∷ 61 ∷ 32 ∷ [])) (reverse (c ∷ s))) in
    let kept : trim_left (reverse line) ≡ reverse line =
      rw whole (trim_left-tail (reverse (d ∷ t)) _ e u back p) in
    rw (trim_left-head c s (32 ∷ 61 ∷ 32 ∷ d ∷ t) h.0, kept) (reverse-reverse line)

plain_no_sign : (c : ℕ) → is_plain c ≡ true → (c == 61) ≡ false
unfolding is_plain
plain_no_sign c h = ground (arith, h)

plain_no_comment : (c : ℕ) → is_plain c ≡ true → (c == 35) ≡ false
unfolding is_plain
plain_no_comment c h = ground (arith, h)

cut-setting :
    (key value : Text) → Plain key → cut 61 (setting key value) ≡ some (key ++ 32 ∷ [], 32 ∷ value)
unfolding cut
cut-setting [] value h = refl
cut-setting (c ∷ s) value (p, h) = rw (plain_no_sign c p, cut-setting s value h) refl

up_to-Plain : (s : Text) → Plain s → up_to 35 s ≡ s
unfolding up_to
up_to-Plain [] h = refl
up_to-Plain (c ∷ s) (p, h) = rw (plain_no_comment c p, up_to-Plain s h) refl

plain_is_setting : (c : ℕ) (s : Text) → is_plain c ≡ true → is_setting (c ∷ s) ≡ true
unfolding is_setting is_plain
plain_is_setting c s h = ground (arith, h)

-- A key and a value as the agent writes them: neither is empty, and both are plain.
pub record IsPlain (key value : Text) : Type 0 where
  pub plain_key : Plain key
  pub plain_value : Plain value
  pub some_key : key ≢ []
  pub some_value : value ≢ []

-- The key of a written line, and what is read as its value.
pub parse_line-setting :
    (key value : Text)
    → IsPlain key value
    → (parse_line (setting key value) ≡ some (key, 32 ∷ value)) × (clean_value (32 ∷ value) ≡ value)
unfolding parse_line up_to
parse_line-setting [] value h = absurd (h.some_key refl)
parse_line-setting (c ∷ s) [] h = absurd (h.some_value refl)
parse_line-setting (c ∷ s) (d ∷ t) h = (
  rw
      (
        trim_space-setting c s d t h.plain_key h.plain_value,
        plain_is_setting c (s ++ 32 ∷ 61 ∷ 32 ∷ d ∷ t) h.plain_key.0,
        cut-setting (c ∷ s) (d ∷ t) h.plain_key,
        trim_space-after c s h.plain_key,
      )
      refl,
  rw (up_to-Plain (d ∷ t) h.plain_value) (trim_space-before (d ∷ t) h.plain_value),
)
