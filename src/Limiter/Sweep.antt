-- ===== src/Limiter/Sweep.antt =====
-- internal/web/server.go, `rate`: the sweep of the limiter drops nothing of a window of at most an hour.
use azeroth_core_web.Base.{
  ℕ, ◌*◌, ◌≤◌, ◌≡◌, refl, sym, ap, ◌∙◌, true, false, none, List, [], ◌∷◌, Text, text_eq,
  text_eq_sym, text_eq→eq, arith, keep_if, find_if, Bool-cases, inl, inr,
}
use azeroth_core_web.Limiter.{
  Hits, Limiter, at_key, is_fresh, hits_of, set_hits, sweep, sweep_hits, swept, is_due, minute,
}

-- No key has two entries.
abbrev pub IsMap : List Hits → Type 0
IsMap [] = Unit
IsMap (h ∷ hits) = (find_if (at_key h.key) hits ≡ none) × IsMap hits

absent-set_hits :
    (key k : Text) (times : List ℕ) (hits : List Hits)
    → text_eq key k ≡ false
    → find_if (at_key k) hits ≡ none
    → find_if (at_key k) (set_hits key times hits) ≡ none
unfolding set_hits find_if
absent-set_hits key k times [] other h = ground (arith, other)
absent-set_hits key k times (x ∷ hits) other h =
    ground (arith, h, absent-set_hits key k times hits other)

pub set_hits-IsMap :
    (key : Text) (times : List ℕ) (hits : List Hits) → IsMap hits → IsMap (set_hits key times hits)
unfolding set_hits find_if
set_hits-IsMap key times [] m = (refl, tt)
set_hits-IsMap key times (h ∷ hits) m = elim (Bool-cases (text_eq h.key key)) [
  | inl here ↦ rw here m
  | inr there ↦ rw there (
    absent-set_hits key h.key times hits (text_eq_sym h.key key there) m.0,
    set_hits-IsMap key times hits m.1,
  )
]

absent-swept :
    (k : Text) (h : Hits) (times : List ℕ) (rest : List Hits)
    → text_eq h.key k ≡ false
    → find_if (at_key k) rest ≡ none
    → find_if (at_key k) (swept h times rest) ≡ none
unfolding swept find_if
absent-swept k h [] rest other absent = absent
absent-swept k h (t ∷ times) rest other absent = rw other absent

absent-sweep_hits :
    (k : Text) (now : ℕ) (hits : List Hits)
    → find_if (at_key k) hits ≡ none
    → find_if (at_key k) (sweep_hits now hits) ≡ none
unfolding sweep_hits find_if
absent-sweep_hits k now [] h = refl
absent-sweep_hits k now (x ∷ hits) h =
    absent-swept k x (keep_if (is_fresh (60 * minute) now) x.times) (sweep_hits now hits)
      (ground (arith, h)) (absent-sweep_hits k now hits (ground (arith, h)))

swept-IsMap :
    (h : Hits) (times : List ℕ) (rest : List Hits)
    → find_if (at_key h.key) rest ≡ none
    → IsMap rest
    → IsMap (swept h times rest)
unfolding swept
swept-IsMap h [] rest absent m = m
swept-IsMap h (t ∷ times) rest absent m = (absent, m)

sweep_hits-IsMap : (now : ℕ) (hits : List Hits) → IsMap hits → IsMap (sweep_hits now hits)
unfolding sweep_hits
sweep_hits-IsMap now [] m = tt
sweep_hits-IsMap now (h ∷ hits) m =
    swept-IsMap h (keep_if (is_fresh (60 * minute) now) h.times) (sweep_hits now hits)
      (absent-sweep_hits h.key now hits m.0) (sweep_hits-IsMap now hits m.1)

-- What is in a window of at most an hour survives the sweep.
keep_if_twice :
    (window now : ℕ) (times : List ℕ)
    → window ≤ 60 * minute
    → keep_if (is_fresh window now) (keep_if (is_fresh (60 * minute) now) times)
      ≡ keep_if (is_fresh window now) times
unfolding keep_if is_fresh
keep_if_twice window now [] short = refl
keep_if_twice window now (t ∷ times) short =
    ground (arith, short, keep_if_twice window now times short)

fresh_swept :
    (window now : ℕ) (key : Text) (h : Hits) (times : List ℕ) (rest : List Hits)
    → text_eq h.key key ≡ true
    → find_if (at_key key) rest ≡ none
    → keep_if (is_fresh window now) (hits_of key (swept h times rest))
      ≡ keep_if (is_fresh window now) times
unfolding swept hits_of find_if keep_if
fresh_swept window now key h [] rest here absent = ground (arith, absent)
fresh_swept window now key h (t ∷ times) rest here absent = rw here refl

hits_of_other :
    (key : Text) (h : Hits) (times : List ℕ) (rest : List Hits)
    → text_eq h.key key ≡ false
    → hits_of key (swept h times rest) ≡ hits_of key rest
unfolding swept hits_of find_if
hits_of_other key h [] rest other = refl
hits_of_other key h (t ∷ times) rest other = rw other refl

hits_of_head :
    (key : Text) (h : Hits) (hits : List Hits)
    → text_eq h.key key ≡ true
    → hits_of key (h ∷ hits) ≡ h.times
unfolding hits_of find_if
hits_of_head key h hits here = rw here refl

hits_of_tail :
    (key : Text) (h : Hits) (hits : List Hits)
    → text_eq h.key key ≡ false
    → hits_of key (h ∷ hits) ≡ hits_of key hits
unfolding hits_of find_if
hits_of_tail key h hits there = rw there refl

fresh-sweep_hits :
    (window now : ℕ) (key : Text) (hits : List Hits)
    → window ≤ 60 * minute
    → IsMap hits
    → keep_if (is_fresh window now) (hits_of key (sweep_hits now hits))
      ≡ keep_if (is_fresh window now) (hits_of key hits)
unfolding sweep_hits
fresh-sweep_hits window now key [] short m = refl
fresh-sweep_hits window now key (h ∷ hits) short m =
    let kept = keep_if (is_fresh (60 * minute) now) h.times in
    elim (Bool-cases (text_eq h.key key)) [
      | inl here ↦
          let same : h.key ≡ key = text_eq→eq h.key key here in
          let absent = absent-sweep_hits key now hits (rw same at m.0) in
          fresh_swept window now key h kept (sweep_hits now hits) here absent
          ∙ (keep_if_twice window now h.times short
              ∙ ap (keep_if (is_fresh window now)) (sym (hits_of_head key h hits here)))
      | inr there ↦
          ap (keep_if (is_fresh window now)) (hits_of_other key h kept (sweep_hits now hits) there)
          ∙ (fresh-sweep_hits window now key hits short m.1
              ∙ ap (keep_if (is_fresh window now)) (sym (hits_of_tail key h hits there)))
    ]

-- The times of a client that are in the window.
abbrev pub fresh_hits : ℕ → ℕ → Text → Limiter → List ℕ
fresh_hits window now key l = keep_if (is_fresh window now) (hits_of key l.hits)

pub sweep-IsMap : (now : ℕ) (l : Limiter) → IsMap l.hits → IsMap (sweep now l).hits
unfolding sweep
sweep-IsMap now l m = elim (Bool-cases (is_due now l.last_sweep)) [
  | inl due ↦ rw due (sweep_hits-IsMap now l.hits m)
  | inr early ↦ rw early m
]

pub fresh_hits-sweep :
    (window now : ℕ) (key : Text) (l : Limiter)
    → window ≤ 60 * minute
    → IsMap l.hits
    → fresh_hits window now key (sweep now l) ≡ fresh_hits window now key l
unfolding sweep
fresh_hits-sweep window now key l short m = elim (Bool-cases (is_due now l.last_sweep)) [
  | inl due ↦ rw due (fresh-sweep_hits window now key l.hits short m)
  | inr early ↦ rw early refl
]
