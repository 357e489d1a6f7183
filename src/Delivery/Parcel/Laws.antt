-- ===== src/Delivery/Parcel/Laws.antt =====
-- Nothing is lost or invented on the way into the mail, and every attachment fits.
use Prim.Native.Nat.{zero, suc, max}
use mathlib.Core.List.{flatten}
use mathlib.Core.Path.{subst}
use azeroth_core_web.Base.{
  sym, ℕ, ◌+◌, ◌-◌, ◌≤◌, ◌≡◌, refl, ap, ◌∙◌, List, [], ◌∷◌, ◌++◌, arith, ◌==◌, if◌then◌else◌,
  length, take, drop, take-append-drop, length-take, length-drop, ◌/◌,
}
use azeroth_core_web.Base.Int.{ℤ, pos, negsuc, pos_part}
use azeroth_core_web.Delivery.Parcel.{
  Stack, stack_loop, at_least_one, split_item_stacks, chunk_loop, chunk_mail_stacks,
}

abbrev pub total_count : List Stack → ℕ
total_count [] = 0
total_count (s ∷ stacks) = s.count + total_count stacks

-- Every stack is of the item, not empty and within the stack size.
abbrev pub AllFit : ℕ → ℕ → List Stack → Type 0
AllFit item most [] = Unit
AllFit item most (s ∷ stacks) =
    (s.item ≡ item) × (1 ≤ s.count) × (s.count ≤ most) × AllFit item most stacks

stack_loop_lem :
    (rounds item most remaining : ℕ)
    → 1 ≤ most
    → remaining ≤ rounds
    → (total_count (stack_loop rounds item most remaining) ≡ remaining)
      × AllFit item most (stack_loop rounds item most remaining)
unfolding stack_loop
stack_loop_lem zero item most remaining m h = (omega arith, tt)
stack_loop_lem (suc rounds) item most remaining m h = ground (
  arith,
  stack_loop_lem rounds item most (remaining - most),
  stack_loop_lem rounds item most (remaining - remaining),
)

-- What the database allows in one stack, and 1 where it says less.
abbrev pub stack_size : ℤ → ℕ
stack_size s = max 1 (pos_part s)

at_least_one-eq-stack_size : (s : ℤ) → at_least_one s ≡ stack_size s
unfolding at_least_one
at_least_one-eq-stack_size (pos zero) = refl
at_least_one-eq-stack_size (pos (suc n)) = omega arith
at_least_one-eq-stack_size (negsuc n) = refl

split_positive :
    (item quantity most : ℕ)
    → 1 ≤ most
    → let stacks = if quantity == 0 then [] else stack_loop quantity item most quantity in
      (total_count stacks ≡ quantity) × AllFit item most stacks
split_positive item quantity most m = ground (arith, stack_loop_lem quantity item most quantity)

-- For any quantity and any stack size of the world database, also zero or a negative one: the stacks
-- hold exactly the ordered quantity of the item, none is empty, and none is larger than the stack
-- size (1 where the database says less).
pub split_item_stacks_exact :
    (item quantity : ℕ) (stackable : ℤ)
    → (total_count (split_item_stacks item quantity stackable) ≡ quantity)
      × AllFit item (stack_size stackable) (split_item_stacks item quantity stackable)
unfolding split_item_stacks
split_item_stacks_exact item quantity stackable =
    rw (at_least_one-eq-stack_size stackable)
      (split_positive item quantity (stack_size stackable) (omega arith))

-- Every mail carries between 1 and 12 attachments.
abbrev pub AllMails {ℓ} : {A : Type ℓ} → List (List A) → Type 0
AllMails [] = Unit
AllMails (mail ∷ mails) = (1 ≤ length mail) × (length mail ≤ 12) × AllMails mails

chunk_loop_step {ℓ} :
    {A : Type ℓ} (rounds : ℕ) (s : A) (stacks : List A)
    → chunk_loop (suc rounds) (s ∷ stacks)
      ≡ take 12 (s ∷ stacks) ∷ chunk_loop rounds (drop 12 (s ∷ stacks))
unfolding chunk_loop
chunk_loop_step rounds s stacks = ground arith

drop_shorter {ℓ} :
    {A : Type ℓ} {rounds : ℕ} (s : A) (stacks : List A)
    → length (s ∷ stacks) ≤ suc rounds
    → length (drop 12 (s ∷ stacks)) ≤ rounds
drop_shorter s stacks h = omega (arith, length-drop 12 (s ∷ stacks))

flatten-chunk_loop {ℓ} :
    {A : Type ℓ} (rounds : ℕ) (stacks : List A)
    → length stacks ≤ rounds
    → flatten (chunk_loop rounds stacks) ≡ stacks
unfolding chunk_loop flatten
flatten-chunk_loop zero [] h = refl
flatten-chunk_loop zero (s ∷ stacks) h = absurd (omega arith)
flatten-chunk_loop (suc rounds) [] h = refl
flatten-chunk_loop (suc rounds) (s ∷ stacks) h =
    ap flatten (chunk_loop_step rounds s stacks)
    ∙ ap (λ t. take 12 (s ∷ stacks) ++ t)
        (flatten-chunk_loop rounds (drop 12 (s ∷ stacks)) (drop_shorter s stacks h))
    ∙ take-append-drop 12 (s ∷ stacks)

-- Mails of the right size, and no more of them than `n` attachments need.
abbrev IsPacked {ℓ} : {A : Type ℓ} → ℕ → List (List A) → Type 0
IsPacked n mails = AllMails mails × (length mails ≡ (n + 11) / 12)

chunk_loop-IsPacked {ℓ} :
    {A : Type ℓ} (rounds : ℕ) (stacks : List A)
    → length stacks ≤ rounds
    → IsPacked (length stacks) (chunk_loop rounds stacks)
unfolding chunk_loop
chunk_loop-IsPacked zero [] h = (tt, refl)
chunk_loop-IsPacked zero (s ∷ stacks) h = absurd (omega arith)
chunk_loop-IsPacked (suc rounds) [] h = (tt, refl)
chunk_loop-IsPacked {A} (suc rounds) (s ∷ stacks) h =
    let (rest, count) =
      chunk_loop-IsPacked rounds (drop 12 (s ∷ stacks)) (drop_shorter s stacks h) in
    subst (IsPacked (length (s ∷ stacks))) (sym (chunk_loop_step rounds s stacks)) (
      (
        omega (arith, length-take 12 (s ∷ stacks)),
        omega (arith, length-take 12 (s ∷ stacks)),
        rest,
      ),
      omega (arith, count, length-drop 12 (s ∷ stacks)),
    )

-- The mails hold all attachments in their order; each carries between 1 and 12 of them, and there
-- are no more mails than that needs.
pub chunk_mail_stacks_exact {ℓ} :
    {A : Type ℓ} (stacks : List A)
    → (flatten (chunk_mail_stacks stacks) ≡ stacks)
      × AllMails (chunk_mail_stacks stacks)
      × (length (chunk_mail_stacks stacks) ≡ (length stacks + 11) / 12)
unfolding chunk_mail_stacks
chunk_mail_stacks_exact stacks =
    let (mails, count) = chunk_loop-IsPacked (length stacks) stacks (omega arith) in
    (flatten-chunk_loop (length stacks) stacks (omega arith), mails, count)
