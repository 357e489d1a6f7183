-- ===== src/Base/Counts.antt =====
-- Counts of the rows under a test: how an update moves them.
use azeroth_core_web.Base.Lists.{count_if, update_if, delete_if, find_if}
use Prim.Native.Nat.{◌+◌, ◌≤◌}
use mathlib.Core.Path.{◌≡◌, refl}
use mathlib.Core.Bool.{Bool, true, false, ◌&&◌, not}
use mathlib.Core.List.{List, [], ◌∷◌}
use mathlib.Core.Option.{none, some}
use native.Mathlib.Omega.{arith}

module _ {A : Type 0} where
  pub count_if-never : (t : A → Bool) (xs : List A) → ((x : A) → t x ≡ false) → count_if t xs ≡ 0
  unfolding count_if
  count_if-never t [] never = refl
  count_if-never t (x ∷ xs) never = ground (arith, never x, count_if-never t xs never)

  pub count_if-kept :
      (t p : A → Bool) (f : A → A) (xs : List A)
      → ((x : A) → t (f x) ≡ t x)
      → count_if t (update_if p f xs) ≡ count_if t xs
  unfolding count_if update_if
  count_if-kept t p f [] keeps = refl
  count_if-kept t p f (x ∷ xs) keeps = ground (arith, keeps x, count_if-kept t p f xs keeps)

  pub find_if-absent : (t : A → Bool) (xs : List A) → count_if t xs ≡ 0 → find_if t xs ≡ none
  unfolding count_if find_if
  find_if-absent t [] h = refl
  find_if-absent t (x ∷ xs) h = ground (arith, find_if-absent t xs)

module _ {A : Type 0} where
  pub count_if-delete_if : (p : A → Bool) (xs : List A) → count_if p (delete_if p xs) ≡ 0
  unfolding count_if delete_if
  count_if-delete_if p [] = refl
  count_if-delete_if p (x ∷ xs) = ground (arith, count_if-delete_if p xs)

  -- What a wider deletion deletes anyway.
  pub delete_if-absorbs :
      (p q : A → Bool) (xs : List A)
      → ((x : A) → p x ≡ true → q x ≡ true)
      → delete_if q (delete_if p xs) ≡ delete_if q xs
  unfolding delete_if
  delete_if-absorbs p q [] wider = refl
  delete_if-absorbs p q (x ∷ xs) wider = ground (arith, wider x, delete_if-absorbs p q xs wider)

module _ {A : Type 0} (p q : A → Bool) (f : A → A) where
  -- The rows that an update newly brings under a test.
  abbrev pub newly : A → Bool
  newly x = p x && q (f x) && not (q x)

  pub count_if-newly : (xs : List A) → count_if newly xs ≤ count_if p xs
  unfolding count_if
  count_if-newly [] = omega arith
  count_if-newly (x ∷ xs) = ground (arith, count_if-newly xs)

  -- The one row that the update changes is under the test already.
  pub count_if-found :
      (x : A) (xs : List A)
      → find_if p xs ≡ some x
      → q x ≡ true
      → count_if p xs ≤ 1
      → count_if newly xs ≡ 0
  unfolding count_if find_if
  count_if-found x [] found h one = ground arith
  count_if-found x (y ∷ xs) found h one = ground (arith, count_if-newly xs, count_if-found x xs)

  pub count_if-update_if :
      (xs : List A) → count_if q (update_if p f xs) ≤ count_if q xs + count_if newly xs
  unfolding count_if update_if
  count_if-update_if [] = omega arith
  count_if-update_if (x ∷ xs) = ground (arith, count_if-update_if xs)

module _ {A : Type 0} (p q r : A → Bool) where
  count_if-delete_le : (xs : List A) → count_if q (delete_if p xs) ≤ count_if q xs
  unfolding count_if delete_if
  count_if-delete_le [] = omega arith
  count_if-delete_le (x ∷ xs) = ground (arith, count_if-delete_le xs)

  count_if-some :
      (x : A) (xs : List A)
      → ((y : A) → r y ≡ true → q y ≡ true)
      → find_if r xs ≡ some x
      → 1 ≤ count_if q xs
  unfolding count_if find_if
  count_if-some x [] wider found = ground arith
  count_if-some x (y ∷ xs) wider found = ground (arith, wider y, count_if-some x xs wider)

  -- A deletion that takes the one row of a test leaves none of it.
  pub count_if-deleted :
      (x : A) (xs : List A)
      → ((y : A) → r y ≡ true → q y ≡ true)
      → find_if r xs ≡ some x
      → p x ≡ true
      → count_if q xs ≤ 1
      → count_if q (delete_if p xs) ≡ 0
  unfolding count_if find_if delete_if
  count_if-deleted x [] wider found taken one = ground arith
  count_if-deleted x (y ∷ xs) wider found taken one =
      ground (
        arith,
        wider y,
        count_if-delete_le xs,
        count_if-some x xs wider,
        count_if-deleted x xs wider,
      )

module _ {A : Type 0} (q r : A → Bool) where
  -- What a wider test does not find.
  pub find_if-narrow :
      (xs : List A) → ((y : A) → r y ≡ true → q y ≡ true) → count_if q xs ≡ 0 → find_if r xs ≡ none
  unfolding count_if find_if
  find_if-narrow [] wider h = refl
  find_if-narrow (x ∷ xs) wider h = ground (arith, wider x, find_if-narrow xs wider)
