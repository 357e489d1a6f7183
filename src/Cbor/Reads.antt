-- ===== src/Cbor/Reads.antt =====
-- internal/web/cbor.go: the decoder looks at nothing behind the value that it returns.
use azeroth_core_web.Base.{
  ℕ, zero, suc, ◌+◌, ◌-◌, ◌/◌, ◌%◌, ◌≤◌, ◌≡◌, ◌∙◌, refl, sym, ap, ◌||◌, Bool, true, false, [], ◌∷◌,
  ◌++◌, append_assoc, Text, ◌==◌, arith, ltb, if◌then◌else◌, length, take, drop, length-append,
  length-take, take-append-drop, take-append, drop-append, Bool-cases, inl, inr, ◌^◌,
}
use azeroth_core_web.Base.Words.{i64_limit}
use azeroth_core_web.Db.{Result, ok, err}
use azeroth_core_web.Cbor.{
  Value, Pairs, CborError, Read, then_read, read_number, read_length, read_string, repeat_array,
  repeat_table, read_array, read_table, read_simple, negative_int, read_body, read_value, position,
  decode_cbor, is_key, put, big_endian,
}

-- What a read takes of the unread bytes, and that it reads the same whatever follows.
abbrev Taken : {A : Type 0} → Read A → Text → A → Text → Type 0
Taken m unread a rest =
    (taken : Text) × (unread ≡ taken ++ rest) × ((more : Text) → m (taken ++ more) ≡ ok (a, more))

record IsLocal {A : Type 0} (m : Read A) : Type 0 where
  at : (unread : Text) (a : A) (rest : Text) → m unread ≡ ok (a, rest) → Taken m unread a rest

module _ {A B : Type 0} where
  both-Taken :
      (m : Read A) (k : A → Read B) (unread : Text) (r : Result CborError (A × Text)) (b : B)
      (rest : Text)
      → m unread ≡ r
      → IsLocal m
      → ((a : A) → IsLocal (k a))
      → then_read r k ≡ ok (b, rest)
      → Taken (λ u. then_read (m u) k) unread b rest
  both-Taken m k unread (err e) b rest first local next h = cc
  both-Taken m k unread (ok (a, middle)) b rest first local next h =
      let (t, split, stable) = local.at unread a middle first in
      let (t', split', stable') = (next a).at middle b rest h in
      (
        t ++ t',
        rw (split, split', append_assoc t t' rest) refl,
        λ more. rw (append_assoc t t' more, stable (t' ++ more)) (stable' more),
      )

  then_read-IsLocal :
      (m : Read A) (k : A → Read B)
      → IsLocal m
      → ((a : A) → IsLocal (k a))
      → IsLocal (λ u. then_read (m u) k)
  then_read-IsLocal m k local next = record {
    at = λ unread b rest h. both-Taken m k unread (m unread) b rest refl local next h;
  }

module _ {A : Type 0} where
  ok-IsLocal : (a : A) → IsLocal (λ u. ok (a, u))
  ok-IsLocal a = record { at = λ u b rest h. ([], cc, λ more. cc) }

  err-IsLocal : (e : CborError) → IsLocal {A = A} (λ u. err e)
  err-IsLocal e = record { at = λ u b rest h. cc }

  branch-IsLocal :
      (b : Bool) (m n : Read A) → IsLocal m → IsLocal n → IsLocal (λ u. if b then m u else n u)
  branch-IsLocal true m n yes_case no_case = yes_case
  branch-IsLocal false m n yes_case no_case = no_case

-- A read of a fixed number of bytes, where there are enough.
length_taken : (n : ℕ) (u : Text) → ltb (length u) n ≡ false → length (take n u) ≡ n
length_taken n u enough = ground (arith, enough, length-take n u)

again :
    (n : ℕ) (u more : Text)
    → ltb (length u) n ≡ false
    → (ltb (length (take n u ++ more)) n ≡ false)
      × (take n (take n u ++ more) ≡ take n u)
      × (drop n (take n u ++ more) ≡ more)
again n u more enough =
    let same = length_taken n u enough in
    (
      ground (arith, same, length-append (take n u) more),
      rw same at (take-append (take n u) more),
      rw same at (drop-append (take n u) more),
    )

read_number-IsLocal : (n : ℕ) → IsLocal (read_number n)
unfolding read_number
read_number-IsLocal n = record {
  at = λ u a rest h. elim (Bool-cases (ltb (length u) n)) [
    | inl short ↦ absurd (ground (arith, h, short))
    | inr enough ↦
        let value : a ≡ big_endian 0 (take n u) = ground (arith, h, enough) in
        let left : rest ≡ drop n u = ground (arith, h, enough) in
        (
          take n u,
          rw left (sym (take-append-drop n u)),
          λ more. let (a1, a2, a3) = again n u more enough in rw (a1, a2, a3, value) refl,
        )
  ];
}

read_string-IsLocal : (wrap : Text → Value) (n : ℕ) → IsLocal (read_string wrap n)
unfolding read_string
read_string-IsLocal wrap n = record {
  at = λ u a rest h. elim (Bool-cases (ltb (length u) n)) [
    | inl short ↦ absurd (ground (arith, h, short))
    | inr enough ↦ elim (Bool-cases (ltb (2 ^ 20) n)) [
      | inl long ↦ absurd (ground (arith, h, long))
      | inr fits ↦
          let value : a ≡ wrap (take n u) = ground (arith, h, enough, fits) in
          let left : rest ≡ drop n u = ground (arith, h, enough, fits) in
          (
            take n u,
            rw left (sym (take-append-drop n u)),
            λ more. let (a1, a2, a3) = again n u more enough in rw (a1, a2, a3, value, fits) refl,
          )
    ]
  ];
}

read_length-IsLocal : (additional : ℕ) → IsLocal (read_length additional)
unfolding read_length
read_length-IsLocal additional = branch-IsLocal (ltb additional 24) _ _ (ok-IsLocal additional) (
    branch-IsLocal (additional == 24) _ _ (read_number-IsLocal 1) (
      branch-IsLocal (additional == 25) _ _ (read_number-IsLocal 2) (
        branch-IsLocal (additional == 26) _ _ (read_number-IsLocal 4)
          (branch-IsLocal (additional == 27) _ _ (read_number-IsLocal 8) (err-IsLocal _)))))

repeat_array-IsLocal : (n : ℕ) (item : Read Value) → IsLocal item → IsLocal (repeat_array n item)
unfolding repeat_array
repeat_array-IsLocal zero item local = ok-IsLocal _
repeat_array-IsLocal (suc n) item local = then_read-IsLocal item _ local λ v.
    then_read-IsLocal (repeat_array n item) _ (repeat_array-IsLocal n item local) λ vs. ok-IsLocal _

repeat_table-IsLocal :
    (n : ℕ) (item : Read Value) (pairs : Pairs) → IsLocal item → IsLocal (repeat_table n item pairs)
unfolding repeat_table
repeat_table-IsLocal zero item pairs local = ok-IsLocal _
repeat_table-IsLocal (suc n) item pairs local = then_read-IsLocal item _ local λ key.
    branch-IsLocal (is_key key) _ _
      (then_read-IsLocal item _ local λ v. repeat_table-IsLocal n item (put key v pairs) local)
      (err-IsLocal _)

read_body-IsLocal :
    (item : Read Value) (major additional n : ℕ)
    → IsLocal item
    → IsLocal (read_body item major additional n)
unfolding read_body read_array read_table read_simple negative_int
read_body-IsLocal item major additional n local = branch-IsLocal (major == 0) _ _ (ok-IsLocal _) (
    branch-IsLocal (major == 1) _ _
      (branch-IsLocal (ltb (i64_limit - 1) n) _ _ (err-IsLocal _) (ok-IsLocal _))
      (branch-IsLocal (major == 2) _ _ (read_string-IsLocal Value.bytes n) (
        branch-IsLocal (major == 3) _ _ (read_string-IsLocal Value.text n) (
          branch-IsLocal (major == 4) _ _
            (branch-IsLocal (ltb 1024 n) _ _ (err-IsLocal _)
              (then_read-IsLocal _ _ (repeat_array-IsLocal n item local) λ vs. ok-IsLocal _))
            (branch-IsLocal (major == 5) _ _
              (branch-IsLocal (ltb 1024 n) _ _ (err-IsLocal _) (
                then_read-IsLocal _ _ (repeat_table-IsLocal n item Pairs.no_pairs local)
                  λ ps. ok-IsLocal _))
              (branch-IsLocal (major == 6) _ _ local (
                branch-IsLocal (additional == 20) _ _ (ok-IsLocal _) (
                  branch-IsLocal (additional == 21) _ _ (ok-IsLocal _) (
                    branch-IsLocal ((additional == 22) || (additional == 23)) _ _ (ok-IsLocal _)
                      (err-IsLocal _))))))))))

deeper-IsLocal : (room : ℕ) → IsLocal (read_value room) → IsLocal (read_value (suc room))
unfolding read_value
deeper-IsLocal room local = record { at = value_taken }
  where
    value_taken :
        (u : Text) (a : Value) (rest : Text)
        → read_value (suc room) u ≡ ok (a, rest)
        → Taken (read_value (suc room)) u a rest
    value_taken [] a rest h = cc
    value_taken (initial ∷ u) a rest h =
        let body = λ (n : ℕ). read_body (read_value room) (initial / 32) (initial % 32) n in
        let (t, split, stable) =
          (then_read-IsLocal (read_length (initial % 32)) body (read_length-IsLocal (initial % 32))
              (λ n. read_body-IsLocal (read_value room) (initial / 32) (initial % 32) n local)).at
            u a rest h in
        (initial ∷ t, ap (λ (x : Text). initial ∷ x) split, stable)

read_value-IsLocal : (room : ℕ) → IsLocal (read_value room)
unfolding read_value
read_value-IsLocal zero = err-IsLocal _
read_value-IsLocal (suc room) = deeper-IsLocal room (read_value-IsLocal room)

position_eq :
    (size : ℕ) (r : Result CborError (Value × Text)) (v : Value) (n : ℕ)
    → position size r ≡ ok (v, n)
    → (rest : Text) × (r ≡ ok (v, rest)) × (n ≡ size - length rest)
position_eq size (ok (w, rest)) v n h =
    let value : w ≡ v = ground (arith, h) in (rest, rw value refl, ground (arith, h))
position_eq size (err e) v n h = cc

decode_again :
    (all t rest more : Text) (v : Value) (n : ℕ)
    → all ≡ t ++ rest
    → n ≡ length t
    → read_value 17 (t ++ more) ≡ ok (v, more)
    → decode_cbor (take n all ++ more) ≡ ok (v, n)
unfolding decode_cbor
decode_again all t rest more v n split count stable =
    let same : take n all ≡ t = rw (split, count) (take-append t rest) in
    let size : length (t ++ more) - length more ≡ n = omega (arith, length-append t more, count) in
    rw (same, stable, size) refl

-- A decoded value depends on nothing behind it: if decoding gives a value and the position n, then n
-- is within the data, and the first n bytes give the same value and position whatever follows them.
pub decode_cbor-prefix :
    (all : Text) (v : Value) (n : ℕ) (more : Text)
    → decode_cbor all ≡ ok (v, n)
    → (n ≤ length all) × (decode_cbor (take n all ++ more) ≡ ok (v, n))
unfolding decode_cbor
decode_cbor-prefix all v n more h =
    let (rest, found, size) = position_eq (length all) (read_value 17 all) v n h in
    let (t, split, stable) = (read_value-IsLocal 17).at all v rest found in
    let size_all : length all ≡ length t + length rest =
      ap (λ (x : Text). length x) split ∙ length-append t rest in
    let count : n ≡ length t = omega (arith, size, size_all) in
    (omega (arith, size), decode_again all t rest more v n split count (stable more))
