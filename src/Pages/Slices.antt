-- ===== src/Pages/Slices.antt =====
-- internal/web/pagination.go, `slicePage`: the page that is shown.
use Prim.Native.Nat.{min}
use native.Mathlib.Nat.{mul-le-mul, div-mul-le_self, le-div_iff_mul-le}
use azeroth_core_web.Base.{
  ℕ, zero, suc, ◌+◌, ◌-◌, ◌*◌, ◌/◌, ◌≤◌, ◌<◌, ◌≡◌, some, List, arith, length, take, drop,
  length-take, length-drop, ◌%◌, true, false, ltb, leb, [], ◌∷◌, refl, ap, Bool-cases, inl, inr,
  ltb→lt,
}
use azeroth_core_web.Base.Int.{pos}
use azeroth_core_web.Base.Words.{i64_limit, u64_mod, to_int64}
use azeroth_core_web.Pages.{
  offset_of, quotient, last_page, pagination_meta, slice_to, slice_from, slice_page,
}

-- The number of pages is the quotient, rounded up.
abbrev pub page_count : ℕ → ℕ → ℕ
page_count total per_page = (total + per_page - 1) / per_page

before_end :
    (p m q total : ℕ)
    → p ≤ m + 1
    → (m + 1) * q ≤ total + q - 1
    → 0 < total
    → 0 < q
    → (p - 1) * q < total
before_end p m q total h fits some_total some_q =
    let less : (p - 1) * q ≤ m * q = mul-le-mul (omega arith) (omega arith) in omega (arith, less)

start_of :
    (n p q total : ℕ) → p ≤ n → n * q ≤ total + q - 1 → 0 < total → 0 < q → (p - 1) * q < total
start_of zero p q total below fits some_total some_q =
    before_end p 0 q total (omega arith) (omega arith) some_total some_q
start_of (suc m) p q total below fits some_total some_q =
    before_end p m q total (omega arith) (omega (arith, fits)) some_total some_q

start_in_list : (p q total : ℕ) → p ≤ page_count total q → 0 < total → 0 < q → (p - 1) * q < total
start_in_list p q total h some_total some_q =
    start_of (page_count total q) p q total h (div-mul-le_self (total + q - 1) q) some_total some_q

page_count-positive : (total q : ℕ) → 0 < total → 0 < q → 0 < page_count total q
page_count-positive total q some_total some_q = (le-div_iff_mul-le {k = q} some_q).1 (omega arith)

to_int64_small : (n : ℕ) → n < i64_limit → to_int64 (n % u64_mod) ≡ pos n
unfolding to_int64
to_int64_small n h = ground (arith, h)

take_all {ℓ} : {A : Type ℓ} (n : ℕ) (xs : List A) → length xs ≤ n → take n xs ≡ xs
take_all zero [] h = refl
take_all zero (x ∷ xs) h = absurd (omega (arith, h))
take_all (suc n) [] h = refl
take_all (suc n) (x ∷ xs) h = ap (λ t. x ∷ t) (take_all n xs (omega (arith, h)))

shown_page :
    (page q total : ℕ)
    → 0 < total
    → 0 < q
    → total + q ≤ i64_limit
    → (pagination_meta page q total).page ≡ min page (page_count total q)
unfolding pagination_meta quotient last_page
shown_page page q total some_total some_q fits =
    let there : ltb 0 total ≡ true = ground (arith, some_total) in
    let whole : to_int64 ((total + q - 1) % u64_mod) ≡ pos (total + q - 1) =
      to_int64_small (total + q - 1) (omega (arith, fits, some_total)) in
    rw (there, whole) (ground (arith, page_count-positive total q some_total some_q))

offset_exact : (p q : ℕ) → (p - 1) * q < i64_limit → offset_of p q ≡ pos ((p - 1) * q)
unfolding offset_of to_int64
offset_exact p q h = ground arith

slice_inside {ℓ} :
    {A : Type ℓ} (start q : ℕ) (values : List A)
    → start < length values
    → start + q < i64_limit
    → slice_from (pos start) q values ≡ some (take q (drop start values))
unfolding slice_from slice_to
slice_inside start q values h fits =
    let inside : leb (length values) start ≡ false = ground (arith, h) in
    let rest = length-drop start values in
    rw (inside, to_int64_small (start + q) fits)
      (elim (Bool-cases (ltb (length values) (start + q))) [
        | inl behind ↦
            let past : length values < start + q = ltb→lt (length values) (start + q) behind in
            rw (behind, take_all q (drop start values) (omega (arith, rest, past)))
              (ap some (take_all (length values - start) (drop start values) (omega (arith, rest))))
        | inr before ↦ let size : start + q - start ≡ q = omega arith in rw (before, size) refl
      ])

-- A page of a list that is not empty, whose length and size of a page add up to at most 2^63: the page
-- that is shown is the one asked for, or the last one; it starts within the list, it is not empty and
-- has at most the size of a page, and nothing panics.
pub slice_page_exact {ℓ} :
    {A : Type ℓ} (values : List A) (page per_page : ℕ)
    → 0 < length values
    → length values + per_page ≤ i64_limit
    → 1 ≤ page
    → 1 ≤ per_page
    → let (slice, meta) = slice_page values page per_page in
      let start = (meta.page - 1) * per_page in
      (meta.page ≡ min page (page_count (length values) per_page))
      × (slice ≡ some (take per_page (drop start values)))
      × (1 ≤ length (take per_page (drop start values)))
      × (length (take per_page (drop start values)) ≤ per_page)
unfolding slice_page
slice_page_exact values page per_page some_total fits one_page one_size =
    let shown = shown_page page per_page (length values) some_total one_size fits in
    let p = (pagination_meta page per_page (length values)).page in
    let inside : (p - 1) * per_page < length values =
      start_in_list p per_page (length values) (omega (arith, shown)) some_total one_size in
    let offset = offset_exact p per_page (omega (arith, inside)) in
    let cut = length-take per_page (drop ((p - 1) * per_page) values) in
    let rest = length-drop ((p - 1) * per_page) values in
    (
      shown,
      rw offset
          (slice_inside ((p - 1) * per_page) per_page values inside (omega (arith, inside, fits))),
      ground (arith, cut, rest, inside),
      ground (arith, cut),
    )
