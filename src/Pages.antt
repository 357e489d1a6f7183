-- ===== src/Pages.antt =====
-- internal/web/pagination.go: which page of a list is shown. Go's int has 64 bits; a page is at least 1
-- where `requestPage` made it. A slice that starts or ends before 0
-- panics: it is none here.
pub mod Slices
use azeroth_core_web.Base.{
  ℕ, ◌+◌, ◌-◌, ◌*◌, ◌/◌, ◌%◌, ◌&&◌, Bool, true, false, Option, none, some, List, [], ◌∷◌, ltb, leb,
  if◌then◌else◌, length, take, drop,
}
use azeroth_core_web.Base.Int.{ℤ, pos, negsuc, sub_ℕ, ltb_ℤ}
use azeroth_core_web.Base.Words.{u64_mod, to_int64}

pub record Pagination : Type 0 where
  pub page : ℕ
  pub per_page : ℕ
  pub total : ℕ
  pub total_pages : ℤ
  pub has_previous : Bool
  pub has_next : Bool

-- `max(n, least)` for the parsed number: `if n < least { n = least }`
abbrev pub at_least : ℕ → ℤ → ℕ
at_least least (pos n) = if ltb n least then least else n
at_least least (negsuc n) = least

abbrev pub positive_or : ℕ → ℤ → ℕ
positive_or default (pos n) = if ltb n 1 then default else n
positive_or default (negsuc n) = default

-- `requestPage` on the parsed numbers: the page, its size and its offset
pub record PageRequest : Type 0 where
  pub page : ℕ
  pub per_page : ℕ
  pub offset : ℤ

-- `(page - 1) * perPage` in 64 bits, of a page and a size of at least 1
unfoldable pub offset_of : ℕ → ℕ → ℤ
offset_of page per_page = to_int64 ((page - 1) * per_page % u64_mod)

unfoldable pub request_page : ℤ → ℤ → ℤ → ℤ → PageRequest
request_page page per_page default_size maximum_size =
    let default = positive_or 25 default_size in
    let maximum = at_least default maximum_size in
    let wanted = positive_or default per_page in
    let size = if ltb maximum wanted then maximum else wanted in
    let number = at_least 1 page in
    record { page = number; per_page = size; offset = offset_of number size }

-- `a / b` of Go's integers rounds towards 0.
unfoldable pub quotient : ℤ → ℕ → ℤ
quotient (pos n) q = pos (n / q)
quotient (negsuc n) q = sub_ℕ 0 ((n + 1) / q)

-- `if totalPages > 0 && page > totalPages { page = totalPages }`
unfoldable pub last_page : ℤ → ℕ → ℕ
last_page (pos n) page = if ltb 0 n && ltb n page then n else page
last_page (negsuc n) page = page

-- `paginationMeta`, with its sum in 64 bits
unfoldable pub pagination_meta : ℕ → ℕ → ℕ → Pagination
unfolding quotient last_page
pagination_meta page per_page total =
    let total_pages =
      if ltb 0 total
      then quotient (to_int64 ((total + per_page - 1) % u64_mod)) per_page
      else pos 0 in
    let shown = last_page total_pages page in
    record {
      page = shown;
      per_page = per_page;
      total = total;
      total_pages = total_pages;
      has_previous = ltb 1 shown;
      has_next = ltb_ℤ (pos shown) total_pages;
    }

-- `values[start:end]`, with an end behind the list brought back to it
slice_to {ℓ} : {A : Type ℓ} → ℕ → ℤ → List A → Option (List A)
slice_to start (negsuc n) values = none
slice_to start (pos end) values =
    let stop = if ltb (length values) end then length values else end in
    some (take (stop - start) (drop start values))

slice_from {ℓ} : {A : Type ℓ} → ℤ → ℕ → List A → Option (List A)
unfolding slice_to
slice_from (negsuc n) per_page values = none
slice_from (pos start) per_page values =
    if leb (length values) start
    then some []
    else slice_to start (to_int64 ((start + per_page) % u64_mod)) values

-- `slicePage`
unfoldable pub slice_page {ℓ} : {A : Type ℓ} → List A → ℕ → ℕ → Option (List A) × Pagination
unfolding slice_from
slice_page values page per_page =
    let meta = pagination_meta page per_page (length values) in
    (slice_from (offset_of meta.page per_page) per_page values, meta)
