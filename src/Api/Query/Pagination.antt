-- ===== src/Api/Query/Pagination.antt =====
-- `effective_pagination`. Numbers are `i64`, and products and sums wrap around as in a release build.
use Prim.Native.Nat.{◌%◌}
use ferris_cms.Prelude.{
  ℕ, ◌+◌, ◌-◌, ◌*◌, ◌≤◌, ◌<◌, ◌≡◌, refl, Bool, true, Option, none, some, ltb, leb, arith,
  if◌then◌else◌,
}
use Prim.Native.Nat.{◌/◌}
use ferris_cms.Prelude.Int.{ℤ, pos, negsuc}
use ferris_cms.Api.Query.Model.{PaginationParams, page_of, offset_of}

pub record EffectivePagination : Type 0 where
  pub limit : ℤ
  pub offset : ℤ
  pub page : ℤ
  pub page_size : ℤ
  pub with_count : Bool

-- the `i64` with the bits of `n`
abbrev pub wrap_i64 : ℕ → ℤ
wrap_i64 n =
    let m = n % 18446744073709551616 in
    if ltb m 9223372036854775808 then pos m else negsuc (18446744073709551615 - m)

-- `n.max(k)`, which is not negative
abbrev pub at_least : ℕ → ℤ → ℕ
at_least k (pos n) = if leb k n then n else k
at_least k (negsuc n) = k

abbrev with_count_of : Option Bool → Bool
with_count_of none = true
with_count_of (some b) = b

unfoldable pub effective_pagination : Option PaginationParams → EffectivePagination
effective_pagination (some (page_of page page_size with_count)) = record {
  limit = pos (at_least 1 page_size);
  offset = wrap_i64 ((at_least 1 page - 1) * at_least 1 page_size);
  page = pos (at_least 1 page);
  page_size = pos (at_least 1 page_size);
  with_count = with_count_of with_count;
}
effective_pagination (some (offset_of start limit with_count)) = record {
  limit = pos (at_least 1 limit);
  offset = pos (at_least 0 start);
  page = wrap_i64 (at_least 0 start / at_least 1 limit + 1);
  page_size = pos (at_least 1 limit);
  with_count = with_count_of with_count;
}
effective_pagination none = record {
  limit = pos 25;
  offset = pos 0;
  page = pos 1;
  page_size = pos 25;
  with_count = true;
}

abbrev pub value_of : ℤ → ℕ
value_of (pos n) = n
value_of (negsuc n) = 0

wrap_i64_small : (n : ℕ) → n < 9223372036854775808 → wrap_i64 n ≡ pos n
wrap_i64_small n h = ground arith

wrap_i64_large :
    (n : ℕ) → 9223372036854775808 ≤ n → n < 18446744073709551616 → (m : ℕ) × (wrap_i64 n ≡ negsuc m)
wrap_i64_large n h k = (18446744073709551615 - n, ground arith)

-- The window that a store reads: at least one row to a page, from page one on, and the pages before
-- it are skipped whole.
pub record IsWindow (p : EffectivePagination) : Type 0 where
  pub sizes : p.page_size ≡ p.limit
  pub rows : 1 ≤ value_of p.limit
  pub first : 1 ≤ value_of p.page
  pub skipped : p.offset ≡ pos (value_of p.offset)
  pub within : (value_of p.page - 1) * value_of p.limit ≤ value_of p.offset
  pub before_next : value_of p.offset < value_of p.page * value_of p.limit

abbrev pub Fits : Option PaginationParams → Type 0
Fits none = Unit
Fits (some (page_of page page_size _)) =
    (at_least 1 page - 1) * at_least 1 page_size < 9223372036854775808
Fits (some (offset_of start limit _)) = at_least 0 start / at_least 1 limit < 9223372036854775807

at_least-le : (k : ℕ) (z : ℤ) → k ≤ at_least k z
at_least-le k (pos n) = ground arith
at_least-le k (negsuc n) = omega arith

page_before_next : (p s : ℕ) → 1 ≤ p → 1 ≤ s → (p - 1) * s < p * s
page_before_next p s h k = grind arith

offset_in_page : (n l : ℕ) → 1 ≤ l → (n / l + 1 - 1) * l ≤ n
offset_in_page n l h = grind arith

offset_before_next : (n l : ℕ) → 1 ≤ l → n < (n / l + 1) * l
offset_before_next n l h = grind arith

-- Unless the offset of the page, or the number of the page of an offset, leaves the range of `i64`,
-- the effective pagination is a window: whatever the numbers of the query, zero and negative ones
-- included, the limit is positive, the offset is not negative, and it lies in the page.
pub effective_pagination-IsWindow :
    (params : Option PaginationParams) → Fits params → IsWindow (effective_pagination params)
unfolding effective_pagination
effective_pagination-IsWindow none h = record {
  sizes = refl;
  rows = omega arith;
  first = omega arith;
  skipped = refl;
  within = omega arith;
  before_next = omega arith;
}
effective_pagination-IsWindow (some (page_of page page_size with_count)) h =
    let p = at_least 1 page in
    let n = at_least 1 page_size in
    let e : wrap_i64 ((p - 1) * n) ≡ pos ((p - 1) * n) = wrap_i64_small ((p - 1) * n) h in
    record {
      sizes = refl;
      rows = at_least-le 1 page_size;
      first = at_least-le 1 page;
      skipped = rw e refl;
      within = rw e (omega arith);
      before_next = rw e (page_before_next p n (at_least-le 1 page) (at_least-le 1 page_size));
    }
effective_pagination-IsWindow (some (offset_of start limit with_count)) h =
    let n = at_least 0 start in
    let l = at_least 1 limit in
    let e : wrap_i64 (n / l + 1) ≡ pos (n / l + 1) =
      wrap_i64_small (n / l + 1) (omega (arith, h)) in
    record {
      sizes = refl;
      rows = at_least-le 1 limit;
      first = rw e (omega arith);
      skipped = refl;
      within = rw e (offset_in_page n l (at_least-le 1 limit));
      before_next = rw e (offset_before_next n l (at_least-le 1 limit));
    }

-- A page whose offset leaves the range by less than a factor of two gets a negative offset.
pub effective_pagination-offset_wraps :
    (page page_size : ℤ) (with_count : Option Bool)
    → 9223372036854775808 ≤ (at_least 1 page - 1) * at_least 1 page_size
    → (at_least 1 page - 1) * at_least 1 page_size < 18446744073709551616
    → (n : ℕ) × ((effective_pagination (some (page_of page page_size with_count))).offset
        ≡ negsuc n)
unfolding effective_pagination
effective_pagination-offset_wraps page page_size with_count h k = wrap_i64_large _ h k
