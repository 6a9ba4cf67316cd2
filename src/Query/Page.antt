-- ===== src/Query/Page.antt =====
-- tmsdb/filter.go: pages. An `int` of Go is wide enough for the products of two `int32`.
use backend_pkg.Common.{
  ℕ, suc, zero, ℤ, pos, negsuc, int32, ◌+◌, ◌-◌, ◌*◌, ◌/◌, ◌%◌, ◌^◌, ◌≤◌, ◌<◌, ◌≡◌, ap, ◌∙◌, ltb,
  leb, lt→ltb, ltb-false, ◌==◌, if◌then◌else◌, Option, none, some, arith,
}
use backend_pkg.Query.Gorm.{Gorm}
use backend_pkg.Query.Filters.{PaginationInput, Pagination}
use backend_pkg.Query.Builder.{FilterBuilder}

unfoldable limit_of : ℤ → ℕ
limit_of (negsuc n) = 20
limit_of (pos zero) = 20
limit_of (pos (suc n)) = suc n

page_number : ℤ → ℕ
page_number (negsuc n) = 1
page_number (pos zero) = 1
page_number (pos (suc n)) = suc n

-- `none` is a nil input.
pub get_limit : Option PaginationInput → ℕ
unfolding limit_of
get_limit none = 20
get_limit (some p) = limit_of p.limit

get_page : Option PaginationInput → ℕ
unfolding page_number
get_page none = 1
get_page (some p) = page_number p.page

-- `Page <= 1` gives 0, any other page the rows before it.
offset_of : ℤ → ℕ → ℕ
offset_of (negsuc n) limit = 0
offset_of (pos n) limit = if leb n 1 then 0 else (n - 1) * limit

get_offset : Option PaginationInput → ℕ
unfolding offset_of
get_offset none = 0
get_offset (some p) = offset_of p.page (get_limit (some p))

-- `totalInt / limit`, one more if something is left over, and 1 in place of 0. The division of Go
-- rounds towards 0, and what is left over of a negative number is not positive.
pub total_pages : ℤ → ℕ → ℤ
total_pages (pos t) limit =
    let q = t / limit in
    let r = if ltb 0 (t % limit) then q + 1 else q in if r == 0 then pos 1 else pos r
total_pages (negsuc t) limit = let q = (t + 1) / limit in if q == 0 then pos 1 else negsuc (q - 1)

pub new_pagination : Option PaginationInput → ℕ → Pagination
unfolding total_pages
new_pagination input total =
    let t = int32 total in
    record {
      page = pos (get_page input);
      limit = pos (get_limit input);
      total = t;
      total_pages = total_pages t (get_limit input);
    }

module _ (g : Gorm) where
  open g use {DB, limit_offset, page_of, page_of-limit_offset}

  pub paginate : FilterBuilder g → Option PaginationInput → FilterBuilder g
  paginate fb p =
      let limit = if ltb fb.max_limit (get_limit p) then fb.max_limit else get_limit p in
      record fb { db = limit_offset fb.db limit (get_offset p) }

limit_pos : (p : Option PaginationInput) → 0 < get_limit p
unfolding get_limit
limit_pos none = omega arith
limit_pos (some p) = limit_of_pos p.limit
  where
    limit_of_pos : (l : ℤ) → 0 < limit_of l
    limit_of_pos (negsuc n) = omega arith
    limit_of_pos (pos zero) = omega arith
    limit_of_pos (pos (suc n)) = omega arith

div_bounds : (t l : ℕ) → 0 < l → (t ≡ (t / l) * l + t % l) × (t % l < l)
div_bounds t l h = grind arith

-- The pages for `q` full ones and `r` rows left over.
abbrev pages_for : ℕ → ℕ → ℕ
pages_for q r = let n = if ltb 0 r then q + 1 else q in if n == 0 then 1 else n

pages_for_both : (q r : ℕ) → pages_for (suc q) (suc r) ≡ suc (suc q)
pages_for_both q r = ground arith

two_more : (q l : ℕ) → suc (suc q) * l ≡ q * l + l + l
two_more q l = omega arith

one_more : (q l : ℕ) → suc q * l ≡ q * l + l
one_more q l = omega arith

less_one : (q l : ℕ) → (suc (suc q) - 1) * l ≡ suc q * l
less_one q l = ap (λ x. x * l) (omega arith)

pages_for_bounds :
    (q r l t : ℕ)
    → 0 < l
    → t ≡ q * l + r
    → r < l
    → (1 ≤ pages_for q r) × (t ≤ pages_for q r * l) × ((pages_for q r - 1) * l ≤ t - 1)
pages_for_bounds zero zero l t h e k = ground arith
pages_for_bounds zero (suc r) l t h e k = ground arith
pages_for_bounds (suc q) zero l t h e k = ground arith
pages_for_bounds (suc q) (suc r) l t h e k =
    rw (pages_for_both q r) (omega (arith, two_more q l, one_more q l, less_one q l))

abbrev pages : ℕ → ℕ → ℕ
pages t l = pages_for (t / l) (t % l)

pages_bounds :
    (t l : ℕ) → 0 < l → (1 ≤ pages t l) × (t ≤ pages t l * l) × ((pages t l - 1) * l ≤ t - 1)
pages_bounds t l h = let (e, k) = div_bounds t l h in pages_for_bounds (t / l) (t % l) l t h e k

total_pages_lem : (t l : ℕ) → total_pages (pos t) l ≡ pos (pages t l)
unfolding total_pages
total_pages_lem t l = ground arith

int32_small : (n : ℕ) → n < 2 ^ 31 → int32 n ≡ pos n
int32_small n h = ground arith

-- Up to 2^31 - 1 rows, the reported total is exact, there is at least one page, the pages have room
-- for every row, and the last of them does not begin behind the last row.
pub new_pagination_lem :
    (p : Option PaginationInput) (total : ℕ)
    → total < 2 ^ 31
    → ((new_pagination p total).total ≡ pos total)
      × ((n : ℕ) × ((new_pagination p total).total_pages ≡ pos n)
          × (1 ≤ n)
          × (total ≤ n * get_limit p)
          × ((n - 1) * get_limit p ≤ total - 1))
unfolding new_pagination
new_pagination_lem p total h =
    let (lo, room, hi) = pages_bounds total (get_limit p) (limit_pos p) in
    (
      int32_small total h,
      (
        pages total (get_limit p),
        rw (int32_small total h) (total_pages_lem total (get_limit p)),
        lo,
        room,
        hi,
      ),
    )

-- The input for page `n + 1`.
abbrev pub at_page : ℤ → ℕ → Option PaginationInput
at_page l n = some (record { page = pos (suc n); limit = l })

offset-at_page : (l : ℤ) (n : ℕ) → get_offset (at_page l n) ≡ n * limit_of l
unfolding get_offset offset_of get_limit
offset-at_page l zero = ground arith
offset-at_page l (suc n) = ground arith

module _ (g : Gorm) where
  open g use {page_of, page_of-limit_offset}

  paginate_within :
      (fb : FilterBuilder g) (l : ℤ) (n : ℕ)
      → limit_of l ≤ fb.max_limit
      → (o : ℕ) → get_offset (at_page l n) ≡ o
      → page_of (paginate g fb (at_page l n)).db ≡ some (limit_of l, o)
  unfolding paginate get_limit
  paginate_within fb l n h o e =
      rw (ltb-false fb.max_limit (limit_of l) h, e) (page_of-limit_offset fb.db (limit_of l) o)

  paginate_clamped :
      (fb : FilterBuilder g) (l : ℤ) (n : ℕ)
      → fb.max_limit < limit_of l
      → (o : ℕ) → get_offset (at_page l n) ≡ o
      → page_of (paginate g fb (at_page l n)).db ≡ some (fb.max_limit, o)
  unfolding paginate get_limit
  paginate_clamped fb l n h o e =
      rw (lt→ltb fb.max_limit (limit_of l) h, e) (page_of-limit_offset fb.db fb.max_limit o)

  -- Where the asked limit is within the builder's, each page begins where the page before it ends.
  paginate_adjacent :
      (fb : FilterBuilder g) (l : ℤ) (n : ℕ)
      → limit_of l ≤ fb.max_limit
      → (page_of (paginate g fb (at_page l n)).db ≡ some (limit_of l, n * limit_of l))
        × (page_of (paginate g fb (at_page l (suc n))).db
            ≡ some (limit_of l, n * limit_of l + limit_of l))
  paginate_adjacent fb l n h = (
    paginate_within fb l n h (n * limit_of l) (offset-at_page l n),
    paginate_within fb l (suc n) h (n * limit_of l + limit_of l)
        (offset-at_page l (suc n) ∙ omega arith),
  )

  -- Where it is above the builder's limit, the next page begins behind the end of the page before it:
  -- `limit - max_limit` rows stand on no page.
  paginate_gap :
      (fb : FilterBuilder g) (l : ℤ) (n : ℕ)
      → fb.max_limit < limit_of l
      → (page_of (paginate g fb (at_page l n)).db ≡ some (fb.max_limit, n * limit_of l))
        × (page_of (paginate g fb (at_page l (suc n))).db
            ≡ some (fb.max_limit, n * limit_of l + fb.max_limit + (limit_of l - fb.max_limit)))
  paginate_gap fb l n h = (
    paginate_clamped fb l n h (n * limit_of l) (offset-at_page l n),
    paginate_clamped fb l (suc n) h (n * limit_of l + fb.max_limit + (limit_of l - fb.max_limit))
        (offset-at_page l (suc n) ∙ omega arith),
  )
