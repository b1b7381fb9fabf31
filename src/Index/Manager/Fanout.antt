-- ===== src/Index/Manager/Fanout.antt =====
-- The fan-out of a new index.
use native.Mathlib.Nat.{div-add-mod', div-mul-le_self, mod-lt}
use alphadb.Prelude.{ℕ, zero, suc, ◌+◌, ◌*◌, ◌/◌, ◌≤◌, ◌<◌, ◌≡◌, refl, some, ltb, false, arith}
use alphadb.Prelude.Int.{ℤ, negsuc}
use alphadb.Index.Manager.{
  IndexHeader, page_room, index_page_size, pair_size, fit_fanout, new_header,
}

abbrev header : ℤ → ℕ → ℕ → IndexHeader
header attr_type attr_len fanout = record {
  root_page = negsuc 0;
  pair_size = pair_size attr_len;
  fanout = fanout;
  height = 0;
  attr_type = attr_type;
  attr_length = attr_len;
}

above : (n p : ℕ) → page_room < (n + 1) * p → p ≤ 16 → index_page_size < n * p
above n p over small = grind arith

-- With at least one test of the loop's condition, create_index makes a header whose fan-out is the
-- greatest number of pairs that take at most 4092 bytes, which is what a page has behind its
-- page_header; the header of an index page is not counted, so that for keys of at most 8 bytes the
-- pairs take more than INDEX_PAGE_SIZE.
pub new_header-fits :
    (fuel : ℕ) (attr_type : ℤ) (attr_len : ℕ)
    → 1 ≤ fuel
    → (h : IndexHeader) × (new_header fuel attr_type attr_len ≡ some h)
      × (h.fanout * h.pair_size ≤ page_room)
      × (page_room < (h.fanout + 1) * h.pair_size)
      × (attr_len ≤ 8 → index_page_size < h.fanout * h.pair_size)
unfolding new_header fit_fanout
new_header-fits zero attr_type attr_len h = absurd (omega arith)
new_header-fits (suc fuel) attr_type attr_len h =
    let room : page_room / pair_size attr_len * pair_size attr_len ≤ page_room =
      div-mul-le_self page_room (pair_size attr_len) in
    let over : page_room < (page_room / pair_size attr_len + 1) * pair_size attr_len = omega (
      arith,
      div-add-mod' page_room (pair_size attr_len),
      mod-lt page_room {m = pair_size attr_len} (omega arith),
    ) in
    let fits : ltb page_room (page_room / pair_size attr_len * pair_size attr_len) ≡ false =
      ground arith in
    (
      header attr_type attr_len (page_room / pair_size attr_len),
      rw (new_header, fit_fanout, fits) refl,
      room,
      over,
      λ short. above (page_room / pair_size attr_len) (pair_size attr_len) over (omega arith),
    )
