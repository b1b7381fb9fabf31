-- ===== src/Index/Manager.antt =====
-- index/b+tree/index_manager.cc: the header of a new index. The length of an attribute is not
-- negative.
pub mod Fanout
use alphadb.Prelude.{ℕ, zero, suc, ◌+◌, ◌-◌, ◌*◌, ◌/◌, Option, none, some, ltb, if◌then◌else◌}
use alphadb.Prelude.Int.{ℤ, pos, negsuc}

pub record IndexHeader : Type 0 where
  pub root_page : ℤ
  pub pair_size : ℕ
  pub fanout : ℕ
  pub height : ℕ
  pub attr_type : ℤ
  pub attr_length : ℕ

-- DEFAULT_PAGE_SIZE - sizeof(page_header), with which create_index counts, and sizeof(rid) + attr_len
abbrev pub page_room : ℕ
page_room = 4092

abbrev pub pair_size : ℕ → ℕ
pair_size attr_len = 8 + attr_len

-- INDEX_PAGE_SIZE of index_format.h: 4096 - sizeof(index_page_hdr) - 4
abbrev pub index_page_size : ℕ
index_page_size = 4076

-- The loop that counts the fan-out down, `fuel` tests of its condition at most.
unfoldable pub fit_fanout : ℕ → ℕ → ℕ → Option ℕ
fit_fanout zero attr_len fanout = none
fit_fanout (suc fuel) attr_len fanout =
    let rest = fit_fanout fuel attr_len (fanout - 1) in
    if ltb page_room (fanout * pair_size attr_len) then rest else some fanout

-- The header that index_manager::create_index writes to the first page.
unfoldable pub new_header : ℕ → ℤ → ℕ → Option IndexHeader
new_header fuel attr_type attr_len =
    elim (fit_fanout fuel attr_len (page_room / pair_size attr_len)) [
      | none ↦ none
      | some fanout ↦ some record {
        root_page = negsuc 0;
        pair_size = pair_size attr_len;
        fanout = fanout;
        height = 0;
        attr_type = attr_type;
        attr_length = attr_len;
      }
    ]
