-- ===== src/Memory/Tests.antt =====
-- Lookups and the start of a memory of three pages of four bytes at the address 4096.
use psar_dsm.Prelude.{◌+◌, ◌*◌, ◌^◌, ◌≡◌, refl, none, some, [], arith}
use psar_dsm.Memory.{Memory, get_page_from_addr}
use psar_dsm.Memory.Lookup.{get_page_from_addr_lem}

abbrev small : Memory
small = record { pagesize = 4; page_count = 3; base_addr = 4096; pages = [] }

-- The last byte of what would be the page number 2^32 + 1 is taken for a byte of page 1.
get_page_from_addr_lem_example : get_page_from_addr small (4096 + ((2 ^ 32 + 1) * 4 + 3)) ≡ some 1
get_page_from_addr_lem_example =
    get_page_from_addr_lem small (2 ^ 32 + 1) 3 (omega arith) (omega arith) (omega arith)
      (omega arith)

past_the_end : get_page_from_addr small (4096 + 3 * 4) ≡ none
unfolding get_page_from_addr
past_the_end = refl

before_the_start : get_page_from_addr small 4095 ≡ none
unfolding get_page_from_addr
before_the_start = refl
