-- ===== src/Memory.antt =====
-- dsm_memory.c and dsm_memory.h: the pages of a node and their lookup.
-- An address is a number below 2 ^ 64, a `size_t` or `unsigned long` wraps at 2 ^ 64 and an
-- `unsigned int` at 2 ^ 32. The memory that mmap returns is kept page by page, beside the record
-- of each page: the right that the last mmap or mprotect gave it, and its bytes. The mutex of a
-- page is the flag `locked`; nothing is kept of the condition variables, which hold no state.
pub mod Lookup
pub mod Init
mod Tests
use psar_dsm.Prelude.{
  ℕ, zero, suc, ◌+◌, ◌-◌, ◌*◌, ◌/◌, ◌%◌, ◌^◌, Bool, true, false, Option, none, some, List, [], ◌∷◌,
  ◌==◌, ltb, if◌then◌else◌, replicate, Run, ok, exit, out_of_fuel,
}
use psar_dsm.LinkedList.Queue.{Queue, empty}

abbrev pub prot_none : ℕ
prot_none = 0

abbrev pub prot_read : ℕ
prot_read = 1

abbrev pub prot_write : ℕ
prot_write = 2

-- `rights & PROT_READ` and `rights & PROT_WRITE`
abbrev pub may_read : ℕ → Bool
may_read r = r % 2 == 1

abbrev pub may_write : ℕ → Bool
may_write r = r / 2 % 2 == 1

-- dsm_page_request_t, with the address of the block that holds the queue's copy of it.
pub record Request : Type 0 where
  pub sockfd : ℕ
  pub rights : ℕ
  pub block : ℕ

abbrev pub slave_equals : ℕ → ℕ → Bool
slave_equals a b = a == b

-- The test compares the two addresses.
abbrev pub request_equals : Request → Request → Bool
request_equals a b = a.block == b.block

-- The fields of dsm_page_t that only the master uses.
pub record Directory : Type 0 where
  pub requests_queue : Queue Request
  pub current_readers_queue : Queue ℕ
  pub invalidate_sent : Bool

-- dsm_page_t. On a slave the two queues are NULL (`none`).
pub record Page : Type 0 where
  pub page_id : ℕ
  pub protection : ℕ
  pub locked : Bool
  pub uptodate : Bool
  pub write_owner : ℕ
  pub directory : Option Directory
  pub mapped : ℕ
  pub bytes : List ℕ

-- dsm_memory_t
pub record Memory : Type 0 where
  pub pagesize : ℕ
  pub page_count : ℕ
  pub base_addr : ℕ
  pub pages : List Page

-- `page_count - 1` at type size_t
abbrev pub last_page : Memory → ℕ
last_page m = (m.page_count + 2 ^ 64 - 1) % 2 ^ 64

-- The index of the page, `none` for NULL. The parameter is an `unsigned int`.
unfoldable pub get_page_from_id : Memory → ℕ → Option ℕ
get_page_from_id m id = if ltb (last_page m) (id % 2 ^ 32) then none else some (id % 2 ^ 32)

-- `(addr - base_addr) / pagesize`, kept in an `unsigned int`
abbrev pub page_of_addr : Memory → ℕ → ℕ
page_of_addr m addr = (addr + 2 ^ 64 - m.base_addr) % 2 ^ 64 / m.pagesize % 2 ^ 32

unfoldable pub get_page_from_addr : Memory → ℕ → Option ℕ
get_page_from_addr m addr =
    if ltb (last_page m) (page_of_addr m addr)
    then none
    else get_page_from_id m (page_of_addr m addr)

abbrev empty_directory : Directory
empty_directory = record {
  requests_queue = empty;
  current_readers_queue = empty;
  invalidate_sent = false;
}

-- The entry that the loop of dsm_memory_init makes for page `i`. calloc leaves write_owner at 0,
-- and mmap fills a new page with zeros.
unfoldable pub init_page : Bool → (i : ℕ) → (zeros : List ℕ) → Page
init_page is_master i zeros = record {
  page_id = i;
  protection = if is_master then prot_read + prot_write else prot_none;
  locked = false;
  uptodate = is_master;
  write_owner = 0;
  directory = if is_master then some empty_directory else none;
  mapped = if is_master then prot_read + prot_write else prot_none;
  bytes = zeros;
}

-- `for (i = 0; i < page_count; i++)`: the pages from `i` on, with `n` rounds left.
unfoldable pub init_pages : Bool → (n i : ℕ) → (zeros : List ℕ) → List Page
init_pages is_master zero i zeros = []
init_pages is_master (suc n) i zeros =
    init_page is_master i zeros ∷ init_pages is_master n (i + 1) zeros

-- `mapping` is what mmap returns. The source compares it with NULL, and mmap reports failure by
-- MAP_FAILED, so a failure is not noticed; calloc's is (`allocated`). The counter of the loop is an
-- `unsigned int` and `page_count` a size_t: from 2^32 pages on the counter wraps around below the
-- bound for ever, and the loop does not end.
unfoldable pub dsm_memory_init :
    (mapping : ℕ) → (allocated : Bool) → (pagesize page_count : ℕ) → Bool → Run Memory
dsm_memory_init mapping allocated pagesize page_count is_master =
    if mapping == 0
    then exit
    else if allocated
    then if ltb page_count (2 ^ 32)
      then ok (record {
        pagesize = pagesize;
        page_count = page_count;
        base_addr = mapping;
        pages = init_pages is_master page_count 0 (replicate pagesize 0);
      })
      else out_of_fuel
    else exit
