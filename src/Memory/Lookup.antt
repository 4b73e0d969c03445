-- ===== src/Memory/Lookup.antt =====
-- get_page_from_id and get_page_from_addr.
use native.Mathlib.Nat.{div-eq_of_lt-le}
use psar_dsm.Prelude.{
  ℕ, ◌+◌, ◌-◌, ◌*◌, ◌/◌, ◌%◌, ◌^◌, ◌≤◌, ◌<◌, ◌≡◌, refl, ◌∙◌, none, some, arith, ltb, if◌then◌else◌,
}
use psar_dsm.Memory.{Memory, get_page_from_id, get_page_from_addr}

-- On a memory of at least one page and at most 2 ^ 32, get_page_from_id finds each page by its
-- number and gives NULL for every other `unsigned int`.
pub get_page_from_id_lem :
    (m : Memory) (i : ℕ)
    → 0 < m.page_count
    → m.page_count ≤ 2 ^ 32
    → i < 2 ^ 32
    → get_page_from_id m i ≡ (if ltb i m.page_count then some i else none)
unfolding get_page_from_id
get_page_from_id_lem m i some_page few small = ground arith

same_id : (m : Memory) (i : ℕ) → get_page_from_id m i ≡ get_page_from_id m (i % 2 ^ 32)
unfolding get_page_from_id
same_id m i = let e : i % 2 ^ 32 % 2 ^ 32 ≡ i % 2 ^ 32 = omega arith in rw e refl

offset-div : (i o s : ℕ) → o < s → (i * s + o) / s ≡ i
offset-div i o s h = div-eq_of_lt-le s (omega arith) (omega arith)

-- Any byte `o` of the page number `i` above the base address leads to the lookup of `i`; the
-- number is cut to 32 bits there, so that addresses 2 ^ 32 pages apart are taken for one page.
pub get_page_from_addr-get_page_from_id :
    (m : Memory) (i o : ℕ)
    → o < m.pagesize
    → m.base_addr + (i * m.pagesize + o) < 2 ^ 64
    → get_page_from_addr m (m.base_addr + (i * m.pagesize + o)) ≡ get_page_from_id m i
unfolding get_page_from_addr get_page_from_id
get_page_from_addr-get_page_from_id m i o inside fits =
    let offset : (m.base_addr + (i * m.pagesize + o) + 2 ^ 64 - m.base_addr) % 2 ^ 64
        ≡ i * m.pagesize + o =
      omega arith in
    rw (offset, offset-div i o m.pagesize inside) (ground arith)

-- On a memory of at least one page and at most 2^32, get_page_from_addr finds the page of any byte of
-- the page number i above the base address, below the end of the address space, if i, cut to 32 bits,
-- is the number of a page, and gives NULL if it is not.
pub get_page_from_addr_lem :
    (m : Memory) (i o : ℕ)
    → 0 < m.page_count
    → m.page_count ≤ 2 ^ 32
    → o < m.pagesize
    → m.base_addr + (i * m.pagesize + o) < 2 ^ 64
    → get_page_from_addr m (m.base_addr + (i * m.pagesize + o))
      ≡ (if ltb (i % 2 ^ 32) m.page_count then some (i % 2 ^ 32) else none)
get_page_from_addr_lem m i o some_page few inside fits =
    get_page_from_addr-get_page_from_id m i o inside fits
    ∙ same_id m i
    ∙ get_page_from_id_lem m (i % 2 ^ 32) some_page few (omega arith)
