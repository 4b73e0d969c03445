-- ===== src/Memory/Init.antt =====
-- dsm_memory_init, and what every operation keeps of a page.
use mathlib.Core.Path.{subst}
use mathlib.Core.Option.{some-injective}
use psar_dsm.Prelude.{
  ℕ, zero, suc, ◌+◌, ◌≡◌, refl, ap, Bool, true, false, some, List, [], ◌∷◌, ◌≢◌, ◌<◌, ◌^◌, ltb,
  arith, ◌==◌, length, Ends, replicate, length-replicate, get_elem?, set,
}
use psar_dsm.Memory.{Memory, Page, may_read, init_page, init_pages, dsm_memory_init}

-- What the record says of the page's rights is what the hardware enforces; a page that is up to
-- date can be read; the page has its size.
pub record IsConsistent (pagesize : ℕ) (p : Page) : Type 0 where
  pub mirrored : p.mapped ≡ p.protection
  pub readable : p.uptodate ≡ true → may_read p.protection ≡ true
  pub sized : length p.bytes ≡ pagesize

-- The pages are numbered from `n` on and consistent, and have a directory exactly on the master.
abbrev pub PagesFrom : (pagesize n : ℕ) → List Page → Type 0
PagesFrom s n [] = Unit {0}
PagesFrom s n (p ∷ ps) = (p.page_id ≡ n) × IsConsistent s p × PagesFrom s (n + 1) ps

pub record IsMemory (m : Memory) : Type 0 where
  pub counted : length m.pages ≡ m.page_count
  pub pages : PagesFrom m.pagesize 0 m.pages

init_pages-PagesFrom :
    (is_master : Bool) (k n : ℕ) (zeros : List ℕ)
    → PagesFrom (length zeros) n (init_pages is_master k n zeros)
      × (length (init_pages is_master k n zeros) ≡ k)
unfolding init_pages init_page
init_pages-PagesFrom is_master zero n zeros = (tt, refl)
init_pages-PagesFrom true (suc k) n zeros =
    let (ps, l) = init_pages-PagesFrom true k (n + 1) zeros in
    ((refl, record { mirrored = refl; readable = λ _. refl; sized = refl }, ps), ap suc l)
init_pages-PagesFrom false (suc k) n zeros =
    let (ps, l) = init_pages-PagesFrom false k (n + 1) zeros in
    (
      (refl, record { mirrored = refl; readable = λ e. absurd (ground arith); sized = refl }, ps),
      ap suc l,
    )

-- If mmap and calloc succeed and there are fewer than 2^32 pages, dsm_memory_init returns a memory of
-- `page_count` consistent pages, numbered from 0.
pub dsm_memory_init-IsMemory :
    (mapping pagesize page_count : ℕ) (is_master : Bool)
    → mapping ≢ 0
    → page_count < 2 ^ 32
    → Ends
        (λ m. IsMemory m × (m.page_count ≡ page_count) × (m.base_addr ≡ mapping))
        (dsm_memory_init mapping true pagesize page_count is_master)
unfolding dsm_memory_init
dsm_memory_init-IsMemory mapping pagesize page_count is_master ne few =
    let given : (mapping == 0) ≡ false = ground arith in
    let counts : ltb page_count (2 ^ 32) ≡ true = ground arith in
    let (ps, l) = init_pages-PagesFrom is_master page_count 0 (replicate pagesize 0) in
    rw (given, counts)
      (
        record {
          counted = l;
          pages =
              subst (λ k. PagesFrom k 0 (init_pages is_master page_count 0 (replicate pagesize 0)))
                (length-replicate {A = ℕ} pagesize 0) ps;
        },
        refl,
        refl,
      )

module _ (s : ℕ) where
  pub PagesFrom-get :
      (ps : List Page) (n i : ℕ) (p : Page)
      → PagesFrom s n ps
      → get_elem? ps i ≡ some p
      → (p.page_id ≡ n + i) × IsConsistent s p
  PagesFrom-get [] n i p h e = absurd (ground arith)
  PagesFrom-get (q ∷ ps) n zero p h e =
      subst (λ r. (r.page_id ≡ n + 0) × IsConsistent s r) (some-injective q p e)
        (omega (arith, h.0), h.1)
  PagesFrom-get (q ∷ ps) n (suc i) p h e =
      let (a, c) = PagesFrom-get ps (n + 1) i p h.2 e in (omega arith, c)

  pub PagesFrom-set :
      (ps : List Page) (n i : ℕ) (p : Page)
      → PagesFrom s n ps
      → p.page_id ≡ n + i
      → IsConsistent s p
      → PagesFrom s n (set ps i p)
  PagesFrom-set [] n i p h e c = tt
  PagesFrom-set (q ∷ ps) n zero p h e c = (omega arith, c, h.2)
  PagesFrom-set (q ∷ ps) n (suc i) p h e c =
      (h.0, h.1, PagesFrom-set ps (n + 1) i p h.2 (omega arith) c)
