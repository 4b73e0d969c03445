-- ===== src/Node/Blocks.antt =====
-- The memory that a node's initialisation takes from malloc, calloc and mmap, and that dsm_destroy
-- of dsm.c, dsm_memory_destroy and dsm_master_destroy give back.
use psar_dsm.Prelude.{
  ℕ, zero, suc, ◌+◌, Bool, true, false, ◌&&◌, List, [], ◌∷◌, ◌++◌, ◌==◌, if◌then◌else◌, Run, ok,
  fault, ◌>>=◌,
}

-- dsm_t, its members, the array of pages, the mapping, and the two list_t of a page. What list_add
-- takes for the nodes of a list is left to list_destroy (LinkedList/Sweep.antt).
pub data Block : Type 0 where
  dsm mem master waiters host page_table mapping : Block
  requests_queue current_readers_queue : (page : ℕ) → Block

abbrev tag : Block → ℕ
tag dsm = 0
tag mem = 1
tag master = 2
tag waiters = 3
tag host = 4
tag page_table = 5
tag mapping = 6
tag (requests_queue i) = 7
tag (current_readers_queue i) = 8

abbrev index : Block → ℕ
index (requests_queue i) = i
index (current_readers_queue i) = i
index _ = 0

abbrev pub same : Block → Block → Bool
same b c = tag b == tag c && index b == index c

-- A read of a block that was given back, or never taken, is undefined.
abbrev pub uses : Block → List Block → Run (List Block)
uses b [] = fault
uses b (c ∷ cs) = if same b c then ok (c ∷ cs) else (uses b cs >>= λ cs'. ok (c ∷ cs'))

-- And so is giving it back.
abbrev pub free : Block → List Block → Run (List Block)
free b [] = fault
free b (c ∷ cs) = if same b c then ok cs else (free b cs >>= λ cs'. ok (c ∷ cs'))

-- The two list_t of each page from `i` on.
unfoldable pub take_queues : (n i : ℕ) → List Block → List Block
take_queues zero i live = live
take_queues (suc n) i live =
    take_queues n (i + 1) (live ++ requests_queue i ∷ current_readers_queue i ∷ [])

abbrev pub memory_blocks : (is_master : Bool) → (page_count : ℕ) → List Block → List Block
memory_blocks is_master page_count live =
    let mapped = live ++ mapping ∷ page_table ∷ [] in
    if is_master then take_queues page_count 0 mapped else mapped

-- InitMaster and dsm_m_init, in the order of the calls.
abbrev pub master_blocks : (page_count : ℕ) → List Block
master_blocks page_count =
    memory_blocks true page_count (dsm ∷ mem ∷ master ∷ waiters ∷ []) ++ host ∷ []

-- InitSlave and dsm_n_init.
abbrev pub slave_blocks : (page_count : ℕ) → List Block
slave_blocks page_count = memory_blocks false page_count (dsm ∷ master ∷ host ∷ mem ∷ [])

-- dsm_master_destroy shuts the socket down, and does not close it.
unfoldable pub dsm_master_destroy : List Block → Run (List Block)
dsm_master_destroy live = uses master live >>= free host

-- What dsm_memory_destroy gives back of a page of the master.
unfoldable pub destroy_page : (i : ℕ) → List Block → Run (List Block)
destroy_page i live = do
  live ← uses (requests_queue i) live
  live ← uses (current_readers_queue i) live
  live ← free (requests_queue i) live
  free (current_readers_queue i) live

-- The loop of dsm_memory_destroy over the pages from `i` on. It reads is_master through dsm_g.
unfoldable pub destroy_pages : (is_master : Bool) → (n i : ℕ) → List Block → Run (List Block)
destroy_pages is_master zero i live = ok live
destroy_pages is_master (suc n) i live = do
  live ← uses page_table live
  live ← uses dsm live
  live ← if is_master then destroy_page i live else ok live
  destroy_pages is_master n (i + 1) live

unfoldable pub dsm_memory_destroy :
    (is_master : Bool) → (page_count : ℕ) → List Block → Run (List Block)
dsm_memory_destroy is_master page_count live = do
  live ← uses mem live
  live ← destroy_pages is_master page_count 0 live
  live ← free page_table live
  free mapping live

-- On the thread that calls it. The listener's thread is cancelled first and not joined, so it may still
-- be using the blocks that are freed here; that is not part of the model.
unfoldable pub dsm_destroy : (is_master : Bool) → (page_count : ℕ) → List Block → Run (List Block)
dsm_destroy is_master page_count live = do
  live ← uses dsm live
  live ← dsm_master_destroy live
  live ← dsm_memory_destroy is_master page_count live
  live ← free mem live
  live ← free master live
  if is_master then (uses waiters live >>= free waiters) else ok live
