-- ===== src/Program.antt =====
-- The programs over the library (demo_master_writer.c, demo_slave_reader.c, demo_slave_writer_reader.c
-- and the test_dsm_*.c that lock a page): the thread of main beside the node's listener.
pub mod Mains
pub mod Locks
pub mod Locking
pub mod Holding
pub mod Relock
pub mod Discipline
pub mod Ready
pub mod Heard
pub mod Careful
pub mod Mutexes
pub mod Accesses
pub mod Checked
pub mod Joined
mod Tests
mod JoinedTests
use psar_dsm.Prelude.{
  ℕ, zero, suc, ◌+◌, ◌-◌, ◌*◌, ◌%◌, ◌^◌, ◌≡◌, Bool, false, none, some, List, [], ◌∷◌, ◌==◌,
  if◌then◌else◌, Run, ok, fault, ◌>>=◌, get_elem?, set,
}
use psar_dsm.Memory.{Page, Memory, may_read, may_write}
use psar_dsm.Message.{Message, Surroundings}
use psar_dsm.Node.{Node}
use psar_dsm.Node.Handlers.{dsm_dispatch_message}
use psar_dsm.Node.Api.{
  Lock, held, waiting, page_at, with, lock_read, lock_write, unlock_read, unlock_write,
  wait_barrier, terminate, lock_page_wake, master_waits,
}
use psar_dsm.Node.CallInvariant.{
  Call, locks_read, locks_write, unlocks_read, unlocks_write, waits_barrier, terminates,
}

-- A statement of main: a call of the library, a store of some bytes into the shared memory, or a
-- printf that reads an int or a text from it.
pub data Statement : Type 0 where
  calls : Call → Statement
  stores : (addr : ℕ) → (bytes : List ℕ) → Statement
  prints_int prints_text : (addr : ℕ) → Statement

-- Where the thread stands: between two statements, or asleep in lock_page for the page at an index, in
-- wait_barrier, or in terminate.
pub data Place : Type 0 where
  running in_barrier leaving : Place
  in_lock : (index : ℕ) → Place

-- The byte of an address within its page.
abbrev pub offset : Memory → (addr : ℕ) → ℕ
offset m addr = (addr + 2 ^ 64 - m.base_addr) % 2 ^ 64 % m.pagesize

-- An access without the right to it is a segmentation fault.
unfoldable pub store_byte : Node → (addr byte : ℕ) → Run Node
store_byte n addr byte = do
  (i, p) ← page_at n addr
  if may_write p.mapped
      then ok (with n i (record p { bytes = set p.bytes (offset n.mem addr) byte }) n.trace)
      else fault

unfoldable pub store_bytes : Node → (addr : ℕ) → (bytes : List ℕ) → Run Node
store_bytes n addr [] = ok n
store_bytes n addr (b ∷ bs) = store_byte n addr b >>= λ n'. store_bytes n' (addr + 1) bs

unfoldable pub load_byte : Node → (addr : ℕ) → Run ℕ
load_byte n addr = do
  (i, p) ← page_at n addr
  if may_read p.mapped
      then elim (get_elem? p.bytes (offset n.mem addr)) [ none ↦ fault | some b ↦ ok b ]
      else fault

unfoldable pub load_bytes : Node → (addr count : ℕ) → Run (List ℕ)
load_bytes n addr zero = ok []
load_bytes n addr (suc k) =
    load_byte n addr >>= λ b. load_bytes n (addr + 1) k >>= λ bs. ok (b ∷ bs)

-- Up to the byte 0. `left` counts the bytes up to the end of the memory.
unfoldable pub load_text : Node → (addr left : ℕ) → Run (List ℕ)
load_text n addr zero = fault
load_text n addr (suc k) =
    let rest = load_text n (addr + 1) k in
    load_byte n addr >>= λ b. if b == 0 then ok [] else (rest >>= λ bs. ok (b ∷ bs))

abbrev pub bytes_from : Memory → (addr : ℕ) → ℕ
bytes_from m addr = m.base_addr + m.page_count * m.pagesize - addr

abbrev pub after_lock : (index : ℕ) → Lock → Place
after_lock index held = running
after_lock index waiting = in_lock index

abbrev pub locks : Run (ℕ × Page) → Run (Node × Lock) → Run (Node × Place)
locks page result = page >>= λ (i, p). result >>= λ (n, l). ok (n, after_lock i l)

-- `sizeof(int)`
abbrev pub int_size : ℕ
int_size = 4

module _ (env : Surroundings) where
  -- A statement up to its end or its wait. What is printed is left out.
  unfoldable pub run_statement : Node → Statement → Run (Node × Place)
  run_statement n (calls (locks_read addr)) = locks (page_at n addr) (lock_read env n addr)
  run_statement n (calls (locks_write addr)) = locks (page_at n addr) (lock_write env n addr)
  run_statement n (calls (unlocks_read addr)) = unlock_read env n addr >>= λ n'. ok (n', running)
  run_statement n (calls (unlocks_write addr)) = unlock_write env n addr >>= λ n'. ok (n', running)
  run_statement n (calls (waits_barrier k)) = wait_barrier env n k >>= λ n'. ok (n', in_barrier)
  run_statement n (calls terminates) = terminate env n >>= λ n'. ok (n', leaving)
  run_statement n (stores addr bytes) = store_bytes n addr bytes >>= λ n'. ok (n', running)
  run_statement n (prints_int addr) = load_bytes n addr int_size >>= λ _. ok (n, running)
  run_statement n (prints_text addr) =
      load_text n addr (bytes_from n.mem addr) >>= λ _. ok (n, running)

-- A node with its program: `rest` has the statements that have not begun.
pub record Thread : Type 0 where
  pub node : Node
  pub place : Place
  pub rest : List Statement

-- The call of terminate is one step, though it takes no mutex: in the source the listener can handle a
-- message in the midst of it. The listener handles any message from anyone at any time; the thread runs its next statement, or
-- wakes up. A wake-up in wait_barrier may come at any time.
module _ (env : Surroundings) where
  pub data Step (s : Thread) : Thread → Type 0 where
    hears :
        (fuel block from : ℕ) (m : Message) {n : Node}
        → dsm_dispatch_message env fuel block s.node from m ≡ ok n
        → Step s (record s { node = n })
    runs :
        {c : Statement} {rest : List Statement} {n : Node} {place : Place}
        → s.place ≡ running
        → s.rest ≡ c ∷ rest
        → run_statement env s.node c ≡ ok (n, place)
        → Step s (record { node = n; place = place; rest = rest })
    wakes :
        (i : ℕ) {p p' : Page}
        → s.place ≡ in_lock i
        → get_elem? s.node.mem.pages i ≡ some p
        → lock_page_wake p ≡ ok p'
        → Step s (record s { node = with s.node i p' s.node.trace; place = running })
    opens : s.place ≡ in_barrier → Step s (record s { place = running })
    leaves : s.place ≡ leaving → master_waits s.node ≡ false → Step s (record s { place = running })

  pub data Reach (s : Thread) : Thread → Type 0 where
    here : Reach s s
    next : {t u : Thread} → Reach s t → Step t u → Reach s u
