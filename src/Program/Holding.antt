-- ===== src/Program/Holding.antt =====
-- The statements of a program that hold what is locked (dsm.c), and those that lock a page.
use psar_dsm.Prelude.{
  ℕ, ◌+◌, ◌≡◌, refl, ◌⊎◌, inl, inr, some, List, [], ◌∷◌, fault, blocked, IfOk, IfOk-bind,
  IfOk-chain, IfOk-mono, if-IfOk,
}
use psar_dsm.Memory.{prot_read, prot_write, may_write, get_page_from_addr}
use psar_dsm.Message.{Event, Surroundings, dsm_send_msg}
use psar_dsm.Node.{Node}
use psar_dsm.Node.Api.{page_at, lock_read, lock_write, wait_barrier}
use psar_dsm.Node.CallInvariant.{
  locks_read, locks_write, unlocks_read, unlocks_write, waits_barrier, terminates,
}
use psar_dsm.Program.{
  Statement, calls, stores, prints_int, prints_text, store_byte, store_bytes, load_bytes, load_text,
  run_statement, int_size, bytes_from,
}
use psar_dsm.Program.Locks.{LockedAt, Kept, Kept-refl, Kept-trans, with-Kept}
use psar_dsm.Program.Locking.{
  Found, Locking, KeptBy, Locks, page_at-Found, locks-Locking, locks-Kept, locks-blocked,
}

-- The statement neither unlocks a page nor leaves the library.
abbrev pub Holding : Statement → Type 0
Holding (calls (unlocks_read addr)) = ⊥
Holding (calls (unlocks_write addr)) = ⊥
Holding (calls terminates) = ⊥
Holding _ = Unit {0}

abbrev pub AllHolding : List Statement → Type 0
AllHolding [] = Unit {0}
AllHolding (c ∷ cs) = Holding c × AllHolding cs

-- The statement locks the page of an address, for reading or for writing.
abbrev pub LocksAddr : (addr : ℕ) → Statement → Type 0
LocksAddr addr c = (c ≡ calls (locks_read addr)) ⊎ (c ≡ calls (locks_write addr))

with_trace : (n : Node) (t : List Event) → Kept n (record n { trace = t })
with_trace n t = record { size = refl; count = refl; base = refl; locks = λ i h. h }

module _ (n : Node) where
  store_byte-Kept : (addr byte : ℕ) → IfOk (Kept n) (store_byte n addr byte)
  unfolding store_byte
  store_byte-Kept addr byte =
      IfOk-chain (Found n addr) (Kept n) (page_at n addr) _ (page_at-Found n addr) λ r found.
        if-IfOk (Kept n) (may_write r.1.mapped) _ fault
          (with-Kept n r.0 r.1 _ n.trace found.1 λ busy. busy) tt

store_bytes-Kept : (n : Node) (addr : ℕ) (bytes : List ℕ) → IfOk (Kept n) (store_bytes n addr bytes)
unfolding store_bytes
store_bytes-Kept n addr [] = Kept-refl n
store_bytes-Kept n addr (b ∷ bs) =
    IfOk-chain (Kept n) (Kept n) (store_byte n addr b) _ (store_byte-Kept n addr b) λ n' k.
      IfOk-mono (Kept n') (Kept n) (store_bytes n' (addr + 1) bs)
        (store_bytes-Kept n' (addr + 1) bs) λ n'' k'. Kept-trans n n' n'' k k'

module _ (env : Surroundings) where
  pub run_statement-Kept :
      (n : Node) (c : Statement) → Holding c → IfOk (KeptBy n) (run_statement env n c)
  unfolding run_statement lock_read lock_write wait_barrier Locks
  run_statement-Kept n (calls (locks_read addr)) h = locks-Kept env n addr prot_read
  run_statement-Kept n (calls (locks_write addr)) h = locks-Kept env n addr (prot_read + prot_write)
  run_statement-Kept n (calls (waits_barrier k)) h =
      IfOk-chain (Kept n) (KeptBy n) _ _
        (IfOk-bind (Kept n) (dsm_send_msg env n.master_sockfd _ n.trace) _
          λ r. if-IfOk (Kept n) r.0 _ _ (with_trace n r.1) tt)
        λ n' k. k
  run_statement-Kept n (stores addr bytes) h =
      IfOk-chain (Kept n) (KeptBy n) (store_bytes n addr bytes) _ (store_bytes-Kept n addr bytes)
        λ n' k. k
  run_statement-Kept n (prints_int addr) h =
      IfOk-bind (KeptBy n) (load_bytes n addr int_size) _ λ r. Kept-refl n
  run_statement-Kept n (prints_text addr) h =
      IfOk-bind (KeptBy n) (load_text n addr (bytes_from n.mem addr)) _ λ r. Kept-refl n
  run_statement-Kept n (calls (unlocks_read addr)) h = absurd h
  run_statement-Kept n (calls (unlocks_write addr)) h = absurd h
  run_statement-Kept n (calls terminates) h = absurd h

  pub run_lock-Locking :
      (n : Node) (addr : ℕ) (c : Statement)
      → LocksAddr addr c
      → IfOk (Locking addr) (run_statement env n c)
  unfolding run_statement lock_read lock_write Locks
  run_lock-Locking n addr c (inl e) = rw e (locks-Locking env n addr prot_read)
  run_lock-Locking n addr c (inr e) = rw e (locks-Locking env n addr (prot_read + prot_write))

  pub run_lock-blocked :
      (n : Node) (addr i : ℕ) (c : Statement)
      → LocksAddr addr c
      → get_page_from_addr n.mem addr ≡ some i
      → LockedAt n i
      → run_statement env n c ≡ blocked
  unfolding run_statement lock_read lock_write Locks
  run_lock-blocked n addr i c (inl e) at busy = rw e (locks-blocked env n addr prot_read i at busy)
  run_lock-blocked n addr i c (inr e) at busy =
      rw e (locks-blocked env n addr (prot_read + prot_write) i at busy)
