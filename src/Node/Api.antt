-- ===== src/Node/Api.antt =====
-- The calls of the program's own thread: lock_page, wait_barrier and terminate of dsm_core.c, and
-- the library functions of dsm.c over them. A call that sleeps on a condition variable is two
-- functions: up to the wait, which gives the mutex back, and what follows a wake-up.
use psar_dsm.Prelude.{
  ℕ, ◌+◌, ◌%◌, ◌^◌, Bool, true, false, ◌&&◌, none, some, List, [], ◌∷◌, ltb, if◌then◌else◌, Run, ok,
  exit, fault, blocked, ◌>>=◌, get_elem?, set,
}
use psar_dsm.Memory.{Request, Page, prot_read, prot_write, may_write, get_page_from_addr}
use psar_dsm.Message.{lockpage, sync_barrier, terminate_msg, Event, Surroundings, dsm_send_msg}
use psar_dsm.Core.{satisfy_request, giveup_localpage}
use psar_dsm.Node.{Node}

-- Whether the caller has the page's mutex, or sleeps until the page has come.
pub data Lock : Type 0 where
  held waiting : Lock

-- From the wake-up on: the mutex is taken again, and the wait goes on if the page is not here.
unfoldable pub lock_page_wake : Page → Run Page
lock_page_wake p =
    if p.locked then blocked else if p.uptodate then ok (record p { locked = true }) else blocked

-- The page of an address, used without a test for NULL.
unfoldable pub page_at : Node → (addr : ℕ) → Run (ℕ × Page)
page_at n addr = elim (get_page_from_addr n.mem addr) [
  | none ↦ fault
  | some i ↦ elim (get_elem? n.mem.pages i) [ none ↦ fault | some p ↦ ok (i, p) ]
]

abbrev pub with : Node → ℕ → Page → List Event → Node
with n i p t = record n { mem = record (n.mem) { pages = set n.mem.pages i p }; trace = t }

-- The request that unlock_write and terminate make up; it is in no queue.
abbrev pub to_master : (master_sockfd rights : ℕ) → Request
to_master master rights = record { sockfd = master; rights = rights; block = 0 }

module _ (env : Surroundings) where
  unfoldable pub lock_page :
      (master_sockfd : ℕ) → Page → (rights : ℕ) → List Event → Run (Page × Lock × List Event)
  lock_page master p rights t =
      if p.locked
      then blocked
      else if p.uptodate
      then ok (record p { locked = true }, held, t)
      else (do
        (sent, t') ← dsm_send_msg env master (lockpage p.page_id rights) t
        if sent then ok (p, waiting, t') else exit)

  unfoldable pub lock_read : Node → (addr : ℕ) → Run (Node × Lock)
  lock_read n addr = do
    (i, p) ← page_at n addr
    (p', l, t) ← lock_page n.master_sockfd p prot_read n.trace
    ok (with n i p' t, l)

  unfoldable pub lock_write : Node → (addr : ℕ) → Run (Node × Lock)
  lock_write n addr = do
    (i, p) ← page_at n addr
    (p', l, t) ← lock_page n.master_sockfd p (prot_read + prot_write) n.trace
    ok (with n i p' t, l)

  unfoldable pub unlock_read : Node → (addr : ℕ) → Run Node
  unlock_read n addr = do
    (i, p) ← page_at n addr
    ok (with n i (record p { locked = false }) n.trace)

  -- The page goes to the master with the rights that it has here, and is given up. The status of
  -- satisfy_request is dropped.
  unfoldable pub unlock_write_page :
      (master_sockfd : ℕ) → Page → List Event → Run (Page × List Event)
  unlock_write_page master p t = do
    (_, t') ← satisfy_request env p (to_master master p.protection) t
    ok (record (giveup_localpage p master) { locked = false }, t')

  unfoldable pub unlock_write : Node → (addr : ℕ) → Run Node
  unlock_write n addr = do
    (i, p) ← page_at n addr
    (p', t) ← unlock_write_page n.master_sockfd p n.trace
    ok (with n i p' t)

  -- Up to the wait for BARRIER_ACK. The count is cut to an `unsigned short`.
  unfoldable pub wait_barrier : Node → (slave_to_wait : ℕ) → Run Node
  wait_barrier n slave_to_wait = do
    (sent, t) ← dsm_send_msg env n.master_sockfd (sync_barrier (slave_to_wait % 2 ^ 16)) n.trace
    if sent then ok (record n { trace = t }) else exit

  -- The loop of terminate over the pages of a slave.
  unfoldable pub give_back :
      (master_sockfd : ℕ) → List Page → List Event → Run (List Page × List Event)
  give_back master [] t = ok ([], t)
  give_back master (p ∷ ps) t =
      (if may_write p.protection
        then (do
          (sent, t') ← satisfy_request env p (to_master master (prot_read + prot_write)) t
          if sent then ok (giveup_localpage p master, t') else exit)
        else ok (p, t))
      >>= λ (p', t'). give_back master ps t' >>= λ (ps', t''). ok (p' ∷ ps', t'')

  -- Up to the wait of the master for the last slave.
  unfoldable pub terminate : Node → Run Node
  terminate n = do
    (ps, t) ←
        if n.is_master
        then ok (n.mem.pages, n.trace)
        else give_back n.master_sockfd n.mem.pages n.trace
    (sent, t') ← dsm_send_msg env n.master_sockfd terminate_msg t
    if sent then ok (record n { mem = record (n.mem) { pages = ps }; trace = t' }) else exit

-- `client_count > 0`, of a signed number of 32 bits: the master goes on waiting.
unfoldable pub master_waits : Node → Bool
master_waits n = n.is_master && ltb 0 n.client_count && ltb n.client_count (2 ^ 31)
