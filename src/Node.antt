-- ===== src/Node.antt =====
-- dsm.h: the state of one node (dsm_t), with the trace of what it has sent and signalled, newest
-- event first. The listener's thread runs the handlers of Node/Handlers.antt, the program's own
-- thread the calls of Node/Api.antt.
pub mod Handlers
pub mod Api
pub mod Calls
pub mod CallInvariant
pub mod Acquire
pub mod Join
pub mod Listener
pub mod Role
pub mod Descriptors
pub mod Watched
pub mod Ledger
pub mod Clients
pub mod Blocks
pub mod Quit
pub mod Release
pub mod Handshake
pub mod Invariant
pub mod Requests
pub mod Exclusive
pub mod Barrier
mod Tests
mod HandshakeTests
mod ListenerTests
mod ReleaseTests
use psar_dsm.Prelude.{ℕ, Bool, Option, none, some, List, Run, ok, fault, ◌>>=◌, get_elem?, set}
use psar_dsm.LinkedList.Queue.{Queue}
use psar_dsm.Memory.{Page, Memory, get_page_from_id}
use psar_dsm.Message.{Event}

-- dsm_t and the dsm_master_t that it points to. sync_barrier_waiters is allocated by the master
-- alone (`none` on a slave). client_count is kept as the bit pattern of its 32 bits.
pub record Node : Type 0 where
  pub mem : Memory
  pub is_master : Bool
  pub master_sockfd : ℕ
  pub sync_barrier_waiters : Option (Queue ℕ)
  pub client_count : ℕ
  pub trace : List Event

-- A handler's work on the page that get_page_from_id gives for `id`. The handlers use the pointer
-- without a test, so NULL, and an index past the end, are undefined.
unfoldable pub with_page : Node → ℕ → (Page → List Event → Run (Page × List Event)) → Run Node
with_page n id f = elim (get_page_from_id n.mem id) [
  | none ↦ fault
  | some i ↦ elim (get_elem? n.mem.pages i) [
    | none ↦ fault
    | some p ↦ f p n.trace >>= λ (p', t').
        ok (record n { mem = record (n.mem) { pages = set n.mem.pages i p' }; trace = t' })
  ]
]
