-- ===== src/Cluster.antt =====
-- One page in a system of nodes: its record on each node, the messages about it that are under way,
-- and the steps of the listeners and of the programs' own threads, interleaved in any order.
pub mod Nodes
pub mod Channel
pub mod Local
pub mod Invariant
pub mod Turns
pub mod Moves
pub mod Rounds
pub mod Preserved
pub mod Coherence
pub mod Starvation
pub mod Overlap
pub mod Asked
pub mod Granted
pub mod Quiet
pub mod Writers
pub mod Section
pub mod LockedOut
pub mod Contents
pub mod Agreement
pub mod LastStore
mod Tests
mod OverlapTests
use psar_dsm.Prelude.{
  ℕ, ◌≡◌, ◌≢◌, Bool, true, false, none, some, List, [], ◌∷◌, ◌++◌, ◌==◌, if◌then◌else◌, ok, length,
}
use psar_dsm.LinkedList.Queue.{Queue, add, remove}
use psar_dsm.Memory.{Request, Directory, Page, may_write, slave_equals}
use psar_dsm.Message.{
  Message, lockpage, invalidate, invalidate_ack, givepage, Event, sent, Surroundings,
}
use psar_dsm.Core.{again, returns, serve}
use psar_dsm.Node.{Node}
use psar_dsm.Node.Handlers.{givepage_page, invalidate_page}
use psar_dsm.Node.Api.{Lock, lock_page, lock_page_wake, unlock_write_page, give_back}

abbrev pub update {ℓ} : {A : Type ℓ} → (ℕ → A) → ℕ → A → ℕ → A
update f i a j = if j == i then a else f j

-- The messages that a trace sends, oldest first.
abbrev pub posted : List Event → List Message
posted [] = []
posted (sent fd m ∷ t) = posted t ++ m ∷ []
posted (_ ∷ t) = posted t

-- Those of them that go to a given socket.
abbrev pub posted_to : ℕ → List Event → List Message
posted_to j [] = []
posted_to j (sent fd m ∷ t) = if fd == j then posted_to j t ++ m ∷ [] else posted_to j t
posted_to j (_ ∷ t) = posted_to j t

-- Node 0 is the master, which is also connected to itself. `up i` holds the messages from node `i`
-- to the master and `down i` those to node `i` from the master, oldest first; `i` is also the
-- master's number for that socket. `serving` says that the master's listener is in the loop of
-- process_list_requests.
pub record Cluster : Type 0 where
  pub node : ℕ → Page
  pub up : ℕ → List Message
  pub down : ℕ → List Message
  pub serving : Bool

-- What a step of node `i` leaves: its page, its two channels and the master's listener.
abbrev pub local : Cluster → ℕ → Page → (up down : List Message) → (serving : Bool) → Cluster
local s i p u d b = record {
  node = update s.node i p;
  up = update s.up i u;
  down = update s.down i d;
  serving = b;
}

-- The handler of the master for a message from node `i`, up to process_list_requests, whose loop is
-- entered if the page is up to date.
abbrev pub takes : Cluster → ℕ → Page → (rest : List Message) → Cluster
takes s i p rest = record s {
  node = update s.node 0 p;
  up = update s.up i rest;
  serving = p.uptodate;
}

-- A round of the loop, with what it sends.
abbrev pub round : Cluster → Page → List Event → Bool → Cluster
round s p t b = record s {
  node = update s.node 0 p;
  down = λ j. s.down j ++ posted_to j t;
  serving = b;
}

-- Node `i` is not the master in its loop, so its listener takes the next message.
abbrev pub Listens : Cluster → ℕ → Type 0
Listens s i = i ≡ 0 → s.serving ≡ false

-- `station i` has what node `i` keeps besides its pages. Each round of the master's loop is a step
-- of its own, so that other nodes, and the master's own thread, act between two rounds. A step here is
-- done at once; Overlap lets its messages be taken before its node's page is changed, as in the source,
-- where unlock_write, terminate and process_list_requests send a page before they give it up.
module _ (env : Surroundings) (station : ℕ → Node) where
  pub data Step (s : Cluster) : Cluster → Type 0 where
    locks :
        (i rights : ℕ) {p : Page} {l : Lock} {t : List Event}
        → lock_page env (station i).master_sockfd (s.node i) rights [] ≡ ok (p, l, t)
        → Step s (local s i p (s.up i ++ posted t) (s.down i) s.serving)
    wakes :
        (i : ℕ) {p : Page}
        → lock_page_wake (s.node i) ≡ ok p
        → Step s (local s i p (s.up i) (s.down i) s.serving)
    unlocks_read :
        (i : ℕ)
        → Step s (local s i (record (s.node i) { locked = false }) (s.up i) (s.down i) s.serving)
    unlocks_write :
        (i : ℕ) {p : Page} {t : List Event}
        → unlock_write_page env (station i).master_sockfd (s.node i) [] ≡ ok (p, t)
        → Step s (local s i p (s.up i ++ posted t) (s.down i) s.serving)
    -- A slave gives the page back as it leaves.
    leaves :
        (i : ℕ) {p : Page} {t : List Event}
        → i ≢ 0
        → give_back env (station i).master_sockfd (s.node i ∷ []) [] ≡ ok (p ∷ [], t)
        → Step s (local s i p (s.up i ++ posted t) (s.down i) s.serving)
    -- The program writes into the page.
    stores :
        (i : ℕ) (bytes : List ℕ)
        → may_write (s.node i).mapped ≡ true
        → length bytes ≡ length (s.node i).bytes
        → Step s (local s i (record (s.node i) { bytes = bytes }) (s.up i) (s.down i) s.serving)
    hears_page :
        (i fuel id rights : ℕ) {bytes : List ℕ} {rest : List Message} {p : Page} {t : List Event}
        → Listens s i
        → s.down i ≡ givepage id rights bytes ∷ rest
        → givepage_page env fuel
            (record (station i) { is_master = false })
            id
            rights
            bytes
            (s.node i)
            []
          ≡ ok (p, t)
        → Step s (local s i p (s.up i) rest (if i == 0 then true else s.serving))
    hears_invalidate :
        (i from id : ℕ) {rest : List Message} {p : Page} {t : List Event}
        → Listens s i
        → s.down i ≡ invalidate id ∷ rest
        → invalidate_page env (station i).mem.page_count from id (s.node i) [] ≡ ok (p, t)
        → Step s (local s i p (s.up i ++ posted t) rest s.serving)
    takes_request :
        (i id rights block : ℕ) {rest : List Message} {d : Directory} {q : Queue Request}
        → s.serving ≡ false
        → s.up i ≡ lockpage id rights ∷ rest
        → (s.node 0).directory ≡ some d
        → add d.requests_queue (record { sockfd = i; rights = rights; block = block }) ≡ ok q
        → Step s (
            takes s i
              (record (s.node 0) { directory = some (record d { requests_queue = q }) })
              rest)
    takes_ack :
        (i id : ℕ) {rest : List Message} {d : Directory}
        → s.serving ≡ false
        → s.up i ≡ invalidate_ack id ∷ rest
        → (s.node 0).directory ≡ some d
        → Step s (
            takes s i
              (record (s.node 0) {
                directory = some (record d {
                  current_readers_queue = remove slave_equals i d.current_readers_queue;
                });
              })
              rest)
    takes_page :
        (i fuel id rights : ℕ) {bytes : List ℕ} {rest : List Message} {p : Page} {t : List Event}
        → s.serving ≡ false
        → s.up i ≡ givepage id rights bytes ∷ rest
        → givepage_page env fuel
            (record (station 0) { is_master = false })
            id
            rights
            bytes
            (s.node 0)
            []
          ≡ ok (p, t)
        → Step s (takes s i p rest)
    serves :
        {d d' : Directory} {req : Request} {rest : List Request} {t : List Event}
        → s.serving ≡ true
        → (s.node 0).directory ≡ some d
        → d.requests_queue.items ≡ req ∷ rest
        → serve env (s.node 0) d req [] ≡ ok (again d' t)
        → Step s (round s (record (s.node 0) { directory = some d' }) t true)
    grants :
        {d : Directory} {req : Request} {rest : List Request} {p : Page} {t : List Event}
        → s.serving ≡ true
        → (s.node 0).directory ≡ some d
        → d.requests_queue.items ≡ req ∷ rest
        → serve env (s.node 0) d req [] ≡ ok (returns p t)
        → Step s (round s p t false)
    rests :
        {d : Directory}
        → s.serving ≡ true
        → (s.node 0).directory ≡ some d
        → d.requests_queue.items ≡ []
        → Step s (record s { serving = false })

  pub data Reach (s : Cluster) : Cluster → Type 0 where
    here : Reach s s
    next : {t u : Cluster} → Reach s t → Step t u → Reach s u
