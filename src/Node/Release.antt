-- ===== src/Node/Release.antt =====
-- What InitMaster, InitSlave and QuitDSM of dsm.c take from the system and give back.
use psar_dsm.Prelude.{
  ℕ, zero, suc, ◌+◌, ◌≡◌, refl, sym, ◌∙◌, Bool, true, false, Option, none, some, List, [], ◌∷◌,
  ◌++◌, ◌==◌, ◌^◌, ltb, out_of_fuel, if◌then◌else◌, ok, exit, fault, blocked, IfOk, IfOk-bind,
  IfOk-mono, bind_cong, ap, if-IfOk, option-IfOk, IfOk-chain, if-exit, if_exit_again, option-exit,
  ◌>>=◌, ==_self,
}
use mathlib.Core.Path.{subst}
use mathlib.Core.List.{append_assoc, append-nil}
use psar_dsm.Message.{Message, connect, Surroundings, terminate_msg, dsm_send_msg}
use psar_dsm.Memory.{dsm_memory_init}
use psar_dsm.Node.{Node}
use psar_dsm.Node.Api.{terminate, master_waits}
use psar_dsm.Node.Handlers.{pointer_size}
use psar_dsm.Node.Join.{System, dsm_master_init, dsm_m_init, accept_ack, dsm_n_init}
use psar_dsm.Node.Blocks.{
  Block, dsm, mem, master, waiters, host, page_table, mapping, requests_queue,
  current_readers_queue, uses, free, take_queues, master_blocks, slave_blocks, dsm_master_destroy,
  destroy_pages, destroy_page, dsm_memory_destroy, dsm_destroy,
}
use psar_dsm.Node.Quit.{
  blocks, fresh, holding, left, Process, init_master, init_slave, destroy, quit_dsm,
}

-- The list_t of the pages from `i` on.
queues : (n i : ℕ) → List Block
queues zero i = []
queues (suc n) i = requests_queue i ∷ current_readers_queue i ∷ queues n (i + 1)

take_queues-queues : (n i : ℕ) (live : List Block) → take_queues n i live ≡ live ++ queues n i
unfolding take_queues queues
take_queues-queues zero i live = sym (append-nil live)
take_queues-queues (suc n) i live =
    take_queues-queues n (i + 1) (live ++ requests_queue i ∷ current_readers_queue i ∷ [])
    ∙ append_assoc live (requests_queue i ∷ current_readers_queue i ∷ []) (queues n (i + 1))

free_host : (n i : ℕ) → free host (queues n i ++ host ∷ []) ≡ ok (queues n i)
unfolding queues
free_host zero i = refl
free_host (suc n) i = rw (free_host n (i + 1)) refl

-- What is taken besides the queues before the name of the host.
abbrev fixed : List Block → List Block
fixed qs = dsm ∷ mem ∷ master ∷ waiters ∷ mapping ∷ page_table ∷ qs

destroy_page-queues :
    (i : ℕ) (qs : List Block)
    → destroy_page i (fixed (requests_queue i ∷ current_readers_queue i ∷ qs)) ≡ ok (fixed qs)
unfolding destroy_page
destroy_page-queues i qs = simp (==_self)

destroy_pages-queues : (n i : ℕ) → destroy_pages true n i (fixed (queues n i)) ≡ ok (fixed [])
unfolding destroy_pages queues
destroy_pages-queues zero i = refl
destroy_pages-queues (suc n) i =
    rw (destroy_page-queues i (queues n (i + 1))) (destroy_pages-queues n (i + 1))

destroy_pages-slave :
    (n i : ℕ)
    → destroy_pages false n i (dsm ∷ master ∷ mem ∷ mapping ∷ page_table ∷ [])
      ≡ ok (dsm ∷ master ∷ mem ∷ mapping ∷ page_table ∷ [])
unfolding destroy_pages
destroy_pages-slave zero i = refl
destroy_pages-slave (suc n) i = destroy_pages-slave n (i + 1)

dsm_destroy-master : (k : ℕ) → dsm_destroy true k (master_blocks k) ≡ ok (dsm ∷ [])
unfolding dsm_destroy dsm_master_destroy dsm_memory_destroy
dsm_destroy-master k =
    rw (take_queues-queues k 0 (fixed []), free_host k 0, destroy_pages-queues k 0) refl

dsm_destroy-slave : (k : ℕ) → dsm_destroy false k (slave_blocks k) ≡ ok (dsm ∷ [])
unfolding dsm_destroy dsm_master_destroy dsm_memory_destroy
dsm_destroy-slave k = rw (destroy_pages-slave k 0) refl

dsm_destroy-blocks : (b : Bool) (k : ℕ) → dsm_destroy b k (blocks b k) ≡ ok (dsm ∷ [])
dsm_destroy-blocks true k = dsm_destroy-master k
dsm_destroy-blocks false k = dsm_destroy-slave k

uses_dsm : (b : Bool) (k : ℕ) → uses dsm (blocks b k) ≡ ok (blocks b k)
uses_dsm true k = rw (take_queues-queues k 0 (fixed [])) refl
uses_dsm false k = refl

-- The size of the memory that `dsm_destroy` goes by.
abbrev Sized : (is_master : Bool) → (page_count : ℕ) → Node → Type 0
Sized is_master page_count n = (n.is_master ≡ is_master) × (n.mem.page_count ≡ page_count)

terminate-Sized :
    (env : Surroundings) (n : Node) → IfOk (Sized n.is_master n.mem.page_count) (terminate env n)
unfolding terminate
terminate-Sized env n = IfOk-bind _ (if n.is_master then ok (n.mem.pages, n.trace) else _) _ λ r.
    IfOk-bind _ (dsm_send_msg env n.master_sockfd terminate_msg r.1) _ λ r'.
      if-IfOk _ r'.0 (ok (record n { mem = record (n.mem) { pages = r.0 }; trace = r'.1 })) exit
        (refl, refl) tt

destroy-blocks : (b : Bool) (k : ℕ) (n : Node) → Sized b k n → destroy n (blocks b k) ≡ ok (left n)
unfolding destroy
destroy-blocks b k n (same_role, same_size) = rw (same_role, same_size, dsm_destroy-blocks b k) refl

-- QuitDSM on a node with all that its initialisation took: once terminate has returned and the master
-- has no client left, every block is given back, each once and none used after by the thread that
-- calls QuitDSM, and the process ends with nothing taken; terminate's own failures are the call's. (The
-- listener's thread, which is cancelled and not joined, is not part of this.)
pub quit_dsm-holding :
    (env : Surroundings) (n : Node)
    → quit_dsm env (holding n)
      ≡ (terminate env n >>= λ n'. if master_waits n' then blocked else ok (left n'))
unfolding quit_dsm
quit_dsm-holding env n = rw (uses_dsm n.is_master n.mem.page_count) (
    bind_cong (terminate env n) _ _ (
      IfOk-mono _ _ (terminate env n) (terminate-Sized env n) (λ n' same.
        ap (λ r. if master_waits n' then blocked else r)
          (destroy-blocks n.is_master n.mem.page_count n' same))))

no_memory-m : (sys : System) (k : ℕ) → sys.allocates ≡ false → dsm_m_init sys k ≡ exit
unfolding dsm_m_init
no_memory-m sys k e = if-exit (k == 0) exit _ refl (option-exit sys.page_size _ λ s. rw e refl)

no_memory-n :
    (sys : System) (env : Surroundings) (reply : Option Message)
    → sys.allocates ≡ false
    → dsm_n_init sys env reply ≡ exit
unfolding dsm_n_init
no_memory-n sys env reply e = option-exit sys.page_size _ λ s. rw e refl

dsm_m_init-Sized : (sys : System) (k : ℕ) → IfOk (Sized true k) (dsm_m_init sys k)
unfolding dsm_m_init dsm_memory_init
dsm_m_init-Sized sys k =
    let P = Sized true k in
    if-IfOk P (k == 0) exit _ tt (
      option-IfOk P sys.page_size _ λ s.
        if-IfOk P sys.allocates _ exit
          (IfOk-chain (λ m. m.page_count ≡ k) P (dsm_memory_init sys.mapping sys.allocates s k true)
            _
            (if-IfOk _ (sys.mapping == 0) exit _ tt (
              if-IfOk _ sys.allocates _ exit (if-IfOk _ (ltb k (2 ^ 32)) _ out_of_fuel refl tt) tt))
            λ m same.
              IfOk-bind P (dsm_master_init sys true) _
                λ _. IfOk-bind P (if sys.starts_thread then _ else exit) _ λ fd. (refl, same))
          tt)

-- init
dsm_n_init-slave :
    (sys : System) (env : Surroundings) (reply : Option Message)
    → IfOk (λ n. n.is_master ≡ false) (dsm_n_init sys env reply)
unfolding dsm_n_init
dsm_n_init-slave sys env reply =
    let P = λ (n : Node). n.is_master ≡ false in
    option-IfOk P sys.page_size _ λ s.
      if-IfOk P sys.allocates _ exit
        (IfOk-bind P (dsm_master_init sys false) _ λ connected. option-IfOk P connected _ λ fd.
          IfOk-bind P (dsm_send_msg env fd (connect pointer_size s) []) _ λ r.
            IfOk-bind P (if r.0 then ok true else exit) _ λ _.
              IfOk-bind P (elim reply [ none ↦ exit | some m ↦ accept_ack sys m ]) _
                λ pages.
                  IfOk-bind P (dsm_memory_init sys.mapping sys.allocates s pages false) _
                    λ mem. if-IfOk P sys.starts_thread _ exit refl tt)
        tt

init_master-holding :
    (sys : System) (page_count : ℕ)
    → init_master sys fresh page_count
      ≡ (dsm_m_init sys page_count >>= λ n. ok (holding n, n.mem.base_addr))
unfolding init_master dsm_m_init
init_master-holding sys k =
    if_exit_again sys.allocates _ _
      (bind_cong (dsm_m_init sys k) _ _ (
        IfOk-mono _ _ (dsm_m_init sys k) (dsm_m_init-Sized sys k)
          λ n (role, size). rw (role, size) refl))
      λ e. rw (no_memory-m sys k e) refl

init_slave-holding :
    (sys : System) (env : Surroundings) (reply : Option Message)
    → init_slave sys env reply fresh
      ≡ (dsm_n_init sys env reply >>= λ n. ok (holding n, n.mem.base_addr))
unfolding init_slave dsm_n_init
init_slave-holding sys env reply =
    if_exit_again sys.allocates _ _
      (bind_cong (dsm_n_init sys env reply) _ _ (
        IfOk-mono _ _ (dsm_n_init sys env reply) (dsm_n_init-slave sys env reply)
          λ n role. rw role refl))
      λ e. rw (no_memory-n sys env reply e) refl

-- InitMaster and InitSlave in a process that has called neither fail where dsm_m_init and dsm_n_init
-- fail, and otherwise give the base address and leave the process with the node and its blocks.
pub init-holding :
    (sys : System) (env : Surroundings) (reply : Option Message) (page_count : ℕ)
    → (init_master sys fresh page_count
        ≡ (dsm_m_init sys page_count >>= λ n. ok (holding n, n.mem.base_addr)))
      × (init_slave sys env reply fresh
          ≡ (dsm_n_init sys env reply >>= λ n. ok (holding n, n.mem.base_addr)))
init-holding sys env reply page_count =
    (init_master-holding sys page_count, init_slave-holding sys env reply)

-- The three calls read freed memory.
abbrev Dangling :
    System → Surroundings → (reply : Option Message) → (page_count : ℕ) → Process → Type 0
Dangling sys env reply page_count p =
    (init_master sys p page_count ≡ fault)
    × (init_slave sys env reply p ≡ fault)
    × (quit_dsm env p ≡ fault)

left-Dangling :
    (sys : System) (env : Surroundings) (reply : Option Message) (page_count : ℕ) (n : Node)
    → Dangling sys env reply page_count (left n)
unfolding init_master init_slave quit_dsm
left-Dangling sys env reply page_count n = (refl, refl, refl)

-- When QuitDSM has returned to a process that held what its initialisation took, the process cannot
-- join again: InitMaster, InitSlave and QuitDSM all read the freed dsm_t.
pub quit_dsm-for_good :
    (env : Surroundings) (n : Node) (p : Process) (sys : System) (reply : Option Message)
    (page_count : ℕ)
    → quit_dsm env (holding n) ≡ ok p
    → (init_master sys p page_count ≡ fault)
      × (init_slave sys env reply p ≡ fault)
      × (quit_dsm env p ≡ fault)
quit_dsm-for_good env n p sys reply page_count returned =
    let P = Dangling sys env reply page_count in
    subst (IfOk P) (sym (quit_dsm-holding env n) ∙ returned) (
      IfOk-bind P (terminate env n) _
        λ n'. if-IfOk P (master_waits n') blocked _ tt (left-Dangling sys env reply page_count n'))
