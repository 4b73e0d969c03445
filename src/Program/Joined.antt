-- ===== src/Program/Joined.antt =====
-- A program on a slave from the return of InitSlave on (dsm_n_init of dsm.c).
use psar_dsm.Prelude.{
  ℕ, zero, suc, ◌+◌, ◌<◌, ◌≡◌, ◌≢◌, refl, ap, Bool, true, false, Option, none, some, List, [], ◌∷◌,
  ◌==◌, ◌^◌, ltb, out_of_fuel, if◌then◌else◌, ok, exit, fault, blocked, IfOk, IfOk-bind, IfOk-chain,
  if-IfOk, option-IfOk, arith, length, length-replicate, replicate, get_elem?,
}
use mathlib.Core.Path.{subst}
use mathlib.Core.Option.{some-injective}
use psar_dsm.Memory.{Page, Memory, init_page, init_pages, dsm_memory_init}
use psar_dsm.Message.{Message, connect, Event, Surroundings, dsm_send_msg}
use psar_dsm.Node.{Node}
use psar_dsm.Node.Handlers.{pointer_size}
use psar_dsm.Node.Join.{System, dsm_master_init, accept_ack, dsm_n_init}
use psar_dsm.Program.{Statement, calls, running, run_statement, Thread, Reach}
use psar_dsm.Node.CallInvariant.{terminates}
use psar_dsm.Program.Discipline.{nothing_held, checks, is_text, AllGive}
use psar_dsm.Program.Ready.{Fits, Good}
use psar_dsm.Program.Checked.{checks-Safe}

init_page-Fits :
    (writes : Bool) (i : ℕ) (zeros : List ℕ)
    → Fits writes (length zeros) false (init_page false i zeros)
unfolding init_page
init_page-Fits writes i zeros = record {
  ready = record {
    directory = refl;
    mirrored = refl;
    readable = λ e. absurd (ground arith);
    granted_read = λ e. absurd (ground arith);
    granted_write = λ e w. absurd (ground arith);
    sized = refl;
  };
  locked = refl;
  here = λ e. absurd (ground arith);
}

init_pages-Fits :
    (writes : Bool) (k n i : ℕ) (zeros : List ℕ) (p : Page)
    → get_elem? (init_pages false k n zeros) i ≡ some p
    → Fits writes (length zeros) false p
unfolding init_pages
init_pages-Fits writes zero n i zeros p e = absurd cc
init_pages-Fits writes (suc k) n zero zeros p e =
    subst (Fits writes (length zeros) false) (some-injective (init_page false n zeros) p e)
      (init_page-Fits writes n zeros)
init_pages-Fits writes (suc k) n (suc i) zeros p e = init_pages-Fits writes k (n + 1) i zeros p e

length-init_pages : (k n : ℕ) (zeros : List ℕ) → length (init_pages false k n zeros) ≡ k
unfolding init_pages
length-init_pages zero n zeros = refl
length-init_pages (suc k) n zeros = ap suc (length-init_pages k (n + 1) zeros)

-- The memory of a slave.
record Fresh (writes : Bool) (m : Memory) : Type 0 where
  counted : length m.pages ≡ m.page_count
  pages : (i : ℕ) (p : Page) → get_elem? m.pages i ≡ some p → Fits writes m.pagesize false p

dsm_memory_init-Fresh :
    (writes : Bool) (mapping : ℕ) (allocated : Bool) (s k : ℕ)
    → IfOk (Fresh writes) (dsm_memory_init mapping allocated s k false)
unfolding dsm_memory_init
dsm_memory_init-Fresh writes mapping allocated s k =
    if-IfOk (Fresh writes) (mapping == 0) exit _ tt (
      if-IfOk (Fresh writes) allocated _ exit
        (if-IfOk (Fresh writes) (ltb k (2 ^ 32)) _ out_of_fuel
          (record {
            counted = length-init_pages k 0 (replicate s 0);
            pages = λ i p at.
                subst (λ (z : ℕ). Fits writes z false p) (length-replicate {A = ℕ} s 0)
                  (init_pages-Fits writes k 0 i (replicate s 0) p at);
          })
          tt)
        tt)

IsReady : (writes : Bool) → Node → Type 0
IsReady writes n = Good writes n.mem nothing_held n

Fresh-IsReady :
    (writes : Bool) (n : Node) → n.is_master ≡ false → Fresh writes n.mem → IsReady writes n
unfolding IsReady
Fresh-IsReady writes n slave fresh = record {
  slave = slave;
  size = refl;
  count = refl;
  base = refl;
  counted = fresh.counted;
  pages = fresh.pages;
}

abbrev joined_node : System → (fd : ℕ) → Memory → List Event → Node
joined_node sys fd m t = record {
  mem = m;
  is_master = false;
  master_sockfd = fd;
  sync_barrier_waiters = none;
  client_count = sys.stale_client_count;
  trace = t;
}

dsm_n_init-IsReady :
    (writes : Bool) (sys : System) (env : Surroundings) (reply : Option Message)
    → IfOk (IsReady writes) (dsm_n_init sys env reply)
unfolding dsm_n_init IsReady
dsm_n_init-IsReady writes sys env reply = option-IfOk (IsReady writes) sys.page_size _ λ s.
    if-IfOk (IsReady writes) sys.allocates _ exit
      (IfOk-bind (IsReady writes) (dsm_master_init sys false) _ λ connected.
        option-IfOk (IsReady writes) connected _ λ fd.
          IfOk-bind (IsReady writes) (dsm_send_msg env fd (connect pointer_size s) []) _ λ r.
            IfOk-bind {A = Bool} (IsReady writes) (if r.0 then ok true else exit) _ λ u.
              IfOk-bind {A = ℕ} (IsReady writes)
                (elim reply [ none ↦ exit | some msg ↦ accept_ack sys msg ]) _
                λ page_count.
                  IfOk-chain (Fresh writes) (IsReady writes)
                    (dsm_memory_init sys.mapping sys.allocates s page_count false) _
                    (dsm_memory_init-Fresh writes sys.mapping sys.allocates s page_count)
                    λ m fresh.
                      if-IfOk (IsReady writes) sys.starts_thread (ok (joined_node sys fd m r.1))
                        exit (Fresh-IsReady writes (joined_node sys fd m r.1) refl fresh) tt)
      tt

abbrev pub started : Node → List Statement → Thread
started n statements = record { node = n; place = running; rest = statements }

-- Where a program that passes the check of its locks has joined by InitSlave, none of its statements
-- waits for a mutex that the program itself holds, and none faults but the printf of a text and the
-- call of terminate, which reads pages without their mutex, whatever messages its listener handles and
-- whenever the thread is woken, if each page comes with the right to read it, and to write it if the
-- program stores, and a page has at least one byte.
pub joined-Safe :
    (sys : System) (env : Surroundings) (reply : Option Message) (writes : Bool) (n : Node)
    (main : (base_addr : ℕ) → List Statement) (t : Thread) (c : Statement) (rest : List Statement)
    → dsm_n_init sys env reply ≡ ok n
    → 0 < n.mem.pagesize
    → checks writes n.mem nothing_held (main n.mem.base_addr) ≡ true
    → (r : Reach env (started n (main n.mem.base_addr)) t) → AllGive writes r
    → t.place ≡ running
    → t.rest ≡ c ∷ rest
    → (run_statement env t.node c ≢ blocked)
      × (is_text c ≡ false → c ≢ calls terminates → run_statement env t.node c ≢ fault)
unfolding IsReady
joined-Safe sys env reply writes n main t c rest joins sized passes r gives up is =
    let (free, safe) =
      checks-Safe env writes (started n (main n.mem.base_addr)) t c rest sized refl
        (subst (IfOk (IsReady writes)) joins (dsm_n_init-IsReady writes sys env reply)) passes r
        gives up is in
    (free, λ not_text stays. safe not_text)
