-- ===== src/Node/Tests.antt =====
-- Handlers run on a master of two pages of two bytes.
use psar_dsm.Prelude.{
  ℕ, ◌≡◌, ◌↔◌, ◌≢◌, refl, inl, inr, true, false, none, map, some, List, [], ◌∷◌, arith, ok,
  out_of_fuel,
}
use psar_dsm.LinkedList.Queue.{empty}
use psar_dsm.Memory.{Page, get_page_from_id, get_page_from_addr}
use psar_dsm.Memory.Init.{IsMemory}
use psar_dsm.Message.{
  lockpage, givepage, terminate_msg, sent, Surroundings, up, broken, dsm_send_msg,
}
use psar_dsm.Core.{satisfy_request, serve_reader, serve, requests_loop, process_list_requests}
use psar_dsm.Core.Termination.{Returns, Settles, requests_loop-Returns}
use psar_dsm.Core.Serve.{directory, outcome, requests_loop-outcome}
use psar_dsm.Node.{Node, with_page}
use psar_dsm.Node.Handlers.{lockpage_page, handle_lockpage_msg, dsm_dispatch_message}
use psar_dsm.Node.Invariant.{dsm_dispatch_message-IsMemory}
use psar_dsm.Node.Requests.{asks, lockpage_page-outcome, handle_lockpage_msg-hangs}
use psar_dsm.Node.Exclusive.{AllExclusive, dispatch-AllExclusive}
use psar_dsm.Node.Api.{page_at, lock_page, lock_write, terminate}
use psar_dsm.Node.Calls.{returned, handed_in, NoneWritable, terminate-returned}
use psar_dsm.Node.CallInvariant.{locks_write, run_call, run_call-IsMemory}
use psar_dsm.Node.Barrier.{arrivals, acknowledged, arrivals_wait, arrivals_open}

-- Every socket works, and freed nodes still read as they did.
abbrev pub calm : Surroundings
calm = record { link = λ fd. up; keeps_freed = true }

calm_link : (fd : ℕ) → calm.link fd ≢ broken
calm_link fd e = cc

abbrev page : ℕ → List ℕ → Page
page i readers = record {
  page_id = i;
  protection = 3;
  locked = false;
  uptodate = true;
  write_owner = 5;
  directory = some (directory [] true readers false);
  mapped = 3;
  bytes = 7 ∷ 8 ∷ [];
}

abbrev pub master : Node
master = record {
  mem = record {
    pagesize = 2;
    page_count = 2;
    base_addr = 4096;
    pages = page 0 [] ∷ page 1 (6 ∷ []) ∷ [];
  };
  is_master = true;
  master_sockfd = 5;
  sync_barrier_waiters = some empty;
  client_count = 3;
  trace = [];
}

pub master-IsMemory : IsMemory master.mem
master-IsMemory = record {
  counted = refl;
  pages = (
    refl,
    record { mirrored = refl; readable = λ e. refl; sized = refl },
    (refl, record { mirrored = refl; readable = λ e. refl; sized = refl }, tt),
  );
}

-- The master after it gave its page 0 to socket 6 for reading.
abbrev pub shared : Node
shared = record master {
  mem = record (master.mem) { pages = page 0 (6 ∷ []) ∷ page 1 (6 ∷ []) ∷ [] };
  trace = sent 6 (givepage 0 1 (7 ∷ 8 ∷ [])) ∷ [];
}

read_request : dsm_dispatch_message calm 3 100 master 6 (lockpage 0 1) ≡ ok shared
unfolding dsm_dispatch_message handle_lockpage_msg with_page get_page_from_id lockpage_page
    process_list_requests requests_loop serve serve_reader satisfy_request dsm_send_msg
read_request = refl

requests_loop-outcome_example :
    requests_loop calm 2 (page 0 []) (directory (asks 6 1 100 ∷ []) true [] false) []
    ≡ outcome calm (page 0 []) (asks 6 1 100 ∷ []) true [] false []
requests_loop-outcome_example =
    requests_loop-outcome calm (page 0 []) calm_link refl refl 2 (asks 6 1 100 ∷ []) true [] false
      [] (omega arith)

-- A reader and a writer wait.
requests_loop-Returns_example :
    Returns (
      requests_loop calm 3
        (page 0 [])
        (directory (asks 6 1 100 ∷ asks 5 3 101 ∷ []) true [] false)
        [])
    ↔ Settles (asks 6 1 100 ∷ asks 5 3 101 ∷ []) []
requests_loop-Returns_example =
    requests_loop-Returns calm (page 0 []) calm_link refl refl 3 (asks 6 1 100 ∷ asks 5 3 101 ∷ [])
      true [] false [] (omega arith)

lockpage_page-outcome_example :
    lockpage_page calm 3 6 3 100 (page 0 []) []
    ≡ outcome calm
        (record (page 0 []) { directory = some (directory (asks 6 3 100 ∷ []) true [] false) })
        (asks 6 3 100 ∷ [])
        true
        []
        false
        []
lockpage_page-outcome_example =
    lockpage_page-outcome calm calm_link 3 (page 0 []) [] [] false 6 3 100 [] refl (λ e. refl) refl
      (omega arith)

handle_lockpage_msg-hangs_example : handle_lockpage_msg calm 1000 100 master 9 1 3 ≡ out_of_fuel
unfolding get_page_from_id
handle_lockpage_msg-hangs_example =
    handle_lockpage_msg-hangs calm calm_link 1000 100 master 9 1 3 1 (page 1 (6 ∷ [])) true 6 []
      false refl refl refl refl refl refl

dsm_dispatch_message-IsMemory_example : IsMemory shared.mem
dsm_dispatch_message-IsMemory_example =
    dsm_dispatch_message-IsMemory calm 3 100 master shared 6 (lockpage 0 1) tt master-IsMemory
      read_request

dispatch-AllExclusive_example : AllExclusive shared.mem.pages
dispatch-AllExclusive_example =
    dispatch-AllExclusive calm 3 100 master shared 6 (lockpage 0 1) tt (inl refl, (inl refl, tt))
      read_request

arrivals_wait_example :
    arrivals calm 3 master (6 ∷ 7 ∷ [])
    ≡ ok (record master {
      sync_barrier_waiters = some (record { items = 6 ∷ 7 ∷ []; tail_ok = true });
    })
arrivals_wait_example =
    arrivals_wait calm calm_link 3 master [] (6 ∷ 7 ∷ []) refl refl (omega arith)

arrivals_open_example :
    arrivals calm 3 master (6 ∷ 7 ∷ 5 ∷ [])
    ≡ ok (record master { trace = acknowledged calm (6 ∷ 7 ∷ 5 ∷ []) [] })
arrivals_open_example = arrivals_open calm calm_link 3 master (6 ∷ 7 ∷ []) 5 refl refl refl

abbrev away : ℕ → Page
away i = record {
  page_id = i;
  protection = 0;
  locked = false;
  uptodate = false;
  write_owner = 4;
  directory = none;
  mapped = 0;
  bytes = 0 ∷ 0 ∷ [];
}

-- A slave that has page 1 for writing.
abbrev slave : Node
slave = record {
  mem = record {
    pagesize = 2;
    page_count = 2;
    base_addr = 4096;
    pages =
        away 0
        ∷ record (away 1) { protection = 3; mapped = 3; uptodate = true; bytes = 5 ∷ 6 ∷ [] }
        ∷ [];
  };
  is_master = false;
  master_sockfd = 4;
  sync_barrier_waiters = none;
  client_count = 0;
  trace = [];
}

slave-IsMemory : IsMemory slave.mem
slave-IsMemory = record {
  counted = refl;
  pages = (
    refl,
    record { mirrored = refl; readable = λ e. absurd (ground arith); sized = refl },
    (refl, record { mirrored = refl; readable = λ e. refl; sized = refl }, tt),
  );
}

-- The slave after it has asked for page 0 for writing.
abbrev asking : Node
asking = record slave { trace = sent 4 (lockpage 0 3) ∷ [] }

write_call : run_call calm slave (locks_write 4097) ≡ ok asking
unfolding run_call lock_write lock_page page_at get_page_from_addr get_page_from_id dsm_send_msg
write_call = refl

run_call-IsMemory_example : IsMemory asking.mem
run_call-IsMemory_example =
    run_call-IsMemory calm slave asking (locks_write 4097) slave-IsMemory write_call

terminate-returned_example :
    (terminate calm slave
      ≡ ok (record slave {
        mem = record (slave.mem) { pages = map (returned 4) slave.mem.pages };
        trace = sent 4 terminate_msg ∷ handed_in 4 slave.mem.pages [];
      }))
    × NoneWritable (map (returned 4) slave.mem.pages)
terminate-returned_example = terminate-returned calm slave refl refl (inl refl, (inr refl, tt))
