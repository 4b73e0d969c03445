-- ===== src/Program/JoinedTests.antt =====
-- demo_slave_writer_reader on a slave that joins, up to its store, and the check on the programs.
use psar_dsm.Prelude.{
  ◌≡◌, ◌≢◌, refl, true, false, none, some, List, [], ◌∷◌, ok, blocked, fault, arith, replicate,
}
use psar_dsm.Memory.{
  Memory, dsm_memory_init, init_page, init_pages, get_page_from_id, get_page_from_addr,
}
use psar_dsm.Message.{connect_ack, givepage, Surroundings, up, dsm_send_msg}
use psar_dsm.Node.{Node, with_page}
use psar_dsm.Node.Handlers.{givepage_page, handle_givepage_msg, dsm_dispatch_message}
use psar_dsm.Node.Api.{page_at, lock_page, lock_page_wake, lock_write, wait_barrier}
use psar_dsm.Node.CallInvariant.{unlocks_write, waits_barrier, terminates}
use psar_dsm.Node.Join.{
  System, first_connected, dsm_socket_connect, dsm_master_init, accept_ack, dsm_n_init,
}
use psar_dsm.Program.{
  Statement, calls, stores, prints_text, Thread, hears, runs, wakes, opens, Reach, here, next,
  run_statement,
}
use psar_dsm.Program.Mains.{
  hello, demo_master_writer, lectures, demo_slave_reader, demo_slave_writer_reader,
  test_dsm_lock_read, test_dsm_lock_read2, test_dsm_lock_write,
}
use psar_dsm.Program.Discipline.{nothing_held, checks}
use psar_dsm.Program.Joined.{started, joined-Safe}

abbrev calm : Surroundings
calm = record { link = λ fd. up; keeps_freed = true }

abbrev system : System
system = record {
  page_size = some 32;
  allocates = true;
  mapping = 4096;
  addresses = some (record { socket = some 4; connects = true } ∷ []);
  server_socket = none;
  reuses = true;
  binds = true;
  listens = true;
  starts_thread = true;
  stale_sockfd_ok = true;
  stale_page_count = 0;
  stale_client_count = 0;
}

-- The slave that joins a master of one page.
slave : (n : Node) × (dsm_n_init system calm (some (connect_ack 1 1 1)) ≡ ok n)
unfolding dsm_n_init dsm_master_init dsm_socket_connect first_connected dsm_send_msg accept_ack
    dsm_memory_init init_pages init_page
slave = (_, refl)

abbrev memory : Memory
memory = record { pagesize = 32; page_count = 1; base_addr = 4096; pages = [] }

-- The check on each program, that of the readers without the right to store.
writers_pass :
    (checks true memory nothing_held (demo_slave_writer_reader 4096) ≡ true)
    × (checks true memory nothing_held (test_dsm_lock_write 4096) ≡ true)
    × (checks true memory nothing_held (demo_master_writer 4096) ≡ true)
unfolding checks demo_slave_writer_reader test_dsm_lock_write demo_master_writer get_page_from_addr
    get_page_from_id
writers_pass = (refl, refl, refl)

readers_pass :
    (checks false memory nothing_held (test_dsm_lock_read 4096) ≡ true)
    × (checks false memory nothing_held (test_dsm_lock_read2 4096) ≡ true)
    × (checks false memory nothing_held (demo_slave_reader 4096) ≡ false)
unfolding checks test_dsm_lock_read test_dsm_lock_read2 demo_slave_reader lectures
    get_page_from_addr get_page_from_id
readers_pass = (refl, refl, refl)

passes :
    checks true slave.0.mem nothing_held (demo_slave_writer_reader slave.0.mem.base_addr) ≡ true
unfolding slave checks demo_slave_writer_reader get_page_from_addr get_page_from_id
passes = refl

-- It asks for the page, has it, and passes the barrier.
before_store :
    (t : Thread) × Reach calm (started slave.0 (demo_slave_writer_reader slave.0.mem.base_addr)) t
unfolding slave demo_slave_writer_reader run_statement wait_barrier lock_write page_at
    get_page_from_addr get_page_from_id lock_page dsm_send_msg dsm_dispatch_message
    handle_givepage_msg with_page givepage_page lock_page_wake init_page
before_store = (
  _,
  next
      (next
        (next
          (next (next here (runs refl refl refl))
            (hears 0 0 4 (givepage 0 3 (replicate 32 7)) refl))
          (wakes 0 refl refl refl))
        (runs refl refl refl))
      (opens refl),
)

abbrev later : List Statement
later =
    prints_text 4100 ∷ calls (unlocks_write 4096) ∷ calls (waits_barrier 3) ∷ calls terminates ∷ []

joined-Safe_example :
    (run_statement calm before_store.0.node (stores 4100 hello) ≢ blocked)
    × (false ≡ false
        → stores 4100 hello ≢ calls terminates
        → run_statement calm before_store.0.node (stores 4100 hello) ≢ fault)
unfolding before_store slave
joined-Safe_example =
    joined-Safe system calm (some (connect_ack 1 1 1)) true slave.0 demo_slave_writer_reader
      before_store.0 (stores 4100 hello) later slave.1 (omega arith) passes before_store.1
      (((((tt, tt), (refl, λ e. refl)), tt), tt), tt) refl refl
