-- ===== src/Program/Tests.antt =====
-- demo_slave_reader on a slave of one page.
use psar_dsm.Prelude.{
  ℕ, ◌≡◌, refl, inl, true, false, none, List, [], ◌∷◌, ◌++◌, ok, blocked, fault, ◌>>=◌, replicate,
}
use psar_dsm.Memory.{get_page_from_id, get_page_from_addr}
use psar_dsm.Message.{givepage, Surroundings, up, dsm_send_msg}
use psar_dsm.Node.{Node, with_page}
use psar_dsm.Node.Handlers.{givepage_page, handle_givepage_msg, dsm_dispatch_message}
use psar_dsm.Node.Api.{page_at, lock_page, lock_page_wake, lock_read, wait_barrier}
use psar_dsm.Node.CallInvariant.{locks_read, unlocks_read, waits_barrier, terminates}
use psar_dsm.Program.{
  bytes_from, Statement, calls, prints_int, prints_text, running, int_size, Thread, hears, runs,
  wakes, opens, Reach, here, next, run_statement, store_byte, store_bytes, load_byte, load_bytes,
  load_text,
}
use psar_dsm.Program.Mains.{lectures, demo_slave_reader}
use psar_dsm.Program.Relock.{relock-for_ever}

abbrev calm : Surroundings
calm = record { link = λ fd. up; keeps_freed = true }

-- As dsm_n_init leaves it.
abbrev slave : Node
slave = record {
  mem = record {
    pagesize = 8;
    page_count = 1;
    base_addr = 4096;
    pages =
        record {
          page_id = 0;
          protection = 0;
          locked = false;
          uptodate = false;
          write_owner = 0;
          directory = none;
          mapped = 0;
          bytes = replicate 8 0;
        }
        ∷ [];
  };
  is_master = false;
  master_sockfd = 4;
  sync_barrier_waiters = none;
  client_count = 0;
  trace = [];
}

abbrev beginning : Thread
beginning = record { node = slave; place = running; rest = demo_slave_reader 4096 }

-- From the rest of the loop's first round on.
abbrev later : List Statement
later =
    prints_int 4096 ∷ prints_text 4100 ∷ calls (unlocks_read 4096) ∷ lectures 9 4096
    ++ calls (waits_barrier 3) ∷ calls terminates ∷ []

begins :
    beginning.rest
    ≡ (calls (waits_barrier 3) ∷ [])
      ++ calls (locks_read 4096) ∷ ([] ++ calls (locks_read 4096) ∷ later)
unfolding demo_slave_reader lectures
begins = refl

-- It passes the barrier, asks for the page, and is woken when the page has come.
started : (t : Thread) × Reach calm beginning t
unfolding demo_slave_reader run_statement wait_barrier lock_read page_at get_page_from_addr
    get_page_from_id lock_page dsm_send_msg dsm_dispatch_message handle_givepage_msg with_page
    givepage_page lock_page_wake
started = (
  _,
  next
      (next (next (next (next here (runs refl refl refl)) (opens refl)) (runs refl refl refl))
        (hears 0 0 4 (givepage 0 1 (42 ∷ 0 ∷ 0 ∷ 0 ∷ 104 ∷ 105 ∷ 0 ∷ 0 ∷ [])) refl))
      (wakes 0 refl refl refl),
)

relock-for_ever_example :
    (left : List Statement) × (started.0.rest ≡ left ++ calls (locks_read 4096) ∷ later)
relock-for_ever_example =
    relock-for_ever calm 4096 (calls (locks_read 4096)) (calls (locks_read 4096)) [] later
      (inl refl) (inl refl) tt (calls (waits_barrier 3) ∷ []) beginning started.0 begins started.1

-- The thread's next statement waits for its own mutex.
stuck : run_statement calm started.0.node (calls (locks_read 4096)) ≡ blocked
unfolding started run_statement lock_read page_at get_page_from_addr get_page_from_id lock_page
stuck = refl

-- A slave that holds the page for writing stores the text and prints it; one that holds it for reading
-- is ended by the store.
abbrev holder : (rights : ℕ) → Node
holder rights = record slave {
  mem = record (slave.mem) {
    pages =
        record {
          page_id = 0;
          protection = rights;
          locked = true;
          uptodate = true;
          write_owner = 4;
          directory = none;
          mapped = rights;
          bytes = replicate 8 9;
        }
        ∷ [];
  };
}

stored :
    (store_bytes (holder 3) 4100 (b'h' ∷ b'i' ∷ 0 ∷ []) >>= λ n. load_text n 4100 4)
    ≡ ok (b'h' ∷ b'i' ∷ [])
unfolding store_bytes store_byte load_text load_byte page_at get_page_from_addr get_page_from_id
stored = refl

not_stored : store_bytes (holder 1) 4100 (b'h' ∷ []) ≡ fault
unfolding store_bytes store_byte page_at get_page_from_addr get_page_from_id
not_stored = refl

-- A text that runs on to the end of the memory, and an int.
unended : load_text (holder 1) 4100 (bytes_from (holder 1).mem 4100) ≡ fault
unfolding load_text load_byte page_at get_page_from_addr get_page_from_id
unended = refl

int_read : load_bytes (holder 1) 4096 int_size ≡ ok (replicate 4 9)
unfolding load_bytes load_byte page_at get_page_from_addr get_page_from_id
int_read = refl
