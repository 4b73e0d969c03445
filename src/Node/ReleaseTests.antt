-- ===== src/Node/ReleaseTests.antt =====
-- Runs of InitMaster, InitSlave and QuitDSM.
use psar_dsm.Prelude.{
  ◌≡◌, refl, ◌∙◌, true, false, some, none, [], ◌∷◌, ok, fault, ◌>>=◌, if◌then◌else◌, blocked,
}
use psar_dsm.LinkedList.Queue.{empty}
use psar_dsm.Message.{Surroundings, up, sent, terminate_msg, dsm_send_msg}
use psar_dsm.Node.{Node}
use psar_dsm.Node.Api.{terminate, master_waits}
use psar_dsm.Node.Join.{System}
use psar_dsm.Node.Quit.{holding, left, init_master, init_slave, quit_dsm}
use psar_dsm.Node.Release.{quit_dsm-holding, quit_dsm-for_good}

abbrev works : Surroundings
works = record { link = λ fd. up; keeps_freed = true }

-- A slave that has the right to write its only page.
abbrev writer : Node
writer = record {
  mem = record {
    pagesize = 2;
    page_count = 1;
    base_addr = 4096;
    pages =
        record {
          page_id = 0;
          protection = 3;
          locked = false;
          uptodate = true;
          write_owner = 0;
          directory = none;
          mapped = 3;
          bytes = 7 ∷ 9 ∷ [];
        }
        ∷ [];
  };
  is_master = false;
  master_sockfd = 5;
  sync_barrier_waiters = none;
  client_count = 0;
  trace = [];
}

-- A master of two pages, whose clients have left.
abbrev alone : Node
alone = record {
  mem = record { pagesize = 2; page_count = 2; base_addr = 4096; pages = [] };
  is_master = true;
  master_sockfd = 5;
  sync_barrier_waiters = some empty;
  client_count = 0;
  trace = [];
}

abbrev cramped : System
cramped = record {
  page_size = some 2;
  allocates = true;
  mapping = 8192;
  addresses = none;
  server_socket = some 9;
  reuses = true;
  binds = true;
  listens = true;
  starts_thread = true;
  stale_sockfd_ok = true;
  stale_page_count = 77;
  stale_client_count = 88;
}

quit_dsm-holding_example :
    quit_dsm works (holding writer)
    ≡ (terminate works writer >>= λ n'. if master_waits n' then blocked else ok (left n'))
quit_dsm-holding_example = quit_dsm-holding works writer

-- The master after terminate.
abbrev done : Node
done = record alone { trace = sent 5 terminate_msg ∷ [] }

alone_terminates :
    (terminate works alone >>= λ n'. if master_waits n' then blocked else ok (left n'))
    ≡ ok (left done)
unfolding terminate dsm_send_msg master_waits
alone_terminates = refl

alone_quits : quit_dsm works (holding alone) ≡ ok (left done)
alone_quits = quit_dsm-holding works alone ∙ alone_terminates

quit_dsm-for_good_example :
    (init_master cramped (left done) 2 ≡ fault)
    × (init_slave cramped works none (left done) ≡ fault)
    × (quit_dsm works (left done) ≡ fault)
quit_dsm-for_good_example = quit_dsm-for_good works alone (left done) cramped none 2 alone_quits
