-- ===== src/Node/HandshakeTests.antt =====
-- A master and a slave that come to life.
use psar_dsm.Prelude.{false, none, ℕ, ◌≡◌, refl, true, some, [], ◌∷◌, arith, Ends}
use psar_dsm.LinkedList.Queue.{empty}
use psar_dsm.Memory.Init.{IsMemory}
use psar_dsm.Message.{Surroundings, up}
use psar_dsm.Node.{Node}
use psar_dsm.Node.Exclusive.{AllExclusive}
use psar_dsm.Node.Join.{
  System, dsm_socket_connect, dsm_socket_bind_listen, first_connected, Gives, dsm_m_init,
}
use psar_dsm.Node.Handshake.{AllOwned, dsm_m_init-IsMemory}

abbrev works : Surroundings
works = record { link = λ fd. up; keeps_freed = true }

abbrev generous : System
generous = record {
  page_size = some 2;
  allocates = true;
  mapping = 8192;
  addresses = some (
      record { socket = none; connects = true }
      ∷ record { socket = some 3; connects = false }
      ∷ record { socket = some 4; connects = true }
      ∷ []);
  server_socket = some 9;
  reuses = true;
  binds = true;
  listens = true;
  starts_thread = true;
  stale_sockfd_ok = true;
  stale_page_count = 77;
  stale_client_count = 88;
}

generous-Gives : Gives generous 2 4
unfolding dsm_socket_connect dsm_socket_bind_listen first_connected
generous-Gives = record {
  size = refl;
  allocates = refl;
  maps = refl;
  connects = refl;
  server = 9;
  serves = refl;
  starts = refl;
  stale = refl;
}

abbrev serving : (pagesize : ℕ) → Node
serving pagesize = record {
  mem = record { pagesize = pagesize; page_count = 3; base_addr = 4096; pages = [] };
  is_master = true;
  master_sockfd = 5;
  sync_barrier_waiters = some empty;
  client_count = 1;
  trace = [];
}

dsm_m_init-IsMemory_example :
    Ends
      (λ n.
        IsMemory n.mem
        × AllExclusive n.mem.pages
        × AllOwned n.mem.pages
        × (n.mem.page_count ≡ 3)
        × (n.mem.pagesize ≡ 2)
        × (n.master_sockfd ≡ 4))
      (dsm_m_init generous 3)
dsm_m_init-IsMemory_example =
    dsm_m_init-IsMemory generous 2 4 3 generous-Gives (omega arith) (omega arith)
