-- ===== src/Node/Join.antt =====
-- dsm.c and dsm_master.c: how a node comes to life. InitMaster and InitSlave run these once; a second
-- call only logs.
use psar_dsm.Prelude.{
  List, ℕ, ◌≡◌, Bool, true, false, Option, none, some, [], ◌∷◌, map, ◌==◌, if◌then◌else◌, Run, ok,
  exit, ◌>>=◌,
}
use psar_dsm.LinkedList.Queue.{empty}
use psar_dsm.Memory.{Page, dsm_memory_init}
use psar_dsm.Message.{Message, connect, connect_ack, Surroundings, dsm_send_msg}
use psar_dsm.Node.{Node}
use psar_dsm.Node.Handlers.{pointer_size}

-- An address that getaddrinfo gives: the socket made for it (`none` for -1), and whether it connects.
pub record Address : Type 0 where
  pub socket : Option ℕ
  pub connects : Bool

-- What the system gives: the page size of sysconf (`none` for -1), whether malloc and calloc succeed,
-- what mmap returns, the addresses of the server (`none` for an error), the socket to listen on with
-- the results of setsockopt, bind and listen, whether the listener's thread starts, and what memory
-- from malloc holds before it is written: whether the master's sockfd is not negative, and the
-- numbers of a message and of client_count.
pub record System : Type 0 where
  pub page_size : Option ℕ
  pub allocates : Bool
  pub mapping : ℕ
  pub addresses : Option (List Address)
  pub server_socket : Option ℕ
  pub reuses : Bool
  pub binds : Bool
  pub listens : Bool
  pub starts_thread : Bool
  pub stale_sockfd_ok : Bool
  pub stale_page_count : ℕ
  pub stale_client_count : ℕ

-- The loop of dsm_socket_connect, which passes over an address without a socket, and closes the socket
-- of one without a connection.
unfoldable pub first_connected : List Address → Run ℕ
first_connected [] = exit
first_connected (a ∷ rest) =
    let next = first_connected rest in
    elim a.socket [ none ↦ next | some fd ↦ if a.connects then ok fd else next ]

unfoldable pub dsm_socket_connect : Option (List Address) → Run ℕ
dsm_socket_connect addresses = elim addresses [
  | none ↦ exit
  | some results ↦ first_connected results
]

-- setsockopt, bind and listen in turn.
unfoldable pub dsm_socket_bind_listen :
    (server_socket : Option ℕ) → (reuses binds listens : Bool) → Run ℕ
dsm_socket_bind_listen server_socket reuses binds listens = elim server_socket [
  | none ↦ exit
  | some fd ↦ if reuses then if binds then if listens then ok fd else exit else exit else exit
]

-- The system gives all that is asked for: pages of size `s`, a socket to listen on, and the
-- connection `fd`.
pub record Gives (sys : System) (s fd : ℕ) : Type 0 where
  pub size : sys.page_size ≡ some s
  pub allocates : sys.allocates ≡ true
  pub maps : (sys.mapping == 0) ≡ false
  pub connects : dsm_socket_connect sys.addresses ≡ ok fd
  pub server : ℕ
  pub serves : dsm_socket_bind_listen sys.server_socket sys.reuses sys.binds sys.listens ≡ ok server
  pub starts : sys.starts_thread ≡ true
  pub stale : sys.stale_sockfd_ok ≡ true

module _ (sys : System) where
  -- dsm_master_init, with the test of its result that both callers make. On the master the result is
  -- the field sockfd, which nothing has written.
  unfoldable pub dsm_master_init : (is_master : Bool) → Run (Option ℕ)
  dsm_master_init is_master =
      if sys.allocates
      then if is_master
        then (dsm_socket_bind_listen sys.server_socket sys.reuses sys.binds sys.listens
            >>= λ server. if sys.stale_sockfd_ok then ok none else exit)
        else (dsm_socket_connect sys.addresses >>= λ fd. ok (some fd))
      else exit

  abbrev pub owned : (fd : ℕ) → Page → Page
  owned fd p = record p { write_owner = fd }

  -- The loop that sets write_owner counts as the one of dsm_memory_init does, which has ended before.
  -- The memory, the queue and the master's record are allocated, in this order, before
  -- dsm_memory_init; the master connects to itself after the listener's thread has started.
  unfoldable pub dsm_m_init : (page_count : ℕ) → Run Node
  dsm_m_init page_count = if page_count == 0 then exit else elim sys.page_size [
    | none ↦ exit
    | some s ↦
        if sys.allocates
        then (do
          mem ← dsm_memory_init sys.mapping sys.allocates s page_count true
          _ ← dsm_master_init true
          fd ← if sys.starts_thread then dsm_socket_connect sys.addresses else exit
          ok (record {
            mem = record mem { pages = map (owned fd) mem.pages };
            is_master = true;
            master_sockfd = fd;
            sync_barrier_waiters = some empty;
            client_count = 0;
            trace = [];
          }))
        else exit
  ]

  -- The number of pages that the answer to CONNECT gives. An answer of another type is only logged;
  -- the number is then what the message's memory held.
  unfoldable pub accept_ack : Message → Run ℕ
  accept_ack (connect_ack bitness_ok pagesize_ok page_count) =
      if bitness_ok == 0
      then exit
      else if pagesize_ok == 0
      then exit
      else if page_count == 0
      then exit
      else ok page_count
  accept_ack _ = ok sys.stale_page_count

  -- `reply` is the message that dsm_receive_msg gives, `none` where it returns -1.
  unfoldable pub dsm_n_init : Surroundings → (reply : Option Message) → Run Node
  dsm_n_init env reply = elim sys.page_size [
    | none ↦ exit
    | some s ↦
        if sys.allocates
        then (dsm_master_init false >>= λ connected. elim connected [
          | none ↦ exit
          | some fd ↦ (do
            (sent, t) ← dsm_send_msg env fd (connect pointer_size s) []
            _ ← if sent then ok true else exit
            page_count ← elim reply [ none ↦ exit | some m ↦ accept_ack m ]
            mem ← dsm_memory_init sys.mapping sys.allocates s page_count false
            if sys.starts_thread
                then ok (record {
                  mem = mem;
                  is_master = false;
                  master_sockfd = fd;
                  sync_barrier_waiters = none;
                  client_count = sys.stale_client_count;
                  trace = t;
                })
                else exit)
        ])
        else exit
  ]
