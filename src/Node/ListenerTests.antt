-- ===== src/Node/ListenerTests.antt =====
-- The listener of a master that takes a connection and then a request on it.
use psar_dsm.Prelude.{
  ℕ, false, exit, ◌≡◌, refl, true, arith, ◌&&◌, not, none, some, List, [], ◌∷◌, ok,
}
use psar_dsm.Memory.{get_page_from_id}
use psar_dsm.Memory.Init.{IsMemory}
use psar_dsm.Message.{lockpage, terminate_msg, dsm_send_msg}
use psar_dsm.Core.{satisfy_request, serve_reader, serve, requests_loop, process_list_requests}
use psar_dsm.Node.{with_page}
use psar_dsm.Node.Handlers.{
  lockpage_page, handle_lockpage_msg, handle_terminate_msg, dsm_dispatch_message,
}
use psar_dsm.Node.Api.{master_waits}
use psar_dsm.Node.Clients.{master_waits-left}
use psar_dsm.Node.Listener.{
  Input, Listener, Select, is_set, service, services, serve_round, dsm_daemon_msg_listener,
  msg_listener_start, msg_listener_start-IsMemory,
}
use psar_dsm.Node.Descriptors.{AllOpen, Selects}
use psar_dsm.Node.Watched.{slave_round-ended}
use psar_dsm.Node.{Node}
use psar_dsm.Node.Tests.{calm, master, master-IsMemory, shared}

-- select on a system where it fails for nothing but a closed descriptor.
abbrev selects_open : Select
selects_open closed [] = true
selects_open closed (fd ∷ fds) = not (is_set fd closed) && selects_open closed fds

abbrev listening : Listener
listening = record { node = master; active = 3 ∷ []; closed = [] }

abbrev rounds : List (List Input)
rounds =
    (record { fd = 3; accepts = some 6; receives = none; block = 0 } ∷ [])
    ∷ (record { fd = 6; accepts = none; receives = some (lockpage 0 1); block = 100 }
        ∷ record { fd = 8; accepts = none; receives = some (lockpage 0 3); block = 200 }
        ∷ [])
    ∷ []

-- Socket 8 is not in the set, and is passed over.
abbrev served : Listener
served = record { node = record shared { client_count = 4 }; active = 5 ∷ 6 ∷ 3 ∷ []; closed = [] }

listener_run : msg_listener_start calm selects_open 3 3 listening rounds ≡ ok served
unfolding msg_listener_start serve_round services service dsm_dispatch_message handle_lockpage_msg
    with_page get_page_from_id lockpage_page process_list_requests requests_loop serve serve_reader
    satisfy_request dsm_send_msg
listener_run = refl

msg_listener_start-IsMemory_example : IsMemory served.node.mem
msg_listener_start-IsMemory_example =
    msg_listener_start-IsMemory calm selects_open 3 3 listening served rounds
      ((tt, tt), ((tt, (tt, tt)), tt)) master-IsMemory listener_run

-- Two clients come; one sends TERMINATE, the other only closes its connection, and the master waits
-- for it.
abbrev visits : List (List Input)
visits =
    (record { fd = 3; accepts = some 6; receives = none; block = 0 } ∷ [])
    ∷ (record { fd = 3; accepts = some 7; receives = none; block = 0 } ∷ [])
    ∷ (record { fd = 6; accepts = none; receives = some terminate_msg; block = 0 }
        ∷ record { fd = 7; accepts = none; receives = none; block = 0 }
        ∷ [])
    ∷ []

abbrev unvisited : Listener
unvisited = record { node = record master { client_count = 0 }; active = 3 ∷ []; closed = [] }

abbrev visited : Listener
visited = record {
  node = record master { client_count = 1 };
  active = 5 ∷ 6 ∷ 3 ∷ [];
  closed = 7 ∷ [];
}

visits_run : msg_listener_start calm selects_open 3 3 unvisited visits ≡ ok visited
unfolding msg_listener_start serve_round services service dsm_dispatch_message handle_terminate_msg
visits_run = refl

master_waits-left_example : master_waits visited.node ≡ true
master_waits-left_example =
    master_waits-left calm selects_open 3 3 unvisited visited visits refl refl (ground arith)
      (ground arith) visits_run

-- A slave that is connected to the master on socket 4 and to nobody else.
abbrev lone : Node
lone = record master { is_master = false; master_sockfd = 4; sync_barrier_waiters = none }

-- The master's process is gone.
abbrev hang_up : List (List Input)
hang_up = (record { fd = 4; accepts = none; receives = none; block = 0 } ∷ []) ∷ []

abbrev deserted : Listener
deserted = record { node = lone; active = []; closed = 4 ∷ [] }

hang_up_run : dsm_daemon_msg_listener calm selects_open 3 3 4 lone hang_up ≡ ok deserted
unfolding dsm_daemon_msg_listener msg_listener_start serve_round services service
hang_up_run = refl

selects_open-bad :
    (closed set : List ℕ) (fd : ℕ)
    → is_set fd set ≡ true
    → is_set fd closed ≡ true
    → selects_open closed set ≡ false
selects_open-bad closed [] fd at gone = cc
selects_open-bad closed (x ∷ set) fd at gone = ground (arith, selects_open-bad closed set fd)

selects_open-all : (closed set : List ℕ) → AllOpen closed set → selects_open closed set ≡ true
selects_open-all closed [] all = refl
selects_open-all closed (x ∷ set) all =
    let first = all x (ground arith) in
    ground (arith, selects_open-all closed set λ fd at. all fd (ground arith))

selects_open-Selects : Selects selects_open
selects_open-Selects = record { bad_descriptor = selects_open-bad; all_open = selects_open-all }

slave_round-ended_example : serve_round calm selects_open 3 3 deserted [] ≡ exit
slave_round-ended_example =
    slave_round-ended calm selects_open 3 3 4 lone deserted hang_up [] selects_open-Selects refl
      refl hang_up_run
