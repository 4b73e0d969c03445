-- ===== src/Node/Handlers.antt =====
-- The handlers of dsm_core.c and dsm_dispatch_message of dsm_protocol.c, run by the listener.
-- The status that a handler returns is left out: dsm_dispatch_message, its only caller, drops it.
use psar_dsm.Prelude.{
  ℕ, ◌+◌, ◌-◌, ◌%◌, ◌^◌, true, false, none, some, List, [], ◌∷◌, ◌==◌, ltb, leb, if◌then◌else◌, Run,
  ok, fault, blocked, ◌>>=◌, length, take,
}
use psar_dsm.LinkedList.Queue.{empty, size, add, remove}
use psar_dsm.Memory.{Page, prot_none, slave_equals}
use psar_dsm.Message.{
  Message, connect, connect_ack, lockpage, invalidate, invalidate_ack, givepage, sync_barrier,
  barrier_ack, terminate_msg, unknown, Event, signal_uptodate, signal_barrier, signal_master_end,
  Surroundings, dsm_send_msg,
}
use psar_dsm.Core.{process_list_requests}
use psar_dsm.Node.{Node, with_page}

-- `sizeof(void*)`
abbrev pub pointer_size : ℕ
pointer_size = 8

-- The page as the copy leaves it. `args->data` points into the buffer that dsm_receive_msg has
-- freed, and `pagesize` bytes are read from it.
abbrev pub received : Node → (access_rights : ℕ) → List ℕ → Page → Page
received n rights bytes p = record p {
  bytes = take n.mem.pagesize bytes;
  mapped = rights;
  protection = rights;
  write_owner = n.master_sockfd;
  uptodate = true;
}

abbrev pub decrement : ℕ → ℕ
decrement c = (c + 2 ^ 32 - 1) % 2 ^ 32

module _ (env : Surroundings) where
  unfoldable pub handle_connect_msg : Node → ℕ → (bitness pagesize : ℕ) → Run Node
  handle_connect_msg n from bitness pagesize = do
    (_, t) ←
        dsm_send_msg env from
          (connect_ack (if bitness == pointer_size then 1 else 0)
            (if pagesize == n.mem.pagesize then 1 else 0) n.mem.page_count)
          n.trace
    ok (record n { trace = t })

  -- `block` is the address that malloc gives to the queue's copy of the request.
  unfoldable pub lockpage_page :
      (fuel from rights block : ℕ) → Page → List Event → Run (Page × List Event)
  lockpage_page fuel from rights block p t = elim p.directory [
    | none ↦ fault
    | some d ↦
        add d.requests_queue (record { sockfd = from; rights = rights; block = block }) >>= λ q.
        process_list_requests env fuel
          (record p { directory = some (record d { requests_queue = q }) }) t
  ]

  unfoldable pub handle_lockpage_msg :
      (fuel block : ℕ) → Node → ℕ → (page_id access_rights : ℕ) → Run Node
  handle_lockpage_msg fuel block n from page_id rights =
      with_page n page_id (lockpage_page fuel from rights block)

  -- The range given to mprotect is that of `args->page_id`, which lies outside of the shared memory
  -- if that number is not below page_count.
  unfoldable pub invalidate_page :
      (page_count from page_id : ℕ) → Page → List Event → Run (Page × List Event)
  invalidate_page page_count from page_id p t =
      if p.locked
      then blocked
      else if ltb page_id page_count
      then (do
        (_, t') ← dsm_send_msg env from (invalidate_ack page_id) t
        ok (record p { uptodate = false; mapped = prot_none; protection = prot_none }, t'))
      else fault

  unfoldable pub handle_invalidate_msg : Node → ℕ → (page_id : ℕ) → Run Node
  handle_invalidate_msg n from page_id =
      with_page n page_id (invalidate_page n.mem.page_count from page_id)

  unfoldable pub invalidate_ack_page : (fuel from : ℕ) → Page → List Event → Run (Page × List Event)
  invalidate_ack_page fuel from p t = elim p.directory [
    | none ↦ fault
    | some d ↦
        process_list_requests env fuel
          (record p {
            directory = some (record d {
              current_readers_queue = remove slave_equals from d.current_readers_queue;
            });
          })
          t
  ]

  unfoldable pub handle_invalidate_ack_msg : (fuel : ℕ) → Node → ℕ → (page_id : ℕ) → Run Node
  handle_invalidate_ack_msg fuel n from page_id =
      with_page n page_id (invalidate_ack_page fuel from)

  unfoldable pub givepage_page :
      (fuel : ℕ)
      → Node
      → (page_id access_rights : ℕ) → List ℕ
      → Page
      → List Event
      → Run (Page × List Event)
  givepage_page fuel n page_id rights bytes p t =
      if p.locked
      then blocked
      else if ltb page_id n.mem.page_count
      then if env.keeps_freed
        then if ltb (length bytes) n.mem.pagesize
          then fault
          else if n.is_master
          then process_list_requests env fuel (received n rights bytes p)
              (signal_uptodate p.page_id ∷ t)
          else ok (received n rights bytes p, signal_uptodate p.page_id ∷ t)
        else fault
      else fault

  unfoldable pub handle_givepage_msg :
      (fuel : ℕ) → Node → (page_id access_rights : ℕ) → List ℕ → Run Node
  handle_givepage_msg fuel n page_id rights bytes =
      with_page n page_id (givepage_page fuel n page_id rights bytes)

  -- BARRIER_ACK goes to each waiter in turn; a status of -1 is only logged.
  unfoldable pub broadcast_ack : List ℕ → List Event → Run (List Event)
  broadcast_ack [] t = ok t
  broadcast_ack (fd ∷ fds) t = dsm_send_msg env fd barrier_ack t >>= λ (_, t'). broadcast_ack fds t'

  -- The head of sync_barrier_waiters is read first, on a slave through an uninitialised pointer.
  unfoldable pub handle_sync_barrier_msg : Node → ℕ → (slave_to_wait : ℕ) → Run Node
  handle_sync_barrier_msg n from slave_to_wait = elim n.sync_barrier_waiters [
    | none ↦ fault
    | some w ↦
        if n.is_master
        then if leb slave_to_wait (size w + 1)
          then (do
            t ← broadcast_ack w.items n.trace
            (_, t') ← dsm_send_msg env from barrier_ack t
            ok (record n { sync_barrier_waiters = some empty; trace = t' }))
          else (do w' ← add w from; ok (record n { sync_barrier_waiters = some w' }))
        else ok n
  ]

  unfoldable pub handle_barrier_ack_msg : Node → Run Node
  handle_barrier_ack_msg n = ok (record n { trace = signal_barrier ∷ n.trace })

  unfoldable pub handle_terminate_msg : Node → Run Node
  handle_terminate_msg n =
      if n.is_master
      then ok (record n {
        client_count = decrement n.client_count;
        trace = if decrement n.client_count == 0 then signal_master_end ∷ n.trace else n.trace;
      })
      else ok n

  -- CONNECT_ACK and an unknown type are only logged.
  unfoldable pub dsm_dispatch_message : (fuel block : ℕ) → Node → (from : ℕ) → Message → Run Node
  dsm_dispatch_message fuel block n from (connect b s) = handle_connect_msg n from b s
  dsm_dispatch_message fuel block n from (connect_ack b s c) = ok n
  dsm_dispatch_message fuel block n from (lockpage i r) = handle_lockpage_msg fuel block n from i r
  dsm_dispatch_message fuel block n from (invalidate i) = handle_invalidate_msg n from i
  dsm_dispatch_message fuel block n from (invalidate_ack i) =
      handle_invalidate_ack_msg fuel n from i
  dsm_dispatch_message fuel block n from (givepage i r bytes) = handle_givepage_msg fuel n i r bytes
  dsm_dispatch_message fuel block n from (sync_barrier k) = handle_sync_barrier_msg n from k
  dsm_dispatch_message fuel block n from barrier_ack = handle_barrier_ack_msg n
  dsm_dispatch_message fuel block n from terminate_msg = handle_terminate_msg n
  dsm_dispatch_message fuel block n from (unknown type) = ok n
