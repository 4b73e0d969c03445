-- ===== src/Node/Role.antt =====
-- What no handler of dsm_core.c changes: the node's role and its connection to the master.
use psar_dsm.Prelude.{
  ℕ, ◌+◌, ◌≡◌, refl, List, leb, Run, ok, IfOk, IfOk-bind, if-IfOk, option_fault-IfOk, get_elem?,
}
use psar_dsm.LinkedList.Queue.{size, add}
use psar_dsm.Memory.{Page, get_page_from_id}
use psar_dsm.Message.{
  Message, connect, connect_ack, lockpage, invalidate, invalidate_ack, givepage, sync_barrier,
  barrier_ack, terminate_msg, unknown, Event, Surroundings, dsm_send_msg,
}
use psar_dsm.Node.{Node, with_page}
use psar_dsm.Node.Handlers.{
  broadcast_ack, handle_connect_msg, handle_lockpage_msg, handle_invalidate_msg,
  handle_invalidate_ack_msg, handle_givepage_msg, handle_sync_barrier_msg, handle_barrier_ack_msg,
  handle_terminate_msg, dsm_dispatch_message,
}

abbrev pub Stays : Node → Node → Type 0
Stays n n' = (n'.is_master ≡ n.is_master) × (n'.master_sockfd ≡ n.master_sockfd)

module _ (env : Surroundings) (n : Node) where
  with_page-Stays :
      (id : ℕ) (f : Page → List Event → Run (Page × List Event)) → IfOk (Stays n) (with_page n id f)
  unfolding with_page
  with_page-Stays id f = option_fault-IfOk _ (get_page_from_id n.mem id) _ λ i.
      option_fault-IfOk _ (get_elem? n.mem.pages i) _
        λ p. IfOk-bind _ (f p n.trace) _ λ r. (refl, refl)

  sync_barrier-Stays : (from k : ℕ) → IfOk (Stays n) (handle_sync_barrier_msg env n from k)
  unfolding handle_sync_barrier_msg
  sync_barrier-Stays from k = option_fault-IfOk _ n.sync_barrier_waiters _ λ w.
      if-IfOk _ n.is_master _ (ok n)
        (if-IfOk _ (leb k (size w + 1)) _ _
          (IfOk-bind _ (broadcast_ack env w.items n.trace) _
            λ t. IfOk-bind _ (dsm_send_msg env from barrier_ack t) _ λ r. (refl, refl))
          (IfOk-bind _ (add w from) _ λ w'. (refl, refl)))
        (refl, refl)

  pub dispatch-Stays :
      (fuel block from : ℕ) (m : Message)
      → IfOk (Stays n) (dsm_dispatch_message env fuel block n from m)
  unfolding dsm_dispatch_message handle_connect_msg handle_lockpage_msg handle_invalidate_msg
      handle_invalidate_ack_msg handle_givepage_msg handle_barrier_ack_msg handle_terminate_msg
  dispatch-Stays fuel block from (connect b s) =
      IfOk-bind _ (dsm_send_msg env from _ n.trace) _ λ r. (refl, refl)
  dispatch-Stays fuel block from (lockpage i r) = with_page-Stays i _
  dispatch-Stays fuel block from (invalidate i) = with_page-Stays i _
  dispatch-Stays fuel block from (invalidate_ack i) = with_page-Stays i _
  dispatch-Stays fuel block from (givepage i r bytes) = with_page-Stays i _
  dispatch-Stays fuel block from (sync_barrier k) = sync_barrier-Stays from k
  dispatch-Stays fuel block from terminate_msg =
      if-IfOk _ n.is_master _ (ok n) (refl, refl) (refl, refl)
  dispatch-Stays fuel block from (connect_ack b s c) = (refl, refl)
  dispatch-Stays fuel block from barrier_ack = (refl, refl)
  dispatch-Stays fuel block from (unknown type) = (refl, refl)
