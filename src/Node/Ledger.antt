-- ===== src/Node/Ledger.antt =====
-- client_count of the master under the handlers.
use psar_dsm.Prelude.{
  ℕ, ◌+◌, ◌%◌, ◌^◌, ◌<◌, ◌≡◌, refl, sym, if_true, ◌∙◌, true, List, Run, ok, IfOk, IfOk-bind,
  if-IfOk, option_fault-IfOk, arith, leb, get_elem?,
}
use mathlib.Core.Path.{subst}
use psar_dsm.LinkedList.Queue.{size, add}
use psar_dsm.Memory.{Page, get_page_from_id}
use psar_dsm.Message.{
  Message, connect, connect_ack, lockpage, invalidate, invalidate_ack, givepage, sync_barrier,
  barrier_ack, terminate_msg, unknown, Event, Surroundings, dsm_send_msg,
}
use psar_dsm.Node.{Node, with_page}
use psar_dsm.Node.Handlers.{
  decrement, broadcast_ack, handle_connect_msg, handle_lockpage_msg, handle_invalidate_msg,
  handle_invalidate_ack_msg, handle_givepage_msg, handle_sync_barrier_msg, handle_barrier_ack_msg,
  handle_terminate_msg, dsm_dispatch_message,
}

-- The master goes on with its sockets as they are, and `joined` and `left` account for the count.
pub record Accounts (n : Node) (joined left : ℕ) (n' : Node) : Type 0 where
  pub master : n'.is_master ≡ true
  pub socket : n'.master_sockfd ≡ n.master_sockfd
  pub count : (n'.client_count + left) % 2 ^ 32 ≡ (n.client_count + joined) % 2 ^ 32
  pub small : n.client_count < 2 ^ 32 → n'.client_count < 2 ^ 32

pub then_Accounts :
    (n n' n'' : Node) (j q j' q' : ℕ)
    → Accounts n j q n'
    → Accounts n' j' q' n''
    → Accounts n (j + j') (q + q') n''
then_Accounts n n' n'' j q j' q' a b = record {
  master = b.master;
  socket = b.socket ∙ a.socket;
  count = omega (arith, a.count, b.count);
  small = λ h. b.small (a.small h);
}

abbrev pub leaves : Message → ℕ
leaves terminate_msg = 1
leaves _ = 0

module _ (env : Surroundings) (n : Node) (master : n.is_master ≡ true) where
  with_page-Accounts :
      (id : ℕ) (f : Page → List Event → Run (Page × List Event))
      → IfOk (Accounts n 0 0) (with_page n id f)
  unfolding with_page
  with_page-Accounts id f = option_fault-IfOk _ (get_page_from_id n.mem id) _ λ i.
      option_fault-IfOk _ (get_elem? n.mem.pages i) _ λ p.
        IfOk-bind _ (f p n.trace) _
          λ r. record { master = master; socket = refl; count = refl; small = λ h. h }

  sync_barrier-Accounts :
      (from k : ℕ) → IfOk (Accounts n 0 0) (handle_sync_barrier_msg env n from k)
  unfolding handle_sync_barrier_msg
  sync_barrier-Accounts from k = option_fault-IfOk _ n.sync_barrier_waiters _ λ w.
      if-IfOk _ n.is_master _ (ok n)
        (if-IfOk _ (leb k (size w + 1)) _ _
          (IfOk-bind _ (broadcast_ack env w.items n.trace) _ λ t.
            IfOk-bind _ (dsm_send_msg env from barrier_ack t) _
              λ r. record { master = master; socket = refl; count = refl; small = λ h. h })
          (IfOk-bind _ (add w from) _
            λ w'. record { master = master; socket = refl; count = refl; small = λ h. h }))
        (record { master = master; socket = refl; count = refl; small = λ h. h })

  counted_down : (decrement n.client_count + 1) % 2 ^ 32 ≡ (n.client_count + 0) % 2 ^ 32
  counted_down = omega arith

  terminate-Accounts : IfOk (Accounts n 0 1) (handle_terminate_msg env n)
  unfolding handle_terminate_msg
  terminate-Accounts =
      subst (IfOk (Accounts n 0 1)) (sym (if_true n.is_master _ (ok n) master))
        (record { master = master; socket = refl; count = counted_down; small = λ h. omega arith })

  pub dispatch-Accounts :
      (fuel block from : ℕ) (m : Message)
      → IfOk (Accounts n 0 (leaves m)) (dsm_dispatch_message env fuel block n from m)
  unfolding dsm_dispatch_message handle_connect_msg handle_lockpage_msg handle_invalidate_msg
      handle_invalidate_ack_msg handle_givepage_msg handle_barrier_ack_msg
  dispatch-Accounts fuel block from (connect b s) =
      IfOk-bind _ (dsm_send_msg env from _ n.trace) _
        λ r. record { master = master; socket = refl; count = refl; small = λ h. h }
  dispatch-Accounts fuel block from (lockpage i r) = with_page-Accounts i _
  dispatch-Accounts fuel block from (invalidate i) = with_page-Accounts i _
  dispatch-Accounts fuel block from (invalidate_ack i) = with_page-Accounts i _
  dispatch-Accounts fuel block from (givepage i r bytes) = with_page-Accounts i _
  dispatch-Accounts fuel block from (sync_barrier k) = sync_barrier-Accounts from k
  dispatch-Accounts fuel block from terminate_msg = terminate-Accounts
  dispatch-Accounts fuel block from (connect_ack b s c) = record {
    master = master;
    socket = refl;
    count = refl;
    small = λ h. h;
  }
  dispatch-Accounts fuel block from barrier_ack = record {
    master = master;
    socket = refl;
    count = refl;
    small = λ h. h;
  }
  dispatch-Accounts fuel block from (unknown type) = record {
    master = master;
    socket = refl;
    count = refl;
    small = λ h. h;
  }
