-- ===== src/Node/Barrier.antt =====
-- handle_sync_barrier_msg on the master: who is released, and when.
use mathlib.Core.Path.{fun_ext}
use mathlib.Core.List.{append-nil, append_assoc}
use psar_dsm.Prelude.{
  ℕ, ◌+◌, ◌≤◌, ◌<◌, ◌≡◌, ◌≢◌, refl, sym, ap, ◌∙◌, true, false, some, List, [], ◌∷◌, ◌++◌, leb, Run,
  ok, ◌>>=◌, >>=_assoc, arith, length, length-append,
}
use psar_dsm.LinkedList.Queue.{empty}
use psar_dsm.Message.{Event, Surroundings, broken, barrier_ack}
use psar_dsm.Core.Queues.{queue, add_ok, deliver, dsm_send_msg-deliver}
use psar_dsm.Node.{Node}
use psar_dsm.Node.Handlers.{broadcast_ack, handle_sync_barrier_msg}

module _ (env : Surroundings) where
  -- SYNC_BARRIER messages for the same count, one after the other.
  pub arrivals : (slave_to_wait : ℕ) → Node → List ℕ → Run Node
  arrivals k n [] = ok n
  arrivals k n (fd ∷ fds) = handle_sync_barrier_msg env n fd k >>= λ n'. arrivals k n' fds

  arrivals-append :
      (k : ℕ) (n : Node) (xs ys : List ℕ)
      → arrivals k n (xs ++ ys) ≡ (arrivals k n xs >>= λ n'. arrivals k n' ys)
  unfolding arrivals
  arrivals-append k n [] ys = refl
  arrivals-append k n (x ∷ xs) ys = rw (fun_ext (λ (n' : Node). arrivals-append k n' xs ys)) (
      sym (
        >>=_assoc (handle_sync_barrier_msg env n x k) (λ n'. arrivals k n' xs)
          (λ n'. arrivals k n' ys)))

  -- The trace after a BARRIER_ACK to each socket in turn.
  unfoldable pub acknowledged : List ℕ → List Event → List Event
  acknowledged [] t = t
  acknowledged (fd ∷ fds) t = acknowledged fds (deliver env fd barrier_ack t)

  acknowledged-append :
      (xs : List ℕ) (fd : ℕ) (t : List Event)
      → acknowledged (xs ++ fd ∷ []) t ≡ deliver env fd barrier_ack (acknowledged xs t)
  unfolding acknowledged
  acknowledged-append [] fd t = refl
  acknowledged-append (x ∷ xs) fd t = acknowledged-append xs fd (deliver env x barrier_ack t)

  module _ (alive : (fd : ℕ) → env.link fd ≢ broken) where
    broadcast_ack-acknowledged :
        (xs : List ℕ) (t : List Event) → broadcast_ack env xs t ≡ ok (acknowledged xs t)
    unfolding broadcast_ack acknowledged
    broadcast_ack-acknowledged [] t = refl
    broadcast_ack-acknowledged (x ∷ xs) t =
        rw (dsm_send_msg-deliver env x barrier_ack t (alive x))
          (broadcast_ack-acknowledged xs (deliver env x barrier_ack t))

    pub waits :
        (k : ℕ) (n : Node) (ws : List ℕ) (fd : ℕ)
        → n.is_master ≡ true
        → n.sync_barrier_waiters ≡ some (queue ws true)
        → length ws + 1 < k
        → handle_sync_barrier_msg env n fd k
          ≡ ok (record n { sync_barrier_waiters = some (queue (ws ++ fd ∷ []) true) })
    unfolding handle_sync_barrier_msg
    waits k n ws fd master is few =
        let early : leb k (length ws + 1) ≡ false = ground arith in
        rw (is, master, early, add_ok ws fd, handle_sync_barrier_msg) refl

    pub opens :
        (k : ℕ) (n : Node) (ws : List ℕ) (fd : ℕ)
        → n.is_master ≡ true
        → n.sync_barrier_waiters ≡ some (queue ws true)
        → k ≤ length ws + 1
        → handle_sync_barrier_msg env n fd k
          ≡ ok (record n {
            sync_barrier_waiters = some empty;
            trace = acknowledged (ws ++ fd ∷ []) n.trace;
          })
    unfolding handle_sync_barrier_msg
    opens k n ws fd master is enough =
        let late : leb k (length ws + 1) ≡ true = ground arith in
        rw
          (
            is,
            master,
            late,
            broadcast_ack-acknowledged ws n.trace,
            dsm_send_msg-deliver env fd barrier_ack (acknowledged ws n.trace) (alive fd),
            acknowledged-append ws fd n.trace,
            handle_sync_barrier_msg,
          )
          refl

    -- Up to the last but one arrival nobody is released: each socket is put behind the waiters,
    -- and nothing is sent.
    pub arrivals_wait :
        (k : ℕ) (n : Node) (ws fds : List ℕ)
        → n.is_master ≡ true
        → n.sync_barrier_waiters ≡ some (queue ws true)
        → length ws + length fds < k
        → arrivals k n fds ≡ ok (record n { sync_barrier_waiters = some (queue (ws ++ fds) true) })
    unfolding arrivals
    arrivals_wait k n ws [] master is few = λ i. ok (record n {
      sync_barrier_waiters = (is ∙ ap (λ xs. some (queue xs true)) (sym (append-nil ws))) i;
    })
    arrivals_wait k n ws (fd ∷ fds) master is few = rw (waits k n ws fd master is (omega arith)) (
        arrivals_wait k (record n { sync_barrier_waiters = some (queue (ws ++ fd ∷ []) true) })
          (ws ++ fd ∷ []) fds master refl (omega (arith, length-append ws (fd ∷ [])))
        ∙ ap (λ xs. ok (record n { sync_barrier_waiters = some (queue xs true) }))
            (append_assoc ws (fd ∷ []) fds))

    -- The arrival that makes the count releases everybody: BARRIER_ACK goes to each waiter in the
    -- order of arrival and then to the last, and the barrier is as it was at the start.
    pub arrivals_open :
        (k : ℕ) (n : Node) (fds : List ℕ) (last : ℕ)
        → n.is_master ≡ true
        → n.sync_barrier_waiters ≡ some empty
        → length fds + 1 ≡ k
        → arrivals k n (fds ++ last ∷ [])
          ≡ ok (record n { trace = acknowledged (fds ++ last ∷ []) n.trace })
    unfolding arrivals
    arrivals_open k n fds last master is enough =
        let n' : Node = record n { sync_barrier_waiters = some (queue fds true) } in
        rw
          (
            arrivals-append k n fds (last ∷ []),
            arrivals_wait k n [] fds master is (omega arith),
            opens k n' fds last master refl (omega arith),
          )
          (λ i. ok (record n {
            sync_barrier_waiters = sym is i;
            trace = acknowledged (fds ++ last ∷ []) n.trace;
          }))
