-- ===== src/Rendezvous.antt =====
-- One use of sync_barrier by nodes that all wait for the same number: wait_barrier of dsm_core.c on
-- the threads of the programs, and handle_sync_barrier_msg and handle_barrier_ack_msg on the
-- listeners, in any order.
pub mod Released
pub mod Safety
pub mod LostWakeup
pub mod Tally
pub mod Opens
pub mod Answered
mod Tests
use psar_dsm.Prelude.{ℕ, ◌≡◌, List, [], ◌∷◌, ◌++◌, ok}
use psar_dsm.Message.{Message, sync_barrier, barrier_ack, Event, sent, signal_barrier, Surroundings}
use psar_dsm.Node.{Node}
use psar_dsm.Node.Handlers.{handle_sync_barrier_msg, handle_barrier_ack_msg}
use psar_dsm.Node.Api.{wait_barrier}
use psar_dsm.Cluster.{update}

-- Where a program stands in wait_barrier: before it; with SYNC_BARRIER sent and mutex_sync_barrier
-- held; in pthread_cond_wait; after it.
pub data Phase : Type 0 where
  outside called asleep through : Phase

-- `pending` has the SYNC_BARRIER messages that the master's listener has not taken yet, with their
-- sockets, and `acks` the sockets with a BARRIER_ACK that is not taken. They are taken in any order.
pub record Rendezvous : Type 0 where
  pub phase : ℕ → Phase
  pub pending : List (ℕ × Message)
  pub master : Node
  pub acks : List ℕ

-- The messages that a trace sends, from socket `i`.
abbrev pub requests : ℕ → List Event → List (ℕ × Message)
requests i [] = []
requests i (sent fd m ∷ t) = (i, m) ∷ requests i t
requests i (_ ∷ t) = requests i t

abbrev pub sockets : List (ℕ × Message) → List ℕ
sockets [] = []
sockets ((i, m) ∷ ms) = i ∷ sockets ms

-- The sockets that a trace sends BARRIER_ACK to.
abbrev pub released : List Event → List ℕ
released [] = []
released (sent fd barrier_ack ∷ t) = fd ∷ released t
released (_ ∷ t) = released t

-- pthread_cond_signal wakes a thread that waits, and is lost otherwise.
abbrev pub wake : Phase → Phase
wake asleep = through
wake p = p

abbrev pub signalled : List Event → Phase → Phase
signalled [] p = p
signalled (signal_barrier ∷ t) p = wake (signalled t p)
signalled (_ ∷ t) p = signalled t p

-- `station i` has what node `i` keeps besides. No thread wakes up without a signal.
module _ (env : Surroundings) (station : ℕ → Node) (slave_to_wait : ℕ) where
  pub data Step (s : Rendezvous) : Rendezvous → Type 0 where
    calls :
        (i : ℕ) {n : Node}
        → s.phase i ≡ outside
        → wait_barrier env (record (station i) { trace = [] }) slave_to_wait ≡ ok n
        → Step s (record s {
          phase = update s.phase i called;
          pending = s.pending ++ requests i n.trace;
        })
    sleeps : (i : ℕ) → s.phase i ≡ called → Step s (record s { phase = update s.phase i asleep })
    takes :
        (i k : ℕ) (before after : List (ℕ × Message)) {n : Node}
        → s.pending ≡ before ++ (i, sync_barrier k) ∷ after
        → handle_sync_barrier_msg env (record (s.master) { trace = [] }) i k ≡ ok n
        → Step s
            (record s { pending = before ++ after; master = n; acks = s.acks ++ released n.trace })
    hears :
        (i : ℕ) (before after : List ℕ) {n : Node}
        → s.acks ≡ before ++ i ∷ after
        → handle_barrier_ack_msg env (record (station i) { trace = [] }) ≡ ok n
        → Step s (record s {
          phase = update s.phase i (signalled n.trace (s.phase i));
          acks = before ++ after;
        })

  pub data Reach (s : Rendezvous) : Rendezvous → Type 0 where
    here : Reach s s
    next : {t u : Rendezvous} → Reach s t → Step t u → Reach s u
