-- ===== src/Rendezvous/Released.antt =====
-- What each handler of the barrier does to the messages under way.
use psar_dsm.Prelude.{
  ℕ, Bool, ap, ◌∙◌, ◌+◌, ◌≤◌, ◌<◌, ◌%◌, ◌^◌, ◌≡◌, ◌≢◌, refl, true, false, some, List, [], ◌∷◌, ◌++◌,
  ◌==◌, leb, IfOk, arith, length, if◌then◌else◌, Bool-cases, inl, inr,
}
use psar_dsm.Message.{Message, sync_barrier, barrier_ack, Event, Surroundings, up, broken}
use psar_dsm.Core.Queues.{queue, send_up, deliver}
use psar_dsm.Node.{Node}
use psar_dsm.Node.Handlers.{handle_sync_barrier_msg, handle_barrier_ack_msg}
use psar_dsm.Node.Api.{wait_barrier}
use psar_dsm.Node.Barrier.{acknowledged, waits, opens}
use psar_dsm.Rendezvous.{Phase, sockets, requests, released, signalled, wake}

abbrev pub NotIn : ℕ → List ℕ → Type 0
NotIn i [] = Unit {0}
NotIn i (x ∷ xs) = ((i == x) ≡ false) × NotIn i xs

pub NotIn-append : (i : ℕ) (xs ys : List ℕ) → NotIn i xs → NotIn i ys → NotIn i (xs ++ ys)
NotIn-append i [] ys hx hy = hy
NotIn-append i (x ∷ xs) ys hx hy = (hx.0, NotIn-append i xs ys hx.1 hy)

pub NotIn-drop :
    (i : ℕ) (xs : List ℕ) (y : ℕ) (ys : List ℕ)
    → NotIn i (xs ++ y ∷ ys)
    → ((i == y) ≡ false) × NotIn i (xs ++ ys)
NotIn-drop i [] y ys h = h
NotIn-drop i (x ∷ xs) y ys h = let (ne, rest) = NotIn-drop i xs y ys h.1 in (ne, (h.0, rest))

-- How many of the numbers pass the test.
abbrev pub count_if : (ℕ → Bool) → List ℕ → ℕ
count_if f [] = 0
count_if f (x ∷ xs) = (if f x then 1 else 0) + count_if f xs

pub count_if-append :
    (f : ℕ → Bool) (xs ys : List ℕ) → count_if f (xs ++ ys) ≡ count_if f xs + count_if f ys
count_if-append f [] ys = omega arith
count_if-append f (x ∷ xs) ys = omega (arith, count_if-append f xs ys)

pub sockets-append : (xs ys : List (ℕ × Message)) → sockets (xs ++ ys) ≡ sockets xs ++ sockets ys
sockets-append [] ys = refl
sockets-append ((i, m) ∷ xs) ys = ap (λ zs. i ∷ zs) (sockets-append xs ys)

-- The master puts the socket behind the waiters, or opens the barrier and releases all of them.
pub data Taken (k i : ℕ) (ws : List ℕ) (n : Node) : Type 0 where
  waiting :
      length ws + 1 < k
      → n.is_master ≡ true
      → n.sync_barrier_waiters ≡ some (queue (ws ++ i ∷ []) true)
      → released n.trace ≡ []
      → Taken k i ws n
  opened :
      k ≤ length ws + 1
      → n.is_master ≡ true
      → n.sync_barrier_waiters ≡ some (queue [] true)
      → ((j : ℕ) → NotIn j ws → (j == i) ≡ false → NotIn j (released n.trace))
      → ((f : ℕ → Bool) → count_if f (released n.trace) ≡ count_if f ws + count_if f (i ∷ []))
      → Taken k i ws n

module _ (env : Surroundings) (works : (fd : ℕ) → env.link fd ≡ up) where
  alive : (fd : ℕ) → env.link fd ≢ broken
  alive fd e = ground (arith, works fd)

  pub wait_barrier-requests :
      (station : Node) (i slave_to_wait : ℕ)
      → IfOk
          (λ (n : Node). requests i n.trace ≡ (i, sync_barrier (slave_to_wait % 2 ^ 16)) ∷ [])
          (wait_barrier env (record station { trace = [] }) slave_to_wait)
  unfolding wait_barrier
  wait_barrier-requests station i k =
      rw
        (send_up env station.master_sockfd (sync_barrier (k % 2 ^ 16)) []
          (works station.master_sockfd))
        refl

  released-NotIn :
      (i : ℕ) (xs : List ℕ) (t : List Event)
      → NotIn i xs
      → NotIn i (released t)
      → NotIn i (released (acknowledged env xs t))
  unfolding acknowledged
  released-NotIn i [] t hx ht = ht
  released-NotIn i (x ∷ xs) t hx ht =
      released-NotIn i xs (deliver env x barrier_ack t) hx.1
        (rw (works x, NotIn, released) (hx.0, ht))

  released-count_if :
      (f : ℕ → Bool) (xs : List ℕ) (t : List Event)
      → count_if f (released (acknowledged env xs t)) ≡ count_if f xs + count_if f (released t)
  unfolding acknowledged
  released-count_if f [] t = omega arith
  released-count_if f (x ∷ xs) t =
      released-count_if f xs (deliver env x barrier_ack t)
      ∙ rw (works x, released, count_if) (omega arith)

  pub handle_sync_barrier_msg-Taken :
      (k i : ℕ) (ws : List ℕ) (m : Node)
      → m.is_master ≡ true
      → m.sync_barrier_waiters ≡ some (queue ws true)
      → IfOk (Taken k i ws) (handle_sync_barrier_msg env (record m { trace = [] }) i k)
  handle_sync_barrier_msg-Taken k i ws m master is = elim (Bool-cases (leb k (length ws + 1))) [
    | inl late ↦ rw (opens env alive k (record m { trace = [] }) ws i master is (ground arith)) (
        opened (ground arith) master refl
          (λ j not ne.
            released-NotIn j (ws ++ i ∷ []) [] (NotIn-append j ws (i ∷ []) not (ne, tt)) tt)
          λ f. omega (arith, released-count_if f (ws ++ i ∷ []) [], count_if-append f ws (i ∷ [])))
    | inr early ↦
        rw (waits env alive k (record m { trace = [] }) ws i master is (ground arith))
          (waiting (ground arith) master refl refl)
  ]

pub hears_signal :
    (env : Surroundings) (station : Node) (p : Phase)
    → IfOk
        (λ (n : Node). signalled n.trace p ≡ wake p)
        (handle_barrier_ack_msg env (record station { trace = [] }))
unfolding handle_barrier_ack_msg
hears_signal env station p = refl
