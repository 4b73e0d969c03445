-- ===== src/Core/Queues.antt =====
-- The two queues of a page under the operations of process_list_requests, and the sockets.
use psar_dsm.Prelude.{ℕ, ◌≡◌, refl, ◌≢◌, Bool, true, false, List, [], ◌∷◌, ◌++◌, arith, ==_self, ok}
use psar_dsm.LinkedList.Queue.{Queue, add_items, remove}
use psar_dsm.Memory.{Request, request_equals}
use psar_dsm.Message.{Message, Event, sent, Surroundings, up, closed, broken, dsm_send_msg}

-- The queue of the requests `rs`, whose tail pointer is right or not as `b` says.
abbrev pub queue : {A : Type 0} → List A → Bool → Queue A
queue xs b = record { items = xs; tail_ok = b }

-- The request at the head is the one that its own removal finds.
pub remove_head :
    (req : Request) (rest : List Request) (b : Bool)
    → remove request_equals req (queue (req ∷ rest) b) ≡ queue rest b
remove_head req [] b = rw (==_self req.block) refl
remove_head req (w ∷ rest) b = rw (==_self req.block) refl

pub add_ok :
    {A : Type 0} (xs : List A) (x : A) → add_items xs true x ≡ ok (queue (xs ++ x ∷ []) true)
add_ok [] x = refl
add_ok (y ∷ ys) x = refl

module _ (env : Surroundings) where
  -- The trace after a message to `fd`: a socket whose send returns 0 takes nothing.
  abbrev pub deliver : ℕ → Message → List Event → List Event
  deliver fd m t = elim (env.link fd) [ up ↦ sent fd m ∷ t | closed ↦ t | broken ↦ t ]

  -- The status that dsm_send_msg returns.
  abbrev pub status : ℕ → Bool
  status fd = elim (env.link fd) [ up ↦ true | closed ↦ false | broken ↦ false ]

  pub dsm_send_msg-deliver :
      (fd : ℕ) (m : Message) (t : List Event)
      → env.link fd ≢ broken
      → dsm_send_msg env fd m t ≡ ok (status fd, deliver fd m t)
  unfolding dsm_send_msg
  dsm_send_msg-deliver fd m t alive = ground arith

  pub send_up :
      (fd : ℕ) (m : Message) (t : List Event)
      → env.link fd ≡ up
      → dsm_send_msg env fd m t ≡ ok (true, sent fd m ∷ t)
  unfolding dsm_send_msg
  send_up fd m t works = rw (works, dsm_send_msg) refl
