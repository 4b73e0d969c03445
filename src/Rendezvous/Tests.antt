-- ===== src/Rendezvous/Tests.antt =====
-- Two nodes at a barrier for two, with the master on node 0.
use psar_dsm.Prelude.{ℕ, arith, ◌≡◌, ◌≢◌, ◌≤◌, refl, true, some, [], ◌∷◌, ◌==◌, ◌⊎◌, length}
use psar_dsm.LinkedList.Queue.{empty}
use psar_dsm.Message.{Surroundings, up, signal_barrier, dsm_send_msg}
use psar_dsm.Node.{Node}
use psar_dsm.Node.Handlers.{broadcast_ack, handle_sync_barrier_msg, handle_barrier_ack_msg}
use psar_dsm.Node.Api.{wait_barrier}
use psar_dsm.Rendezvous.{
  Rendezvous, called, asleep, through, signalled, Reach, here, next, calls, sleeps, takes, hears,
}
use psar_dsm.Rendezvous.Safety.{start, callers, Distinct, through-callers}
use psar_dsm.Rendezvous.Opens.{callers-through}
use psar_dsm.Rendezvous.Answered.{woken_or_lost}

abbrev calm : Surroundings
calm = record { link = λ fd. up; keeps_freed = true }

abbrev station : ℕ → Node
station i = record {
  mem = record { pagesize = 2; page_count = 1; base_addr = 4096; pages = [] };
  is_master = i == 0;
  master_sockfd = 4;
  sync_barrier_waiters = some empty;
  client_count = 0;
  trace = [];
}

-- A run from the start and the state that it ends in.
record Run : Type 0 where
  last : Rendezvous
  reach : Reach calm station 2 (start (station 0)) last

-- Both have called and the master has released both; none has heard of it.
both_released : Run
unfolding wait_barrier handle_sync_barrier_msg broadcast_ack dsm_send_msg
both_released = record {
  last = _;
  reach =
      next
        (next (next (next (next here (calls 1 refl refl)) (sleeps 1 refl)) (calls 0 refl refl))
          (takes 1 2 [] _ refl refl))
        (takes 0 2 [] [] refl refl);
}

-- Node 1 sleeps already and wakes up.
woken : Run
unfolding both_released handle_barrier_ack_msg
woken = record { last = _; reach = next both_released.reach (hears 1 (0 ∷ []) [] refl refl) }

-- Node 0 hears its BARRIER_ACK before it sleeps.
too_early : Run
unfolding woken both_released handle_barrier_ack_msg
too_early = record { last = _; reach = next woken.reach (hears 0 [] [] refl refl) }

-- Then it sleeps.
overslept : (s : Rendezvous) × Reach calm station 2 too_early.last s
unfolding too_early woken both_released
overslept = (_, next here (sleeps 0 refl))

through-callers_example : (2 ≤ length (callers woken.reach)) × Distinct (callers woken.reach)
unfolding woken both_released
through-callers_example =
    through-callers calm (λ fd. refl) station 2 (station 0) refl refl woken.reach 1 refl

-- The message of node 0 comes to it while it is awake.
woken_or_lost_example :
    ((woken.last.phase 0 ≡ asleep)
      × (signalled (signal_barrier ∷ []) (woken.last.phase 0) ≡ through))
    ⊎ ((woken.last.phase 0 ≡ called) × (overslept.0.phase 0 ≢ through))
unfolding overslept too_early woken both_released handle_barrier_ack_msg
woken_or_lost_example =
    woken_or_lost calm (λ fd. refl) station 2 (station 0) refl refl woken.reach 0 [] [] refl refl
      overslept.1

-- Both sleep before they hear of it.
all_heard : Run
unfolding wait_barrier handle_sync_barrier_msg broadcast_ack dsm_send_msg handle_barrier_ack_msg
all_heard = record {
  last = _;
  reach =
      next
        (next
          (next
            (next
              (next
                (next (next (next here (calls 1 refl refl)) (sleeps 1 refl)) (calls 0 refl refl))
                (takes 1 2 [] _ refl refl))
              (sleeps 0 refl))
            (takes 0 2 [] [] refl refl))
          (hears 1 (0 ∷ []) [] refl refl))
        (hears 0 [] [] refl refl);
}

callers-through_example : all_heard.last.phase 0 ≡ through
unfolding all_heard
callers-through_example =
    callers-through calm (λ fd. refl) station 2 (station 0) refl refl (omega arith) all_heard.reach
      0 ((((((((tt, tt), tt), tt), tt), tt), tt), refl), refl) refl refl refl (omega arith)
