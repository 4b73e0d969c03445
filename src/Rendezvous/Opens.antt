-- ===== src/Rendezvous/Opens.antt =====
-- The barrier opens when as many have come as it waits for.
use mathlib.Core.Path.{subst}
use psar_dsm.Prelude.{
  ℕ, ◌+◌, ◌≤◌, ◌<◌, ◌%◌, ◌^◌, ◌≡◌, refl, ap, Bool, true, some, List, [], ◌∷◌, ◌==◌, IfOk, arith,
  length, inl, inr,
}
use psar_dsm.LinkedList.Queue.{empty}
use psar_dsm.Message.{sync_barrier, Surroundings, up}
use psar_dsm.Node.{Node}
use psar_dsm.Rendezvous.{
  asleep, through, Rendezvous, requests, sockets, signalled, wake, Step, calls, sleeps, takes,
  hears, Reach, here, next,
}
use psar_dsm.Rendezvous.Released.{
  count_if, wait_barrier-requests, Taken, handle_sync_barrier_msg-Taken, hears_signal,
}
use psar_dsm.Rendezvous.Safety.{start, callers, caller}
use psar_dsm.Rendezvous.Tally.{
  Tally, any, count_if-any, empty_list, still_woken, calls-Tally, takes-Tally, hears-Tally,
}

module _ {env : Surroundings} {station : ℕ → Node} {slave_to_wait : ℕ} where
  abbrev hearer : {s t : Rendezvous} → Step env station slave_to_wait s t → List ℕ → List ℕ
  hearer (hears i before after is run) hs = i ∷ hs
  hearer _ hs = hs

  -- The nodes that have taken BARRIER_ACK, the last one first.
  abbrev heard : {s t : Rendezvous} → Reach env station slave_to_wait s t → List ℕ
  heard here = []
  heard (next r st) = hearer st (heard r)

  abbrev InTime : {s t : Rendezvous} → Step env station slave_to_wait s t → Type 0
  InTime {s} (hears i before after is run) = s.phase i ≡ asleep
  InTime _ = Unit {0}

  -- Every BARRIER_ACK of the run finds its program asleep.
  abbrev pub AllInTime : {s t : Rendezvous} → Reach env station slave_to_wait s t → Type 0
  AllInTime here = Unit {0}
  AllInTime (next r st) = AllInTime r × InTime st

module _ (env : Surroundings) (works : (fd : ℕ) → env.link fd ≡ up) (station : ℕ → Node)
    (slave_to_wait : ℕ) where
  abbrev count : ℕ
  count = slave_to_wait % 2 ^ 16

  Step-Tally :
      {s s' : Rendezvous} (cs hs : List ℕ) (st : Step env station slave_to_wait s s')
      → InTime st
      → Tally count s cs hs
      → Tally count s' (caller st cs) (hearer st hs)
  Step-Tally {s} cs hs (calls i {n} out run) h t =
      calls-Tally env works station slave_to_wait s cs hs i n out
        (subst (IfOk λ (n' : Node). requests i n'.trace ≡ (i, sync_barrier count) ∷ []) run
          (wait_barrier-requests env works (station i) i slave_to_wait))
        t
  Step-Tally {s} cs hs (sleeps i at) h t = record {
    master = t.master;
    waiters = t.waiters;
    is = t.is;
    same = t.same;
    few = t.few;
    each = t.each;
    begun = t.begun;
    woken = still_woken env works station slave_to_wait s i asleep hs (λ e. cc) t.woken;
  }
  Step-Tally {s} cs hs (takes i k before after {n} is run) h t =
      takes-Tally env works station slave_to_wait s cs hs i k before after n is t (
        subst (IfOk (Taken k i t.waiters)) run
          (handle_sync_barrier_msg-Taken env works k i t.waiters s.master t.master t.is))
  Step-Tally {s} cs hs (hears i before after {n} is run) h t =
      hears-Tally env works station slave_to_wait s cs hs i before after n is
        (subst (IfOk λ (n' : Node). signalled n'.trace (s.phase i) ≡ wake (s.phase i)) run
          (hears_signal env (station i) (s.phase i)))
        h t

  module _ (master : Node) (leads : master.is_master ≡ true)
      (empty_barrier : master.sync_barrier_waiters ≡ some empty) (positive : 0 < count) where
    Reach-Tally :
        {s : Rendezvous} (r : Reach env station slave_to_wait (start master) s)
        → AllInTime r
        → Tally count s (callers r) (heard r)
    Reach-Tally here h = record {
      master = leads;
      waiters = [];
      is = empty_barrier;
      same = tt;
      few = positive;
      each = λ f. refl;
      begun = inl refl;
      woken = λ j e. absurd (omega arith);
    }
    Reach-Tally (next r st) h = Step-Tally (callers r) (heard r) st h.1 (Reach-Tally r h.0)

    -- Nobody waits at the master any more once all that have called are as many as it waits for.
    none_waits :
        (s : Rendezvous) (cs hs : List ℕ) (t : Tally count s cs hs)
        → s.pending ≡ []
        → s.acks ≡ []
        → length cs ≡ count
        → t.waiters ≡ []
    none_waits s cs hs t taken answered all = empty_list t.waiters (elim t.begun [
      | inl zero ↦ absurd (omega (arith, t.few, settled, all))
      | inr enough ↦ omega (arith, settled, all, ap length answered)
    ])
      where
        settled : length t.waiters + length hs ≡ length cs
        settled = omega (
          arith,
          t.each any,
          count_if-any t.waiters,
          count_if-any hs,
          count_if-any cs,
          count_if-any s.acks,
          ap length answered,
          ap (λ ms. count_if any (sockets ms)) taken,
        )

    -- When exactly as many nodes have called sync_barrier as it waits for (cut to 16 bits), no message
    -- of the barrier is under way any more, and every BARRIER_ACK has found its program asleep, then
    -- every program that has called is past the barrier, in whatever order all this was. (The master's
    -- list of waiters is empty at the start, the number is not 0, every node calls sync_barrier once
    -- and for the same number, every socket works, and no thread wakes up without a signal.)
    pub callers-through :
        {s : Rendezvous} (r : Reach env station slave_to_wait (start master) s) (j : ℕ)
        → AllInTime r
        → s.pending ≡ []
        → s.acks ≡ []
        → length (callers r) ≡ slave_to_wait % 2 ^ 16
        → 1 ≤ count_if (λ i. i == j) (callers r)
        → s.phase j ≡ through
    callers-through {s} r j in_time taken answered all called_it =
        let t = Reach-Tally r in_time in
        let none = none_waits s (callers r) (heard r) t taken answered all in
        let f : ℕ → Bool = λ i. i == j in
        t.woken j (
          omega (
            arith,
            called_it,
            t.each f,
            ap (count_if f) none,
            ap (count_if f) answered,
            ap (λ ms. count_if f (sockets ms)) taken,
          ))
