-- ===== src/Rendezvous/LostWakeup.antt =====
-- A program that BARRIER_ACK has reached before it sleeps.
use mathlib.Core.Path.{subst}
use psar_dsm.Prelude.{
  ℕ, ◌≡◌, ◌≢◌, refl, sym, ap, ◌∙◌, ◌⊎◌, true, false, some, List, [], ◌∷◌, ◌++◌, ◌==◌, IfOk, arith,
  inl, inr, Bool-cases, ◌%◌, ◌^◌,
}
use psar_dsm.Message.{Message, sync_barrier, Surroundings, up}
use psar_dsm.Core.Queues.{queue}
use psar_dsm.Node.{Node}
use psar_dsm.Cluster.{update}
use psar_dsm.Cluster.Nodes.{update_cases}
use psar_dsm.Rendezvous.{
  Phase, outside, called, asleep, through, Rendezvous, requests, sockets, released, signalled, Step,
  calls, sleeps, takes, hears, Reach, here, next,
}
use psar_dsm.Rendezvous.Released.{
  NotIn, NotIn-append, NotIn-drop, sockets-append, wait_barrier-requests, Taken, waiting, opened,
  handle_sync_barrier_msg-Taken,
}

-- Node `i` is still in wait_barrier, and nothing about it is left: no SYNC_BARRIER from it and no
-- BARRIER_ACK to it is under way, and the master does not have it among the waiters.
pub record Missed (s : Rendezvous) (i : ℕ) : Type 0 where
  pub inside : (s.phase i ≡ called) ⊎ (s.phase i ≡ asleep)
  pub master : s.master.is_master ≡ true
  pub waiters : List ℕ
  pub is : s.master.sync_barrier_waiters ≡ some (queue waiters true)
  pub unlisted : NotIn i waiters
  pub unasked : NotIn i (sockets s.pending)
  pub unanswered : NotIn i s.acks

-- What step of node `j` leaves of the phase of node `i`.
other_phase : (f : ℕ → Phase) (j : ℕ) (p : Phase) (i : ℕ) → (i == j) ≡ false → update f j p i ≡ f i
other_phase f j p i ne = rw ne refl

differs : (f : ℕ → Phase) (i j : ℕ) (p : Phase) → f i ≢ p → f j ≡ p → (i == j) ≡ false
differs f i j p away at = elim (Bool-cases (i == j)) [
  | inl e ↦ (let same : j ≡ i = ground arith in absurd (away (subst (λ k. f k ≡ p) same at)))
  | inr e ↦ e
]

module _ (env : Surroundings) (works : (fd : ℕ) → env.link fd ≡ up) (station : ℕ → Node)
    (slave_to_wait i : ℕ) where
  in_call : (s : Rendezvous) → Missed s i → s.phase i ≢ outside
  in_call s m e = elim m.inside [ inl at ↦ cc | inr at ↦ cc ]

  calls-Missed :
      (s : Rendezvous) (j k : ℕ) (n : Node)
      → s.phase j ≡ outside
      → requests j n.trace ≡ (j, sync_barrier k) ∷ []
      → Missed s i
      → Missed
          (record s { phase = update s.phase j called; pending = s.pending ++ requests j n.trace })
          i
  calls-Missed s j k n out sends m =
      let ne = differs s.phase i j outside (in_call s m) out in
      rw sends (record {
        inside =
            subst (λ p. (p ≡ called) ⊎ (p ≡ asleep)) (sym (other_phase s.phase j called i ne))
              m.inside;
        master = m.master;
        waiters = m.waiters;
        is = m.is;
        unlisted = m.unlisted;
        unasked =
            subst (NotIn i) (sym (sockets-append s.pending ((j, sync_barrier k) ∷ [])))
              (NotIn-append i (sockets s.pending) (j ∷ []) m.unasked (ne, tt));
        unanswered = m.unanswered;
      })

  sleeps-Missed :
      (s : Rendezvous) (j : ℕ)
      → Missed s i
      → Missed (record s { phase = update s.phase j asleep }) i
  sleeps-Missed s j m = record {
    inside = elim (update_cases s.phase j asleep i) [
      | inl (e, is) ↦ inr is
      | inr (e, is) ↦ subst (λ p. (p ≡ called) ⊎ (p ≡ asleep)) (sym is) m.inside
    ];
    master = m.master;
    waiters = m.waiters;
    is = m.is;
    unlisted = m.unlisted;
    unasked = m.unasked;
    unanswered = m.unanswered;
  }

  takes-Missed :
      (s : Rendezvous) (j k : ℕ) (before after : List (ℕ × Message)) (n : Node)
      → s.pending ≡ before ++ (j, sync_barrier k) ∷ after
      → (m : Missed s i) → Taken k j m.waiters n
      → Missed
          (record s { pending = before ++ after; master = n; acks = s.acks ++ released n.trace })
          i
  takes-Missed s j k before after n is m t =
      let (ne, rest) = NotIn-drop i (sockets before) j (sockets after) (
        subst (NotIn i) (ap sockets is ∙ sockets-append before ((j, sync_barrier k) ∷ after))
          m.unasked) in
      let unasked' = subst (NotIn i) (sym (sockets-append before after)) rest in
      elim t [
        | waiting few leads q none ↦ record {
          inside = m.inside;
          master = leads;
          waiters = m.waiters ++ j ∷ [];
          is = q;
          unlisted = NotIn-append i m.waiters (j ∷ []) m.unlisted (ne, tt);
          unasked = unasked';
          unanswered =
              NotIn-append i s.acks (released n.trace) m.unanswered (subst (NotIn i) (sym none) tt);
        }
        | opened enough leads q spared counts ↦ record {
          inside = m.inside;
          master = leads;
          waiters = [];
          is = q;
          unlisted = tt;
          unasked = unasked';
          unanswered =
              NotIn-append i s.acks (released n.trace) m.unanswered (spared i m.unlisted ne);
        }
      ]

  hears-Missed :
      (s : Rendezvous) (j : ℕ) (before after : List ℕ) (p : Phase)
      → s.acks ≡ before ++ j ∷ after
      → Missed s i
      → Missed (record s { phase = update s.phase j p; acks = before ++ after }) i
  hears-Missed s j before after p is m =
      let (ne, rest) = NotIn-drop i before j after (subst (NotIn i) is m.unanswered) in
      record {
        inside =
            subst (λ p'. (p' ≡ called) ⊎ (p' ≡ asleep)) (sym (other_phase s.phase j p i ne))
              m.inside;
        master = m.master;
        waiters = m.waiters;
        is = m.is;
        unlisted = m.unlisted;
        unasked = m.unasked;
        unanswered = rest;
      }

  Step-Missed : {s s' : Rendezvous} → Step env station slave_to_wait s s' → Missed s i → Missed s' i
  Step-Missed {s} (calls j {n} out run) m =
      calls-Missed s j (slave_to_wait % 2 ^ 16) n out
        (subst
          (IfOk
            λ (n' : Node). requests j n'.trace ≡ (j, sync_barrier (slave_to_wait % 2 ^ 16)) ∷ [])
          run (wait_barrier-requests env works (station j) j slave_to_wait))
        m
  Step-Missed {s} (sleeps j at) m = sleeps-Missed s j m
  Step-Missed {s} (takes j k before after {n} is run) m = takes-Missed s j k before after n is m (
      subst (IfOk (Taken k j m.waiters)) run
        (handle_sync_barrier_msg-Taken env works k j m.waiters s.master m.master m.is))
  Step-Missed {s} (hears j before after {n} is run) m =
      hears-Missed s j before after (signalled n.trace (s.phase j)) is m

  Reach-Missed : {s t : Rendezvous} → Missed s i → Reach env station slave_to_wait s t → Missed t i
  Reach-Missed m here = m
  Reach-Missed m (next r st) = Step-Missed st (Reach-Missed m r)

  -- A program in wait_barrier that the master has answered and no longer knows of, with no message of
  -- the barrier from it or to it under way, never passes the barrier, whatever the others do, each of
  -- which calls sync_barrier once. (Every socket works, and no thread wakes up without a signal.)
  pub Missed-for_ever :
      {s t : Rendezvous} → Missed s i → Reach env station slave_to_wait s t → t.phase i ≢ through
  Missed-for_ever m r e = elim (Reach-Missed m r).inside [ inl at ↦ cc | inr at ↦ cc ]
