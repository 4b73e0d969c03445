-- ===== src/Rendezvous/Answered.antt =====
-- The moment at which a node's listener takes BARRIER_ACK (handle_barrier_ack_msg of dsm_core.c).
use mathlib.Core.Path.{subst}
use psar_dsm.Prelude.{
  ℕ, ◌+◌, ◌≤◌, ◌%◌, ◌^◌, ◌≡◌, ◌≢◌, refl, sym, ap, ◌∙◌, ◌⊎◌, Bool, true, false, some, List, [], ◌∷◌,
  ◌++◌, ◌==◌, IfOk, arith, inl, inr, Bool-cases, if◌then◌else◌, ok,
}
use psar_dsm.LinkedList.Queue.{empty}
use psar_dsm.Message.{Message, sync_barrier, Surroundings, up}
use psar_dsm.Core.Queues.{queue}
use psar_dsm.Node.{Node}
use psar_dsm.Node.Handlers.{handle_barrier_ack_msg}
use psar_dsm.Cluster.{update}
use psar_dsm.Cluster.Nodes.{changed}
use psar_dsm.Rendezvous.{
  Phase, outside, called, asleep, through, Rendezvous, requests, sockets, released, signalled, wake,
  Step, calls, sleeps, takes, hears, Reach, here, next,
}
use psar_dsm.Rendezvous.Released.{
  NotIn, count_if, count_if-append, sockets-append, wait_barrier-requests, Taken, waiting, opened,
  handle_sync_barrier_msg-Taken, hears_signal,
}
use psar_dsm.Rendezvous.Safety.{start}
use psar_dsm.Rendezvous.Tally.{count_if-between}
use psar_dsm.Rendezvous.LostWakeup.{Missed, Missed-for_ever}

data PhaseIs (p : Phase) : Type 0 where
  is_outside : p ≡ outside → PhaseIs p
  is_called : p ≡ called → PhaseIs p
  is_asleep : p ≡ asleep → PhaseIs p
  is_through : p ≡ through → PhaseIs p

phase_cases : (p : Phase) → PhaseIs p
phase_cases outside = is_outside refl
phase_cases called = is_called refl
phase_cases asleep = is_asleep refl
phase_cases through = is_through refl

-- How often node `j` stands in a list.
abbrev times : ℕ → List ℕ → ℕ
times j xs = count_if (λ i. i == j) xs

absent-NotIn : (j : ℕ) (xs : List ℕ) → times j xs ≡ 0 → NotIn j xs
absent-NotIn j [] e = tt
absent-NotIn j (x ∷ xs) e = elim (Bool-cases (x == j)) [
  | inl is ↦ absurd (omega (arith, e, ap {B = ℕ} (λ b. if b then 1 else 0) is))
  | inr ne ↦ (ground arith, absent-NotIn j xs (omega (arith, e)))
]

-- Where the call of node `j` is: on the way to the master, among its waiters, or answered.
abbrev about : ℕ → Rendezvous → (waiters : List ℕ) → ℕ
about j s ws = times j (sockets s.pending) + times j ws + times j s.acks

-- The call of each node is in one place at most, in none before it and in none after it.
record Single (s : Rendezvous) : Type 0 where
  master : s.master.is_master ≡ true
  waiters : List ℕ
  is : s.master.sync_barrier_waiters ≡ some (queue waiters true)
  once : (j : ℕ) → about j s waiters ≤ 1
  before : (j : ℕ) → s.phase j ≡ outside → about j s waiters ≡ 0
  after : (j : ℕ) → s.phase j ≡ through → about j s waiters ≡ 0

other : (i j : ℕ) → (j == i) ≡ false → times j (i ∷ []) ≡ 0
other i j ne =
    let e : (i == j) ≡ false = ground arith in omega (arith, ap {B = ℕ} (λ b. if b then 1 else 0) e)

itself : (i : ℕ) → times i (i ∷ []) ≡ 1
itself i =
    let e : (i == i) ≡ true = ground arith in omega (arith, ap {B = ℕ} (λ b. if b then 1 else 0) e)

at_most : (i j : ℕ) → times j (i ∷ []) ≤ 1
at_most i j = elim (Bool-cases (i == j)) [
  | inl e ↦ omega (arith, ap {B = ℕ} (λ b. if b then 1 else 0) e)
  | inr e ↦ omega (arith, ap {B = ℕ} (λ b. if b then 1 else 0) e)
]

module _ (env : Surroundings) (works : (fd : ℕ) → env.link fd ≡ up) (station : ℕ → Node)
    (slave_to_wait : ℕ) where
  calls-Single :
      (s : Rendezvous) (i k : ℕ) (n : Node)
      → s.phase i ≡ outside
      → requests i n.trace ≡ (i, sync_barrier k) ∷ []
      → Single s
      → Single
          (record s { phase = update s.phase i called; pending = s.pending ++ requests i n.trace })
  calls-Single s i k n out sends g =
      let more : (j : ℕ)
          → times j (sockets (s.pending ++ (i, sync_barrier k) ∷ []))
            ≡ times j (sockets s.pending) + times j (i ∷ []) =
        λ j.
          ap (times j) (sockets-append s.pending ((i, sync_barrier k) ∷ []))
          ∙ count_if-append (λ x. x == j) (sockets s.pending) (i ∷ []) in
      rw sends (record {
        master = g.master;
        waiters = g.waiters;
        is = g.is;
        once = λ j. elim (Bool-cases (j == i)) [
          | inl e ↦
              let same : j ≡ i = ground arith in
              let none : about j s g.waiters ≡ 0 = g.before j (ap s.phase same ∙ out) in
              omega (arith, more j, none, at_most i j)
          | inr ne ↦ omega (arith, more j, g.once j, other i j ne)
        ];
        before =
            changed s.phase i called
              (λ j p.
                p ≡ outside
                → about j (record s { pending = s.pending ++ (i, sync_barrier k) ∷ [] }) g.waiters
                  ≡ 0)
              (λ e. cc) (λ j ne e. omega (arith, more j, g.before j e, other i j ne));
        after =
            changed s.phase i called
              (λ j p.
                p ≡ through
                → about j (record s { pending = s.pending ++ (i, sync_barrier k) ∷ [] }) g.waiters
                  ≡ 0)
              (λ e. cc) (λ j ne e. omega (arith, more j, g.after j e, other i j ne));
      })

  sleeps-Single :
      (s : Rendezvous) (i : ℕ) → Single s → Single (record s { phase = update s.phase i asleep })
  sleeps-Single s i g = record {
    master = g.master;
    waiters = g.waiters;
    is = g.is;
    once = g.once;
    before =
        changed s.phase i asleep (λ j p. p ≡ outside → about j s g.waiters ≡ 0) (λ e. cc)
          (λ j ne. g.before j);
    after =
        changed s.phase i asleep (λ j p. p ≡ through → about j s g.waiters ≡ 0) (λ e. cc)
          (λ j ne. g.after j);
  }

  -- The number of a node's places stays what it was.
  moved :
      (s : Rendezvous) (pending : List (ℕ × Message)) (m : Node) (acks : List ℕ) (ws : List ℕ)
      → m.is_master ≡ true
      → m.sync_barrier_waiters ≡ some (queue ws true)
      → (g : Single s)
      → ((j : ℕ) → times j (sockets pending) + times j ws + times j acks ≡ about j s g.waiters)
      → Single (record s { pending = pending; master = m; acks = acks })
  moved s pending m acks ws leads is g same = record {
    master = leads;
    waiters = ws;
    is = is;
    once = λ j. omega (arith, same j, g.once j);
    before = λ j e. same j ∙ g.before j e;
    after = λ j e. same j ∙ g.after j e;
  }

  takes-Single :
      (s : Rendezvous) (i k : ℕ) (before after : List (ℕ × Message)) (n : Node)
      → s.pending ≡ before ++ (i, sync_barrier k) ∷ after
      → (g : Single s) → Taken k i g.waiters n
      → Single
          (record s { pending = before ++ after; master = n; acks = s.acks ++ released n.trace })
  takes-Single s i k before after n is g taken =
      let left : (f : ℕ → Bool)
          → count_if f (sockets s.pending)
            ≡ count_if f (sockets (before ++ after)) + count_if f (i ∷ []) =
        λ f.
          ap (λ ms. count_if f (sockets ms)) is
          ∙ ap (count_if f) (sockets-append before ((i, sync_barrier k) ∷ after))
          ∙ count_if-between f (sockets before) i (sockets after)
          ∙ ap (λ xs. count_if f xs + count_if f (i ∷ [])) (sym (sockets-append before after)) in
      elim taken [
        | waiting early m q none ↦
            moved s (before ++ after) n (s.acks ++ released n.trace) (g.waiters ++ i ∷ []) m q g
              λ j. omega (
                arith,
                left (λ x. x == j),
                count_if-append (λ x. x == j) g.waiters (i ∷ []),
                count_if-append (λ x. x == j) s.acks (released n.trace),
                ap (times j) none,
              )
        | opened enough m q spared counts ↦
            moved s (before ++ after) n (s.acks ++ released n.trace) [] m q g λ j. omega (
              arith,
              left (λ x. x == j),
              counts (λ x. x == j),
              count_if-append (λ x. x == j) s.acks (released n.trace),
            )
      ]

  fewer :
      (s : Rendezvous) (i : ℕ) (before after : List ℕ)
      → s.acks ≡ before ++ i ∷ after
      → (j : ℕ) → times j s.acks ≡ times j (before ++ after) + times j (i ∷ [])
  fewer s i before after is j = ap (times j) is ∙ count_if-between (λ x. x == j) before i after

  hears-Single :
      (s : Rendezvous) (i : ℕ) (before after : List ℕ) (p : Phase)
      → s.acks ≡ before ++ i ∷ after
      → p ≡ wake (s.phase i)
      → Single s
      → Single (record s { phase = update s.phase i p; acks = before ++ after })
  hears-Single s i before after p is woken g =
      let few = fewer s i before after is in
      let last : about i (record s { acks = before ++ after }) g.waiters ≡ 0 =
        omega (arith, few i, itself i, g.once i) in
      record {
        master = g.master;
        waiters = g.waiters;
        is = g.is;
        once = λ j. omega (arith, few j, g.once j);
        before =
            changed s.phase i p
              (λ j q. q ≡ outside → about j (record s { acks = before ++ after }) g.waiters ≡ 0)
              (λ e. last) (λ j ne e. omega (arith, few j, g.before j e));
        after =
            changed s.phase i p
              (λ j q. q ≡ through → about j (record s { acks = before ++ after }) g.waiters ≡ 0)
              (λ e. last) (λ j ne e. omega (arith, few j, g.after j e));
      }

  signals :
      (i : ℕ) (p : Phase) (n : Node)
      → handle_barrier_ack_msg env (record (station i) { trace = [] }) ≡ ok n
      → signalled n.trace p ≡ wake p
  signals i p n run =
      subst (IfOk λ (n' : Node). signalled n'.trace p ≡ wake p) run (hears_signal env (station i) p)

  Step-Single : {s s' : Rendezvous} → Step env station slave_to_wait s s' → Single s → Single s'
  Step-Single {s} (calls i {n} out run) g =
      calls-Single s i (slave_to_wait % 2 ^ 16) n out
        (subst
          (IfOk
            λ (n' : Node). requests i n'.trace ≡ (i, sync_barrier (slave_to_wait % 2 ^ 16)) ∷ [])
          run (wait_barrier-requests env works (station i) i slave_to_wait))
        g
  Step-Single {s} (sleeps i at) g = sleeps-Single s i g
  Step-Single {s} (takes i k before after {n} is run) g = takes-Single s i k before after n is g (
      subst (IfOk (Taken k i g.waiters)) run
        (handle_sync_barrier_msg-Taken env works k i g.waiters s.master g.master g.is))
  Step-Single {s} (hears i before after {n} is run) g =
      hears-Single s i before after (signalled n.trace (s.phase i)) is (signals i (s.phase i) n run)
        g

  module _ (master : Node) (leads : master.is_master ≡ true)
      (empty_barrier : master.sync_barrier_waiters ≡ some empty) where
    Reach-Single : {s : Rendezvous} → Reach env station slave_to_wait (start master) s → Single s
    Reach-Single here = record {
      master = leads;
      waiters = [];
      is = empty_barrier;
      once = λ j. omega arith;
      before = λ j e. refl;
      after = λ j e. refl;
    }
    Reach-Single (next r st) = Step-Single st (Reach-Single r)

    arrived :
        (s : Rendezvous) (j : ℕ) (before after : List ℕ)
        → s.acks ≡ before ++ j ∷ after
        → (g : Single s) → 1 ≤ about j s g.waiters
    arrived s j before after is g = omega (arith, fewer s j before after is j, itself j)

    too_early :
        (s : Rendezvous) (j : ℕ) (before after : List ℕ) (p : Phase)
        → s.acks ≡ before ++ j ∷ after
        → p ≡ called
        → Single s
        → Missed (record s { phase = update s.phase j p; acks = before ++ after }) j
    too_early s j before after p is awake g =
        let self : (j == j) ≡ true = ground arith in
        let few = fewer s j before after is j in
        let one = g.once j in
        record {
          inside = inl (rw self awake);
          master = g.master;
          waiters = g.waiters;
          is = g.is;
          unlisted = absent-NotIn j g.waiters (omega (arith, few, itself j, one));
          unasked = absent-NotIn j (sockets s.pending) (omega (arith, few, itself j, one));
          unanswered = absent-NotIn j (before ++ after) (omega (arith, few, itself j, one));
        }

    -- When the listener of a node takes BARRIER_ACK, the node's program is either asleep in wait_barrier
    -- and passes the barrier at once, or it has not fallen asleep yet and never passes the barrier,
    -- whatever happens later. (The master's list of waiters is empty at the start, every node calls
    -- sync_barrier once and for the same number, every socket works, and no thread wakes up without a
    -- signal.)
    pub woken_or_lost :
        {s t : Rendezvous} {n : Node} (r : Reach env station slave_to_wait (start master) s) (j : ℕ)
        (before after : List ℕ)
        → s.acks ≡ before ++ j ∷ after
        → handle_barrier_ack_msg env (record (station j) { trace = [] }) ≡ ok n
        → Reach env station slave_to_wait
            (record s {
              phase = update s.phase j (signalled n.trace (s.phase j));
              acks = before ++ after;
            })
            t
        → ((s.phase j ≡ asleep) × (signalled n.trace (s.phase j) ≡ through))
          ⊎ ((s.phase j ≡ called) × (t.phase j ≢ through))
    woken_or_lost {s} {t} {n} r j before after is run later =
        let g = Reach-Single r in
        let woken = signals j (s.phase j) n run in
        elim (phase_cases (s.phase j)) [
          | is_outside e ↦ absurd (omega (arith, arrived s j before after is g, g.before j e))
          | is_called e ↦ inr (
            e,
            Missed-for_ever env works station slave_to_wait j
                (too_early s j before after (signalled n.trace (s.phase j)) is (woken ∙ ap wake e)
                  g)
                later,
          )
          | is_asleep e ↦ inl (e, woken ∙ ap wake e)
          | is_through e ↦ absurd (omega (arith, arrived s j before after is g, g.after j e))
        ]
