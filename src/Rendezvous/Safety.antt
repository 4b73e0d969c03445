-- ===== src/Rendezvous/Safety.antt =====
-- Nobody passes the barrier before as many have come as it waits for.
use mathlib.Core.Path.{subst}
use psar_dsm.Prelude.{
  ℕ, ◌+◌, ◌≤◌, ◌%◌, ◌^◌, ◌≡◌, ◌≢◌, refl, sym, ap, ◌∙◌, ◌⊎◌, true, some, List, [], ◌∷◌, ◌++◌, IfOk,
  arith, length, length-append, inl, inr,
}
use psar_dsm.LinkedList.Queue.{empty}
use psar_dsm.Message.{Message, sync_barrier, Surroundings, up}
use psar_dsm.Core.Queues.{queue}
use psar_dsm.Node.{Node}
use psar_dsm.Cluster.{update}
use psar_dsm.Cluster.Nodes.{changed}
use psar_dsm.Rendezvous.{
  Phase, outside, called, asleep, through, Rendezvous, requests, released, signalled, wake, Step,
  calls, sleeps, takes, hears, Reach, here, next,
}
use psar_dsm.Rendezvous.Released.{
  NotIn, wait_barrier-requests, Taken, waiting, opened, handle_sync_barrier_msg-Taken, hears_signal,
}

-- Nobody has called yet.
abbrev pub start : (master : Node) → Rendezvous
start master = record { phase = λ i. outside; pending = []; master = master; acks = [] }

-- All requests that are under way are for the same number.
abbrev pub AllFor : ℕ → List (ℕ × Message) → Type 0
AllFor k [] = Unit {0}
AllFor k ((i, m) ∷ ms) = (m ≡ sync_barrier k) × AllFor k ms

pub AllFor-append :
    (k : ℕ) (xs ys : List (ℕ × Message)) → AllFor k xs → AllFor k ys → AllFor k (xs ++ ys)
AllFor-append k [] ys hx hy = hy
AllFor-append k ((i, m) ∷ xs) ys hx hy = (hx.0, AllFor-append k xs ys hx.1 hy)

pub AllFor-drop :
    (k i : ℕ) (m : Message) (xs ys : List (ℕ × Message))
    → AllFor k (xs ++ (i, m) ∷ ys)
    → (m ≡ sync_barrier k) × AllFor k (xs ++ ys)
AllFor-drop k i m [] ys h = h
AllFor-drop k i m ((j, m') ∷ xs) ys h =
    let (is, rest) = AllFor-drop k i m xs ys h.1 in (is, (h.0, rest))

not_empty : (xs : List ℕ) (y : ℕ) (ys : List ℕ) → (xs ++ y ∷ ys) ≢ []
not_empty [] y ys e = cc
not_empty (x ∷ xs) y ys e = cc

abbrev pub Distinct : List ℕ → Type 0
Distinct [] = Unit {0}
Distinct (x ∷ xs) = NotIn x xs × Distinct xs

-- Nobody has been released, and who has called is behind the waiters or on the way there.
record Shut (s : Rendezvous) (waiters cs : List ℕ) : Type 0 where
  none_released : s.acks ≡ []
  none_through : (j : ℕ) → s.phase j ≢ through
  counted : length waiters + length s.pending ≡ length cs

-- `cs` are the nodes that have called wait_barrier, for the number `k`.
record Inv (k : ℕ) (s : Rendezvous) (cs : List ℕ) : Type 0 where
  master : s.master.is_master ≡ true
  waiters : List ℕ
  is : s.master.sync_barrier_waiters ≡ some (queue waiters true)
  same : AllFor k s.pending
  gate : Shut s waiters cs ⊎ (k ≤ length cs)
  new : (j : ℕ) → s.phase j ≡ outside → NotIn j cs
  distinct : Distinct cs

module _ {env : Surroundings} {station : ℕ → Node} {slave_to_wait : ℕ} where
  abbrev pub caller : {s t : Rendezvous} → Step env station slave_to_wait s t → List ℕ → List ℕ
  caller (calls i e run) cs = i ∷ cs
  caller _ cs = cs

  -- The nodes that have called wait_barrier, the last one first.
  abbrev pub callers : {s t : Rendezvous} → Reach env station slave_to_wait s t → List ℕ
  callers here = []
  callers (next r st) = caller st (callers r)

module _ (env : Surroundings) (works : (fd : ℕ) → env.link fd ≡ up) (station : ℕ → Node)
    (slave_to_wait : ℕ) where
  abbrev count : ℕ
  count = slave_to_wait % 2 ^ 16

  calls-Inv :
      (s : Rendezvous) (cs : List ℕ) (i : ℕ) (n : Node)
      → s.phase i ≡ outside
      → requests i n.trace ≡ (i, sync_barrier count) ∷ []
      → Inv count s cs
      → Inv count
          (record s { phase = update s.phase i called; pending = s.pending ++ requests i n.trace })
          (i ∷ cs)
  calls-Inv s cs i n out sends inv = rw sends (record {
    master = inv.master;
    waiters = inv.waiters;
    is = inv.is;
    same = AllFor-append count s.pending ((i, sync_barrier count) ∷ []) inv.same (refl, tt);
    gate = elim inv.gate [
      | inl shut ↦ inl (record {
        none_released = shut.none_released;
        none_through =
            changed s.phase i called (λ j p. p ≢ through) (λ e. cc) (λ j ne. shut.none_through j);
        counted =
            omega (arith, shut.counted, length-append s.pending ((i, sync_barrier count) ∷ []));
      })
      | inr enough ↦ inr (omega arith)
    ];
    new =
        changed s.phase i called (λ j p. p ≡ outside → NotIn j (i ∷ cs)) (λ e. cc)
          (λ j ne e. (ne, inv.new j e));
    distinct = (inv.new i out, inv.distinct);
  })

  sleeps-Inv :
      (s : Rendezvous) (cs : List ℕ) (i : ℕ)
      → s.phase i ≡ called
      → Inv count s cs
      → Inv count (record s { phase = update s.phase i asleep }) cs
  sleeps-Inv s cs i at inv = record {
    master = inv.master;
    waiters = inv.waiters;
    is = inv.is;
    same = inv.same;
    gate = elim inv.gate [
      | inl shut ↦ inl (record {
        none_released = shut.none_released;
        none_through =
            changed s.phase i asleep (λ j p. p ≢ through) (λ e. cc) (λ j ne. shut.none_through j);
        counted = shut.counted;
      })
      | inr enough ↦ inr enough
    ];
    new = changed s.phase i asleep (λ j p. p ≡ outside → NotIn j cs) (λ e. cc) (λ j ne. inv.new j);
    distinct = inv.distinct;
  }

  length-drop :
      (before : List (ℕ × Message)) (x : ℕ × Message) (after : List (ℕ × Message))
      → length (before ++ x ∷ after) ≡ length (before ++ after) + 1
  length-drop before x after =
      omega (arith, length-append before (x ∷ after), length-append before after)

  takes-Inv :
      (s : Rendezvous) (cs : List ℕ) (i k : ℕ) (before after : List (ℕ × Message)) (n : Node)
      → s.pending ≡ before ++ (i, sync_barrier k) ∷ after
      → (inv : Inv count s cs) → Taken k i inv.waiters n
      → Inv count
          (record s { pending = before ++ after; master = n; acks = s.acks ++ released n.trace })
          cs
  takes-Inv s cs i k before after n is inv t =
      let (which, others) =
        AllFor-drop count i (sync_barrier k) before after (subst (AllFor count) is inv.same) in
      let same : k ≡ count = cc in
      let one_less = ap length is ∙ length-drop before (i, sync_barrier k) after in
      elim t [
        | waiting few m q none ↦ record {
          master = m;
          waiters = inv.waiters ++ i ∷ [];
          is = q;
          same = others;
          gate = elim inv.gate [
            | inl shut ↦ inl (record {
              none_released = rw (shut.none_released, none) refl;
              none_through = shut.none_through;
              counted = omega (arith, shut.counted, one_less, length-append inv.waiters (i ∷ []));
            })
            | inr enough ↦ inr enough
          ];
          new = inv.new;
          distinct = inv.distinct;
        }
        | opened enough m q spared counts ↦ record {
          master = m;
          waiters = [];
          is = q;
          same = others;
          gate = elim inv.gate [
            | inl shut ↦ inr (omega (arith, shut.counted, one_less))
            | inr already ↦ inr already
          ];
          new = inv.new;
          distinct = inv.distinct;
        }
      ]

  wake-outside : (p : Phase) → wake p ≡ outside → p ≡ outside
  wake-outside outside e = refl
  wake-outside called e = cc
  wake-outside asleep e = cc
  wake-outside through e = cc

  hears-Inv :
      (s : Rendezvous) (cs : List ℕ) (i : ℕ) (before after : List ℕ) (n : Node)
      → s.acks ≡ before ++ i ∷ after
      → signalled n.trace (s.phase i) ≡ wake (s.phase i)
      → Inv count s cs
      → Inv count
          (record s {
            phase = update s.phase i (signalled n.trace (s.phase i));
            acks = before ++ after;
          })
          cs
  hears-Inv s cs i before after n is woken inv = record {
    master = inv.master;
    waiters = inv.waiters;
    is = inv.is;
    same = inv.same;
    gate = elim inv.gate [
      | inl shut ↦ absurd (not_empty before i after (sym is ∙ shut.none_released))
      | inr enough ↦ inr enough
    ];
    new =
        changed s.phase i (signalled n.trace (s.phase i)) (λ j p. p ≡ outside → NotIn j cs)
          (λ e. inv.new i (wake-outside (s.phase i) (sym woken ∙ e))) (λ j ne. inv.new j);
    distinct = inv.distinct;
  }

  Step-Inv :
      {s s' : Rendezvous} (cs : List ℕ) (st : Step env station slave_to_wait s s')
      → Inv count s cs
      → Inv count s' (caller st cs)
  Step-Inv {s} cs (calls i {n} out run) inv =
      calls-Inv s cs i n out
        (subst (IfOk λ (n' : Node). requests i n'.trace ≡ (i, sync_barrier count) ∷ []) run
          (wait_barrier-requests env works (station i) i slave_to_wait))
        inv
  Step-Inv {s} cs (sleeps i at) inv = sleeps-Inv s cs i at inv
  Step-Inv {s} cs (takes i k before after {n} is run) inv =
      takes-Inv s cs i k before after n is inv (
        subst (IfOk (Taken k i inv.waiters)) run
          (handle_sync_barrier_msg-Taken env works k i inv.waiters s.master inv.master inv.is))
  Step-Inv {s} cs (hears i before after {n} is run) inv =
      hears-Inv s cs i before after n is
        (subst (IfOk λ (n' : Node). signalled n'.trace (s.phase i) ≡ wake (s.phase i)) run
          (hears_signal env (station i) (s.phase i)))
        inv

  module _ (master : Node) (leads : master.is_master ≡ true)
      (empty_barrier : master.sync_barrier_waiters ≡ some empty) where
    Reach-Inv :
        {s : Rendezvous} (r : Reach env station slave_to_wait (start master) s)
        → Inv count s (callers r)
    Reach-Inv here = record {
      master = leads;
      waiters = [];
      is = empty_barrier;
      same = tt;
      gate = inl (record { none_released = refl; none_through = λ j e. cc; counted = refl });
      new = λ j e. tt;
      distinct = tt;
    }
    Reach-Inv (next r st) = Step-Inv (callers r) st (Reach-Inv r)

    -- However the programs and the listeners interleave, when a program has passed the barrier at least
    -- as many nodes have called sync_barrier as it waits for (cut to 16 bits), all different. (The
    -- master's list of waiters is empty at the start, every node calls sync_barrier once and for the
    -- same number, every socket works, and no thread wakes up without a signal.)
    pub through-callers :
        {s : Rendezvous} (r : Reach env station slave_to_wait (start master) s) (j : ℕ)
        → s.phase j ≡ through
        → (slave_to_wait % 2 ^ 16 ≤ length (callers r)) × Distinct (callers r)
    through-callers r j passed =
        let inv = Reach-Inv r in
        (
          elim inv.gate [ inl shut ↦ absurd (shut.none_through j passed) | inr enough ↦ enough ],
          inv.distinct,
        )
