-- ===== src/Rendezvous/Tally.antt =====
-- Where the calls of a barrier are, counted.
use mathlib.Core.Path.{subst}
use mathlib.Core.List.{append-nil}
use psar_dsm.Prelude.{
  ℕ, ◌+◌, ◌≤◌, ◌<◌, ◌%◌, ◌^◌, ◌≡◌, ◌≢◌, refl, sym, ap, ◌∙◌, ◌⊎◌, Bool, true, false, some, List, [],
  ◌∷◌, ◌++◌, ◌==◌, arith, length, length-append, if◌then◌else◌, inl, inr,
}
use psar_dsm.Message.{Message, sync_barrier, Surroundings, up}
use psar_dsm.Core.Queues.{queue}
use psar_dsm.Node.{Node}
use psar_dsm.Cluster.{update}
use psar_dsm.Cluster.Nodes.{changed}
use psar_dsm.Rendezvous.{
  Phase, outside, called, asleep, through, Rendezvous, requests, sockets, released, signalled, wake,
}
use psar_dsm.Rendezvous.Released.{count_if, count_if-append, sockets-append, Taken, waiting, opened}
use psar_dsm.Rendezvous.Safety.{AllFor, AllFor-append, AllFor-drop}

abbrev pub any : ℕ → Bool
any i = true

pub count_if-any : (xs : List ℕ) → count_if any xs ≡ length xs
count_if-any [] = refl
count_if-any (x ∷ xs) = omega (arith, count_if-any xs)

pub count_if-between :
    (f : ℕ → Bool) (xs : List ℕ) (i : ℕ) (ys : List ℕ)
    → count_if f (xs ++ i ∷ ys) ≡ count_if f (xs ++ ys) + count_if f (i ∷ [])
count_if-between f xs i ys = omega (arith, count_if-append f xs (i ∷ ys), count_if-append f xs ys)

pub empty_list : (xs : List ℕ) → length xs ≡ 0 → xs ≡ []
empty_list [] e = refl
empty_list (x ∷ xs) e = absurd (omega (arith, e))

-- Every call is behind the master, among its waiters, behind BARRIER_ACK or past it: `cs` have called
-- and `hs` have taken BARRIER_ACK.
pub record Tally (k : ℕ) (s : Rendezvous) (cs hs : List ℕ) : Type 0 where
  pub master : s.master.is_master ≡ true
  pub waiters : List ℕ
  pub is : s.master.sync_barrier_waiters ≡ some (queue waiters true)
  pub same : AllFor k s.pending
  pub few : length waiters < k
  pub each :
      (f : ℕ → Bool)
      → count_if f (sockets s.pending) + count_if f waiters + count_if f s.acks + count_if f hs
        ≡ count_if f cs
  pub begun : (length s.acks + length hs ≡ 0) ⊎ (k ≤ length s.acks + length hs)
  pub woken : (j : ℕ) → 1 ≤ count_if (λ i. i == j) hs → s.phase j ≡ through

module _ (env : Surroundings) (works : (fd : ℕ) → env.link fd ≡ up) (station : ℕ → Node)
    (slave_to_wait : ℕ) where
  abbrev pub count : ℕ
  count = slave_to_wait % 2 ^ 16

  -- A node that is not past the barrier takes a step to another phase.
  pub still_woken :
      (s : Rendezvous) (i : ℕ) (p : Phase) (hs : List ℕ)
      → s.phase i ≢ through
      → ((j : ℕ) → 1 ≤ count_if (λ x. x == j) hs → s.phase j ≡ through)
      → (j : ℕ) → 1 ≤ count_if (λ x. x == j) hs
      → update s.phase i p j ≡ through
  still_woken s i p hs not w =
      changed s.phase i p (λ j q. 1 ≤ count_if (λ x. x == j) hs → q ≡ through)
        (λ h. absurd (not (w i h))) (λ j ne. w j)

  pub calls-Tally :
      (s : Rendezvous) (cs hs : List ℕ) (i : ℕ) (n : Node)
      → s.phase i ≡ outside
      → requests i n.trace ≡ (i, sync_barrier count) ∷ []
      → Tally count s cs hs
      → Tally count
          (record s { phase = update s.phase i called; pending = s.pending ++ requests i n.trace })
          (i ∷ cs)
          hs
  calls-Tally s cs hs i n out sends t = rw sends (record {
    master = t.master;
    waiters = t.waiters;
    is = t.is;
    same = AllFor-append count s.pending ((i, sync_barrier count) ∷ []) t.same (refl, tt);
    few = t.few;
    each = λ f. omega (
      arith,
      t.each f,
      count_if-append f (sockets s.pending) (i ∷ []),
      ap (count_if f) (sockets-append s.pending ((i, sync_barrier count) ∷ [])),
    );
    begun = t.begun;
    woken = still_woken s i called hs (λ e. cc) t.woken;
  })

  pub takes-Tally :
      (s : Rendezvous) (cs hs : List ℕ) (i k : ℕ) (before after : List (ℕ × Message)) (n : Node)
      → s.pending ≡ before ++ (i, sync_barrier k) ∷ after
      → (t : Tally count s cs hs) → Taken k i t.waiters n
      → Tally count
          (record s { pending = before ++ after; master = n; acks = s.acks ++ released n.trace })
          cs
          hs
  takes-Tally s cs hs i k before after n is t taken =
      let (which, others) =
        AllFor-drop count i (sync_barrier k) before after (subst (AllFor count) is t.same) in
      let same : k ≡ count = cc in
      let left : (f : ℕ → Bool)
          → count_if f (sockets s.pending)
            ≡ count_if f (sockets (before ++ after)) + count_if f (i ∷ []) =
        λ f.
          ap (λ ms. count_if f (sockets ms)) is
          ∙ ap (count_if f) (sockets-append before ((i, sync_barrier k) ∷ after))
          ∙ count_if-between f (sockets before) i (sockets after)
          ∙ ap (λ xs. count_if f xs + count_if f (i ∷ [])) (sym (sockets-append before after)) in
      elim taken [
        | waiting early m q none ↦ record {
          master = m;
          waiters = t.waiters ++ i ∷ [];
          is = q;
          same = others;
          few = omega (arith, length-append t.waiters (i ∷ []), same);
          each = λ f. omega (
            arith,
            t.each f,
            left f,
            count_if-append f t.waiters (i ∷ []),
            count_if-append f s.acks (released n.trace),
            ap (count_if f) none,
          );
          begun = rw (none, append-nil s.acks) t.begun;
          woken = t.woken;
        }
        | opened enough m q spared counts ↦ record {
          master = m;
          waiters = [];
          is = q;
          same = others;
          few = omega (arith, t.few);
          each = λ f.
              omega
                (arith, t.each f, left f, counts f, count_if-append f s.acks (released n.trace));
          begun = inr (
              omega (
                arith,
                same,
                counts any,
                count_if-any t.waiters,
                count_if-any (released n.trace),
                length-append s.acks (released n.trace),
              ));
          woken = t.woken;
        }
      ]

  pub hears-Tally :
      (s : Rendezvous) (cs hs : List ℕ) (i : ℕ) (before after : List ℕ) (n : Node)
      → s.acks ≡ before ++ i ∷ after
      → signalled n.trace (s.phase i) ≡ wake (s.phase i)
      → s.phase i ≡ asleep
      → Tally count s cs hs
      → Tally count
          (record s {
            phase = update s.phase i (signalled n.trace (s.phase i));
            acks = before ++ after;
          })
          cs
          (i ∷ hs)
  hears-Tally s cs hs i before after n is signal sleeping t = record {
    master = t.master;
    waiters = t.waiters;
    is = t.is;
    same = t.same;
    few = t.few;
    each = λ f. omega (arith, t.each f, ap (count_if f) is, count_if-between f before i after);
    begun = elim t.begun [
      | inl none ↦ absurd (omega (arith, ap length is, length-append before (i ∷ after)))
      | inr enough ↦ inr (
          omega (arith, ap length is, length-append before (i ∷ after), length-append before after))
    ];
    woken =
        changed s.phase i (signalled n.trace (s.phase i))
          (λ j p. 1 ≤ count_if (λ x. x == j) (i ∷ hs) → p ≡ through)
          (λ h. signal ∙ ap wake sleeping)
          (λ j ne h.
            (let other : (i == j) ≡ false = ground arith in
              t.woken j (omega (arith, h, ap {B = ℕ} (λ b. if b then 1 else 0) other))));
  }
