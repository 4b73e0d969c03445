-- ===== src/Cluster/Invariant.antt =====
-- Where the right to write is: with one owner, or nowhere but on the master.
use mathlib.Core.Path.{subst}
use psar_dsm.Prelude.{
  ℕ, ◌≤◌, ◌≡◌, refl, ◌∙◌, inl, inr, Bool, true, false, some, List, [], ◌∷◌, ◌==◌, arith, Bool-cases,
}
use psar_dsm.Memory.{Request, Directory, Page, prot_read, may_write}
use psar_dsm.Message.{Message}
use psar_dsm.Node.Exclusive.{listed}
use psar_dsm.Cluster.{Cluster, local}
use psar_dsm.Cluster.Local.{weight, Reads, Clean, IsSound, Tame}

abbrev pub weight_at : Cluster → ℕ → ℕ
weight_at s j = weight (s.node j) (s.up j) (s.down j)

abbrev pub AllClean : Cluster → Type 0
AllClean s = (j : ℕ) → Clean (s.up j) (s.down j)

-- No reader is listed, and there is at most one copy of the page, with `owner` or between it and
-- the master.
pub record Owned (s : Cluster) : Type 0 where
  pub none_listed : listed (s.node 0) ≡ []
  pub owner : ℕ
  pub alone : (j : ℕ) → (j == owner) ≡ false → weight_at s j ≡ 0
  pub once : weight_at s owner ≤ 1

-- Some reader is listed, and no slave has the right to write or will get it.
pub record Lent (s : Cluster) : Type 0 where
  pub first : ℕ
  pub others : List ℕ
  pub readers : listed (s.node 0) ≡ first ∷ others
  pub reading : (j : ℕ) → (j == 0) ≡ false → Reads (s.node j) (s.up j) (s.down j)

-- A round of the loop that stands at a writer.
abbrev pub AtWriter : Cluster → Type 0
AtWriter s =
    (d : Directory) × (req : Request) × (rest : List Request) × ((s.node 0).directory ≡ some d)
    × (d.requests_queue.items ≡ req ∷ rest)
    × ((req.rights == prot_read) ≡ false)
    × (may_write req.rights ≡ true)

-- `stuck`: the master's listener stands at a writer while readers are listed, and stays there.
pub data Mode (s : Cluster) : Type 0 where
  owned : Owned s → AllClean s → Mode s
  lent : Lent s → AllClean s → Mode s
  stuck : Lent s → s.serving ≡ true → AtWriter s → Mode s

pub record Inv (s : Cluster) : Type 0 where
  pub sound : (j : ℕ) → IsSound (s.node j)
  pub mode : Mode s

-- Some reader is listed at the master.
abbrev pub HasReader : Cluster → Type 0
HasReader s = (fd : ℕ) × (fds : List ℕ) × (listed (s.node 0) ≡ fd ∷ fds)

-- The master's listener is in its loop and stands at a writer.
abbrev pub IsStuck : Cluster → Type 0
IsStuck s = (s.serving ≡ true) × AtWriter s

-- What a step keeps: the invariant, that some reader is listed, and then that the loop stands at a
-- writer.
pub record Kept (s s' : Cluster) : Type 0 where
  pub inv : Inv s'
  pub readers : HasReader s → HasReader s'
  pub stays : HasReader s → IsStuck s → IsStuck s'

-- A step that makes no node heavier, or gives none the right to write, and keeps the readers.
module _ (s s' : Cluster) (same : listed (s'.node 0) ≡ listed (s.node 0)) where
  pub keep-Owned : ((j : ℕ) → weight_at s' j ≤ weight_at s j) → Owned s → Owned s'
  keep-Owned lighter o = record {
    none_listed = same ∙ o.none_listed;
    owner = o.owner;
    alone = λ j ne. omega (arith, lighter j, o.alone j ne);
    once = omega (arith, lighter o.owner, o.once);
  }

  pub keep-Lent :
      ((j : ℕ)
        → (j == 0) ≡ false
        → Reads (s.node j) (s.up j) (s.down j)
        → Reads (s'.node j) (s'.up j) (s'.down j))
      → Lent s
      → Lent s'
  keep-Lent reads l = record {
    first = l.first;
    others = l.others;
    readers = same ∙ l.readers;
    reading = λ j ne. reads j ne (l.reading j ne);
  }

module _ (s : Cluster) (i : ℕ) (p : Page) (u d : List Message) (b : Bool)
    (tame : Tame (s.node i) (s.up i) (s.down i) p u d) where
  abbrev after : Cluster
  after = local s i p u d b

  -- What holds between the old and the new state of node `i`, and of each other node with itself.
  each :
      (Q : Page → List Message → List Message → Page → List Message → List Message → Type 0)
      → Q (s.node i) (s.up i) (s.down i) p u d
      → ((j : ℕ) → Q (s.node j) (s.up j) (s.down j) (s.node j) (s.up j) (s.down j))
      → (j : ℕ) → Q (s.node j) (s.up j) (s.down j) (after.node j) (after.up j) (after.down j)
  each Q here others j = elim (Bool-cases (j == i)) [
    | inl e ↦
        let same : i ≡ j = ground arith in
        rw e (subst (λ k. Q (s.node k) (s.up k) (s.down k) p u d) same here)
    | inr e ↦ rw e (others j)
  ]

  lighter_at : (j : ℕ) → weight_at after j ≤ weight_at s j
  lighter_at =
      each (λ q v e q' v' e'. weight q' v' e' ≤ weight q v e) tame.lighter (λ j. omega arith)

  Reads-at :
      (j : ℕ)
      → Reads (s.node j) (s.up j) (s.down j)
      → Reads (after.node j) (after.up j) (after.down j)
  Reads-at = each (λ q v e q' v' e'. Reads q v e → Reads q' v' e') tame.reads (λ j h. h)

  Clean-at : (j : ℕ) → Clean (s.up j) (s.down j) → Clean (after.up j) (after.down j)
  Clean-at = each (λ q v e q' v' e'. Clean v e → Clean v' e') tame.clean (λ j h. h)

  directory_at : (after.node 0).directory ≡ (s.node 0).directory
  directory_at = each (λ q v e q' v' e'. q'.directory ≡ q.directory) tame.directory (λ j. refl) 0

  listed_at : listed (after.node 0) ≡ listed (s.node 0)
  listed_at = rw (listed, directory_at) refl

  Lent-at : Lent s → Lent after
  Lent-at = keep-Lent s after listed_at (λ j ne. Reads-at j)

  mode_at : (s.serving ≡ true → b ≡ true) → Mode s → Mode after
  mode_at goes_on (owned o c) =
      owned (keep-Owned s after listed_at lighter_at o) (λ j. Clean-at j (c j))
  mode_at goes_on (lent l c) = lent (Lent-at l) (λ j. Clean-at j (c j))
  mode_at goes_on (stuck l serving (d, req, rest, is, items, other, write)) =
      stuck (Lent-at l) (goes_on serving) (d, req, rest, directory_at ∙ is, items, other, write)

  -- A tame step of one node keeps the invariant, if it does not stop the master's loop.
  local-Inv : (s.serving ≡ true → b ≡ true) → Inv s → Inv after
  local-Inv goes_on inv = record {
    sound = each (λ q v e q' v' e'. IsSound q') tame.sound inv.sound;
    mode = mode_at goes_on inv.mode;
  }

  pub local-Kept : (s.serving ≡ true → b ≡ true) → Inv s → Kept s after
  local-Kept goes_on inv = record {
    inv = local-Inv goes_on inv;
    readers = λ r. (r.0, r.1, listed_at ∙ r.2);
    stays = λ r w. (goes_on w.0, (w.1.0, w.1.1, w.1.2, directory_at ∙ w.1.3, w.1.4, w.1.5, w.1.6));
  }
