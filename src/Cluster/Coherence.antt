-- ===== src/Cluster/Coherence.antt =====
-- What every reachable state of the system keeps, whatever the order of its steps.
use psar_dsm.Prelude.{
  ℕ, ◌≡◌, ◌≢◌, refl, ap, inl, inr, true, false, List, [], ◌==◌, ◌≤◌, arith, Bool-cases,
}
use psar_dsm.Memory.{may_write, init_page}
use psar_dsm.Message.{Surroundings, up}
use psar_dsm.Node.{Node}
use psar_dsm.Cluster.{Cluster, Reach, here, next}
use psar_dsm.Cluster.Local.{bit}
use psar_dsm.Cluster.Invariant.{weight_at, Owned, Lent, Mode, owned, lent, stuck, Inv}
use psar_dsm.Cluster.Preserved.{Step-Kept}

module _ (env : Surroundings) (works : (fd : ℕ) → env.link fd ≡ up) (station : ℕ → Node) where
  pub Reach-Inv : {s t : Cluster} → Inv s → Reach env station s t → Inv t
  Reach-Inv inv here = inv
  Reach-Inv inv (next r st) = (Step-Kept env works station st (Reach-Inv inv r)).inv

-- Page `id` as dsm_memory_init leaves it on each node, with nothing under way.
abbrev pub start : (id : ℕ) → (zeros : List ℕ) → Cluster
start id zeros = record {
  node = λ i. init_page (i == 0) id zeros;
  up = λ i. [];
  down = λ i. [];
  serving = false;
}

module _ (id : ℕ) (zeros : List ℕ) where
  start-Inv : Inv (start id zeros)
  unfolding init_page
  start-Inv = record {
    sound = λ j. elim (Bool-cases (j == 0)) [
      | inl e ↦ rw e (record { mirrored = refl; gone = λ g. cc })
      | inr e ↦ rw e (record { mirrored = refl; gone = λ g. refl })
    ];
    mode =
        owned
          (record { none_listed = refl; owner = 0; alone = λ j ne. rw ne refl; once = omega arith })
          (λ j. (tt, tt));
  }

  module _ (env : Surroundings) (works : (fd : ℕ) → env.link fd ≡ up) (station : ℕ → Node) where
    pub Reach_start-Inv : {s : Cluster} → Reach env station (start id zeros) s → Inv s
    Reach_start-Inv r = Reach-Inv env works station start-Inv r

-- In a state with the invariant, a slave that may write is the only node with a right to the page.
module _ (s : Cluster) (inv : Inv s) (i : ℕ) (slave : i ≢ 0)
    (writes : may_write (s.node i).mapped ≡ true) where
  not_master : (i == 0) ≡ false
  not_master = ground arith

  has_page : 1 ≤ weight_at s i
  has_page =
      let present : (s.node i).uptodate ≡ true = ground (arith, (inv.sound i).gone) in
      omega (arith, ap bit present)

  not-Lent : Lent s → ⊥
  not-Lent l = ground (arith, (l.reading i not_master).0)

  is_owner : (o : Owned s) → o.owner ≡ i
  is_owner o = elim (Bool-cases (i == o.owner)) [
    | inl e ↦ ground arith
    | inr e ↦ absurd (omega (arith, has_page, o.alone i e))
  ]

  others_without : Mode s → (j : ℕ) → j ≢ i → (s.node j).mapped ≡ 0
  others_without (owned o c) j other =
      let no_owner : (j == o.owner) ≡ false = rw (is_owner o) (ground arith) in
      let none : weight_at s j ≡ 0 = o.alone j no_owner in
      let absent : (s.node j).uptodate ≡ false = ground arith in (inv.sound j).gone absent
  others_without (lent l c) j other = absurd (not-Lent l)
  others_without (stuck l b w) j other = absurd (not-Lent l)

module _ (env : Surroundings) (works : (fd : ℕ) → env.link fd ≡ up) (station : ℕ → Node) where
  -- Where each step is done at once, while a slave has the right to write a page no other node, the
  -- master included, has any right to it. (The page starts as dsm_memory_init leaves it, and every
  -- socket works.)
  pub slave_writes_alone :
      (id : ℕ) (zeros : List ℕ) {s : Cluster}
      → Reach env station (start id zeros) s
      → (i : ℕ) → i ≢ 0
      → may_write (s.node i).mapped ≡ true
      → (j : ℕ) → j ≢ i
      → (s.node j).mapped ≡ 0
  slave_writes_alone id zeros {s} r i slave writes =
      let inv = Reach_start-Inv id zeros env works station r in
      others_without s inv i slave writes inv.mode
