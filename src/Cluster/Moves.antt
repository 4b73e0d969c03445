-- ===== src/Cluster/Moves.antt =====
-- The steps that reach from one node to another: the master takes a message, and a round of its loop.
use mathlib.Core.Path.{subst}
use psar_dsm.Prelude.{
  ℕ, ◌+◌, ◌≤◌, ◌≡◌, refl, ap, ◌∙◌, inl, inr, true, false, List, ◌∷◌, ◌==◌, if◌then◌else◌, arith,
  Bool-cases,
}
use psar_dsm.Memory.{Page}
use psar_dsm.Message.{Message}
use psar_dsm.Node.Exclusive.{listed}
use psar_dsm.Cluster.{Cluster, takes}
use psar_dsm.Cluster.Channel.{pages, gives, OnlyReads, IsClean}
use psar_dsm.Cluster.Local.{Clean, IsSound, bit}
use psar_dsm.Cluster.Invariant.{
  weight_at, Owned, Lent, Mode, owned, lent, stuck, Inv, Kept, keep-Owned, keep-Lent,
}

-- The master takes message `m` of node `i`.
module _ (s : Cluster) (i : ℕ) (p : Page) (m : Message) (rest : List Message)
    (head : s.up i ≡ m ∷ rest) (idle : s.serving ≡ false) (sound : IsSound p)
    (same : listed p ≡ listed (s.node 0)) where
  abbrev after : Cluster
  after = takes s i p rest

  IsSound-at : Inv s → (j : ℕ) → IsSound (after.node j)
  IsSound-at inv j = elim (Bool-cases (j == 0)) [ inl e ↦ rw e sound | inr e ↦ rw e (inv.sound j) ]

  head_at : (j : ℕ) → (j == i) ≡ true → s.up j ≡ m ∷ rest
  head_at j e = let same : i ≡ j = ground arith in subst (λ k. s.up k ≡ m ∷ rest) same head

  -- What a node has lost by the message that was taken.
  taken : ℕ → ℕ
  taken j = if j == i then gives m else 0

  up_at : (j : ℕ) → pages (after.up j) + taken j ≡ pages (s.up j)
  unfolding taken
  up_at j = elim (Bool-cases (j == i)) [
    | inl e ↦ rw (e, head_at j e) (omega arith)
    | inr e ↦ rw e (omega arith)
  ]

  listed_at : listed (after.node 0) ≡ listed (s.node 0)
  listed_at = same

  reads_tail : (j : ℕ) → OnlyReads (s.up j) → OnlyReads (after.up j)
  reads_tail j h = elim (Bool-cases (j == i)) [
    | inl e ↦ rw e (subst OnlyReads (head_at j e) h).1
    | inr e ↦ rw e h
  ]

  Clean-tail : (j : ℕ) → Clean (s.up j) (s.down j) → Clean (after.up j) (after.down j)
  Clean-tail j h = elim (Bool-cases (j == i)) [
    | inl e ↦ rw e ((subst IsClean (head_at j e) h.0).1, h.1)
    | inr e ↦ rw e h
  ]

  Lent-at : Lent s → Lent after
  Lent-at = keep-Lent s after listed_at λ j ne h. rw ne (h.0, reads_tail j h.1, h.2)

  kept : Inv after → Kept s after
  kept inv = record {
    inv = inv;
    readers = λ r. (r.0, r.1, same ∙ r.2);
    stays = λ r w. absurd (ground (arith, w.0));
  }

  -- A message without a page, to a page that stays as up to date as it is.
  module _ (no_page : gives m ≡ 0) (rights : p.uptodate ≡ (s.node 0).uptodate) where
    lighter_at : (j : ℕ) → weight_at after j ≤ weight_at s j
    lighter_at j = elim (Bool-cases (j == 0)) [
      | inl e ↦
          let zero : j ≡ 0 = ground arith in
          let now : bit p.uptodate ≡ bit (s.node j).uptodate = rw (zero, rights) refl in
          rw e (omega (arith, up_at j, now))
      | inr e ↦ rw e (omega (arith, up_at j))
    ]

    quiet_mode : Mode s → Mode after
    quiet_mode (owned o c) =
        owned (keep-Owned s after listed_at lighter_at o) (λ j. Clean-tail j (c j))
    quiet_mode (lent l c) = lent (Lent-at l) (λ j. Clean-tail j (c j))
    quiet_mode (stuck l serving w) = absurd (ground arith)

    pub takes_quiet-Kept : Inv s → Kept s after
    takes_quiet-Kept inv = kept (record { sound = IsSound-at inv; mode = quiet_mode inv.mode })

  -- A page.
  module _ (a_page : gives m ≡ 1) (arrives : p.uptodate ≡ true) where
    weigh : (j : ℕ) → (j == 0) ≡ false → weight_at after j + taken j ≡ weight_at s j
    weigh j ne = rw ne (omega (arith, up_at j))

    weigh_master : weight_at after 0 + taken 0 ≡ pages (s.up 0) + pages (s.down 0) + 1
    weigh_master = omega (arith, up_at 0, ap bit arrives)

    heavy : 1 ≤ weight_at s i
    heavy = rw head (omega arith)

    -- The page was the only copy.
    giver : (o : Owned s) → o.owner ≡ i
    giver o = elim (Bool-cases (i == o.owner)) [
      | inl e ↦ ground arith
      | inr e ↦ absurd (omega (arith, heavy, o.alone i e))
    ]

    at_self : (j : ℕ) → (j == i) ≡ true → weight_at s j ≡ weight_at s i
    at_self j e =
        let equal : i ≡ j = ground arith in subst (λ k. weight_at s k ≡ weight_at s i) equal refl

    lighter_self : (i == 0) ≡ true → (j : ℕ) → weight_at after j ≤ weight_at s j
    unfolding taken
    lighter_self self j = elim (Bool-cases (j == 0)) [
      | inl e ↦
          let zero : 0 ≡ j = ground arith in
          let one : taken 0 ≡ 1 = ground arith in
          subst (λ k. weight_at after k ≤ weight_at s k) zero (omega (arith, weigh_master, one))
      | inr e ↦ omega (arith, weigh j e)
    ]

    alone_now : (o : Owned s) → (j : ℕ) → (j == 0) ≡ false → weight_at after j ≡ 0
    unfolding taken
    alone_now o j ne = elim (Bool-cases (j == i)) [
      | inl e ↦
          let one : taken j ≡ 1 = ground arith in
          let most : weight_at s i ≤ 1 = subst (λ k. weight_at s k ≤ 1) (giver o) o.once in
          omega (arith, weigh j ne, at_self j e, one, most)
      | inr e ↦
          let none : taken j ≡ 0 = ground arith in
          let no_owner : (j == o.owner) ≡ false = rw (giver o) e in
          omega (arith, weigh j ne, none, o.alone j no_owner)
    ]

    once_now : Owned s → (i == 0) ≡ false → weight_at after 0 ≤ 1
    once_now o slave =
        let no_owner : (0 == o.owner) ≡ false = rw (giver o) (ground arith) in
        omega (arith, weigh_master, o.alone 0 no_owner)

    Owned-from : Owned s → Owned after
    Owned-from o = elim (Bool-cases (i == 0)) [
      | inl self ↦ keep-Owned s after listed_at (lighter_self self) o
      | inr slave ↦ record {
        none_listed = same ∙ o.none_listed;
        owner = 0;
        alone = alone_now o;
        once = once_now o slave;
      }
    ]

    page_mode : Mode s → Mode after
    page_mode (owned o c) = owned (Owned-from o) (λ j. Clean-tail j (c j))
    page_mode (lent l c) = lent (Lent-at l) (λ j. Clean-tail j (c j))
    page_mode (stuck l serving w) = absurd (ground arith)

    pub takes_page-Kept : Inv s → Kept s after
    takes_page-Kept inv = kept (record { sound = IsSound-at inv; mode = page_mode inv.mode })
