-- ===== src/Cluster/Agreement.antt =====
-- Every step but a program's store leaves all copies of the page with the bytes that they had.
use mathlib.Core.Path.{subst}
use mathlib.Core.List.{nil≢cons}
use psar_dsm.Prelude.{
  ℕ, ◌≡◌, ◌≤◌, refl, sym, ap, ◌∙◌, inl, inr, Bool, true, false, List, [], ◌∷◌, ◌==◌, arith,
  Bool-cases,
}
use psar_dsm.Memory.{Request, Page, may_read, may_write}
use psar_dsm.Message.{Message, Event}
use psar_dsm.Node.Exclusive.{listed}
use psar_dsm.Cluster.{Cluster, local, takes, round, posted_to}
use psar_dsm.Cluster.Local.{bit, IsSound, readable_here}
use psar_dsm.Cluster.Contents.{AllCarry, AllCarry-append, pageless-AllCarry, Shows}
use psar_dsm.Cluster.Invariant.{weight_at, Owned, Lent, Mode, owned, lent, stuck, Inv}
use psar_dsm.Cluster.Turns.{given}

-- All copies, on the nodes and under way, hold `bs`.
abbrev pub Agrees : List ℕ → Cluster → Type 0
Agrees bs s = (j : ℕ) → Shows bs (s.node j) (s.up j) (s.down j)

module _ (bs : List ℕ) (s : Cluster) (all : Agrees bs s) where
  pub local-Agrees :
      (i : ℕ) (p : Page) (u d : List Message) (b : Bool)
      → Shows bs p u d
      → Agrees bs (local s i p u d b)
  local-Agrees i p u d b here j = elim (Bool-cases (j == i)) [
    | inl e ↦ rw e here
    | inr e ↦ rw e (all j)
  ]

  -- The master takes a message off the channel of node `i`.
  pub takes-Agrees :
      (i : ℕ) (p : Page) (m : Message) (rest : List Message)
      → s.up i ≡ m ∷ rest
      → (p.uptodate ≡ true → p.bytes ≡ bs)
      → Agrees bs (takes s i p rest)
  takes-Agrees i p m rest head here j = (at_node, (at_up, (all j).1.1))
    where
      at_node : ((takes s i p rest).node j).uptodate ≡ true → ((takes s i p rest).node j).bytes ≡ bs
      at_node = elim (Bool-cases (j == 0)) [ inl e ↦ rw e here | inr e ↦ rw e ((all j).0) ]

      at_up : AllCarry bs ((takes s i p rest).up j)
      at_up = elim (Bool-cases (j == i)) [
        | inl e ↦ rw e ((subst (AllCarry bs) head (all i).1.0).1)
        | inr e ↦ rw e ((all j).1.0)
      ]

  pub round-Agrees :
      (p : Page) (t : List Event) (b : Bool)
      → (p.uptodate ≡ true → p.bytes ≡ bs)
      → ((j : ℕ) → AllCarry bs (posted_to j t))
      → Agrees bs (round s p t b)
  round-Agrees p t b here carry j =
      (at_node, ((all j).1.0, AllCarry-append bs (s.down j) (posted_to j t) (all j).1.1 (carry j)))
    where
      at_node : ((round s p t b).node j).uptodate ≡ true → ((round s p t b).node j).bytes ≡ bs
      at_node = elim (Bool-cases (j == 0)) [ inl e ↦ rw e here | inr e ↦ rw e ((all j).0) ]

  pub given-AllCarry :
      (req : Request)
      → IsSound (s.node 0)
      → may_read (s.node 0).mapped ≡ true
      → (j : ℕ) → AllCarry bs (posted_to j (given (s.node 0) req))
  given-AllCarry req sound reads j = elim (Bool-cases (req.sockfd == j)) [
    | inl e ↦ rw e ((all 0).0 (readable_here (s.node 0) sound reads), tt)
    | inr e ↦ rw e tt
  ]

-- Who may store into the page has the only copy, if no reader is listed where it is the master.
module _ (s : Cluster) (inv : Inv s) (i : ℕ) (writes : may_write (s.node i).mapped ≡ true)
    (alone : i ≡ 0 → listed (s.node 0) ≡ []) where
  pub present : (s.node i).uptodate ≡ true
  present = ground (arith, (inv.sound i).gone)

  has_page : 1 ≤ weight_at s i
  has_page = omega (arith, ap bit present)

  not-Lent : Lent s → ⊥
  not-Lent l = elim (Bool-cases (i == 0)) [
    | inl e ↦ (let at_master : i ≡ 0 = ground arith in nil≢cons (sym (alone at_master) ∙ l.readers))
    | inr e ↦ ground (arith, (l.reading i e).0)
  ]

  is_owner : (o : Owned s) → o.owner ≡ i
  is_owner o = elim (Bool-cases (i == o.owner)) [
    | inl e ↦ ground arith
    | inr e ↦ absurd (omega (arith, has_page, o.alone i e))
  ]

  only_copy : Owned s → (weight_at s i ≡ 1) × ((j : ℕ) → (j == i) ≡ false → weight_at s j ≡ 0)
  only_copy o =
      let same = is_owner o in
      (
        omega (arith, has_page, subst (λ k. weight_at s k ≤ 1) same o.once),
        subst (λ k. (j : ℕ) → (j == k) ≡ false → weight_at s j ≡ 0) same o.alone,
      )

  only : Mode s → (weight_at s i ≡ 1) × ((j : ℕ) → (j == i) ≡ false → weight_at s j ≡ 0)
  only (owned o c) = only_copy o
  only (lent l c) = absurd (not-Lent l)
  only (stuck l b w) = absurd (not-Lent l)

  absent : (j : ℕ) → weight_at s j ≡ 0 → (s.node j).uptodate ≡ false
  absent j none = ground arith

  pub store-Agrees :
      (bytes : List ℕ)
      → Agrees bytes (local s i (record (s.node i) { bytes = bytes }) (s.up i) (s.down i) s.serving)
  store-Agrees bytes j = elim (Bool-cases (j == i)) [
    | inl e ↦ rw e (
      λ _. refl,
      (
        pageless-AllCarry bytes (s.up i) (omega (arith, has_bit, (only inv.mode).0)),
        pageless-AllCarry bytes (s.down i) (omega (arith, has_bit, (only inv.mode).0)),
      ),
    )
    | inr e ↦
        let none = (only inv.mode).1 j e in
        rw (e, absent j none)
          (
            λ here. cc,
            (
              pageless-AllCarry bytes (s.up j) (omega (arith, none)),
              pageless-AllCarry bytes (s.down j) (omega (arith, none)),
            ),
          )
  ]
    where
      has_bit : bit (s.node i).uptodate ≡ 1
      has_bit = ap bit present
