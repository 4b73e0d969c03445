-- ===== src/LinkedList/Chain.antt =====
-- What the nodes of a list_t stand for: the chain of cells (address, content) from its head.
use psar_dsm.Prelude.{
  ℕ, ◌≡◌, refl, ◌∙◌, ◌≢◌, Bool, true, false, ◌||◌, Option, none, some, List, [], ◌∷◌, map, arith,
  ◌==◌, ok,
}
use psar_dsm.LinkedList.{Node, node, Heap, write, load}

module _ {A : Type 0} where
  -- The address of the first cell, NULL if there is none.
  abbrev pub first : List (ℕ × A) → ℕ
  first [] = 0
  first ((a, _) ∷ _) = a

  -- The address of the last cell, `d` if there is none.
  abbrev pub last : ℕ → List (ℕ × A) → ℕ
  last d [] = d
  last d ((a, _) ∷ r) = last a r

  -- Whether a cell stands at `p`.
  abbrev pub has : ℕ → List (ℕ × A) → Bool
  has p [] = false
  has p ((a, _) ∷ r) = (p == a) || has p r

  abbrev pub contents : List (ℕ × A) → List A
  contents = map λ c. c.1

  -- The cells stand in the heap at distinct addresses, each linked to the next, the last to NULL.
  abbrev pub Chain : Heap A → List (ℕ × A) → Type 0
  Chain h [] = Unit {0}
  Chain h ((a, x) ∷ r) = (a ≢ 0) × (h a ≡ some (node x (first r))) × (has a r ≡ false) × Chain h r

  pub Chain-frame :
      (h g : Heap A) (xs : List (ℕ × A))
      → ((p : ℕ) → has p xs ≡ true → g p ≡ h p)
      → Chain h xs
      → Chain g xs
  Chain-frame h g [] same c = tt
  Chain-frame h g ((a, x) ∷ r) same c = (
    c.0,
    same a (ground arith) ∙ c.1,
    c.2,
    Chain-frame h g r (λ p i. same p (ground (arith, i))) c.3,
  )

  pub Chain-write :
      (h : Heap A) (xs : List (ℕ × A)) (a : ℕ) (c : Option (Node A))
      → has a xs ≡ false
      → Chain h xs
      → Chain (write h a c) xs
  unfolding write
  Chain-write h xs a c out s = Chain-frame h _ xs (λ p i. grind arith) s

  pub write_self : (h : Heap A) (p : ℕ) (c : Option (Node A)) → write h p c p ≡ c
  unfolding write
  write_self h p c = ground arith

  pub write-ne : (h : Heap A) (p a : ℕ) (c : Option (Node A)) → a ≢ p → write h p c a ≡ h a
  unfolding write
  write-ne h p a c ne = ground arith

  pub has-cons_false :
      (p a : ℕ) (x : A) (r : List (ℕ × A))
      → has p ((a, x) ∷ r) ≡ false
      → (p ≢ a) × (has p r ≡ false)
  has-cons_false p a x r q = ground arith

  pub has-cons_true :
      (q b : ℕ) (u : A) (r : List (ℕ × A)) → q ≢ b → has q r ≡ false → has q ((b, u) ∷ r) ≡ false
  has-cons_true q b u r ne out = ground arith

  -- An address among the cells is none that is not among them.
  pub ne_of_has : (xs : List (ℕ × A)) (a b : ℕ) → has a xs ≡ false → has b xs ≡ true → a ≢ b
  ne_of_has xs a b out is e = cc

  -- An address that holds no node is no cell's.
  pub has-of_none :
      (h : Heap A) (xs : List (ℕ × A)) (a : ℕ) → h a ≡ none → Chain h xs → has a xs ≡ false
  has-of_none h [] a e c = refl
  has-of_none h ((b, x) ∷ r) a e c = ground (arith, has-of_none h r a e c.3)

  pub load-ok :
      (h : Heap A) (a q : ℕ) (x : A) → a ≢ 0 → h a ≡ some (node x q) → load h a ≡ ok (node x q)
  unfolding load
  load-ok h a q x ne e = ground arith

  pub first-ne_zero :
      (h : Heap A) (a : ℕ) (x : A) (r : List (ℕ × A)) → Chain h ((a, x) ∷ r) → (a == 0) ≡ false
  first-ne_zero h a x r c = ground (arith, c.0)
