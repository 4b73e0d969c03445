-- ===== src/Cluster/Nodes.antt =====
-- What holds of all nodes after a step of one.
use mathlib.Core.Path.{subst}
use psar_dsm.Prelude.{ℕ, ◌≡◌, refl, ◌⊎◌, inl, inr, true, false, ◌==◌, arith, Bool-cases}
use psar_dsm.Cluster.{update}

module _ {A : Type 0} (f : ℕ → A) (i : ℕ) (a : A) where
  pub update_cases :
      (j : ℕ)
      → (((j == i) ≡ true) × (update f i a j ≡ a)) ⊎ (((j == i) ≡ false) × (update f i a j ≡ f j))
  update_cases j = elim (Bool-cases (j == i)) [
    | inl e ↦ inl (e, rw e refl)
    | inr e ↦ inr (e, rw e refl)
  ]

  pub changed :
      (Q : ℕ → A → Type 0)
      → Q i a
      → ((j : ℕ) → (j == i) ≡ false → Q j (f j))
      → (j : ℕ) → Q j (update f i a j)
  changed Q mine others j = elim (update_cases j) [
    | inl (e, is) ↦ (let same : i ≡ j = ground arith in rw is (subst (λ k. Q k a) same mine))
    | inr (e, is) ↦ rw is (others j e)
  ]
