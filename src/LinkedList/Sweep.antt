-- ===== src/LinkedList/Sweep.antt =====
-- list_contains and list_destroy, which walk the whole list.
use mathlib.Core.Path.{subst}
use mathlib.Core.Bool.{false≢true}
use psar_dsm.Prelude.{
  ℕ, zero, suc, ◌+◌, ◌-◌, ◌<◌, ◌≡◌, refl, sym, ap, ◌∙◌, inl, inr, Bool, true, false, ◌||◌, none,
  List, [], ◌∷◌, arith, ◌==◌, length, ok, Ends, Ends-mono, Bool-cases,
}
use psar_dsm.LinkedList.{
  node, Heap, write, load, Handle, contains_loop, list_contains, destroy_loop, list_destroy,
}
use psar_dsm.LinkedList.Chain.{
  first, has, Chain, Chain-write, contents, load-ok, write_self, write-ne, first-ne_zero,
  has-cons_false,
}
use psar_dsm.LinkedList.Add.{IsList}
use psar_dsm.LinkedList.Remove.{only}

module _ {A : Type 0} where
  -- Whether some content is equal to `x` by `eq`.
  pub accepts : (A → A → Bool) → A → List A → Bool
  accepts eq x [] = false
  accepts eq x (v ∷ r) = eq v x || accepts eq x r

  contains_loop-accepts :
      (k : ℕ) (eq : A → A → Bool) (x : A) (h : Heap A) (xs : List (ℕ × A))
      → Chain h xs
      → length xs < k
      → contains_loop k eq (first xs) x h ≡ ok (accepts eq x (contents xs))
  unfolding contains_loop accepts
  contains_loop-accepts zero eq x h xs c fuel = absurd (omega arith)
  contains_loop-accepts (suc k) eq x h [] c fuel = refl
  contains_loop-accepts (suc k) eq x h ((a, v) ∷ r) c fuel =
      let given : (a == 0) ≡ false = first-ne_zero h a v r c in
      let read = load-ok h a (first r) v c.0 c.1 in
      elim (Bool-cases (eq v x)) [
        | inl hit ↦ rw (given, read, hit) refl
        | inr miss ↦ rw (given, read, miss) (contains_loop-accepts k eq x h r c.3 (omega arith))
      ]

  -- list_contains returns, without a fault and within its fuel, whether some content is equal.
  pub list_contains-accepts :
      (x : A) (h : Heap A) (l : Handle A) (xs : List (ℕ × A))
      → IsList h l xs
      → list_contains l x h ≡ ok (accepts l.equals_fn x (contents xs))
  unfolding list_contains
  list_contains-accepts x h l xs is =
      subst
        (λ q.
          contains_loop (l.count + 1) l.equals_fn q x h ≡ ok (accepts l.equals_fn x (contents xs)))
        (sym is.starts)
        (contains_loop-accepts (l.count + 1) l.equals_fn x h xs is.chain (omega (arith, is.counts)))

  -- What list_destroy promises: an empty handle, every node freed, nothing else written.
  pub record Destroyed (h : Heap A) (l : Handle A) (xs : List (ℕ × A)) (r : Handle A × Heap A)
      : Type 0 where
    pub is_list : IsList r.1 r.0 []
    pub tail : r.0.tail ≡ 0
    pub same_fn : r.0.equals_fn ≡ l.equals_fn
    pub freed : (q : ℕ) → has q xs ≡ true → r.1 q ≡ none
    pub same : (q : ℕ) → has q xs ≡ false → r.1 q ≡ h q

  destroy_loop-Destroyed :
      (k : ℕ) (h : Heap A) (l : Handle A) (xs : List (ℕ × A))
      → IsList h l xs
      → length xs < k
      → Ends (Destroyed h l xs) (destroy_loop k l h)
  unfolding destroy_loop
  destroy_loop-Destroyed zero h l xs is fuel = absurd (omega arith)
  destroy_loop-Destroyed (suc k) h l [] is fuel =
      let over : (l.head == 0) ≡ true = ground (arith, is.starts) in
      rw over (record {
        is_list = record { chain = tt; starts = is.starts; counts = is.counts };
        tail = refl;
        same_fn = refl;
        freed = λ q ins. absurd (false≢true ins);
        same = λ q out. refl;
      })
  destroy_loop-Destroyed (suc k) h l ((a, v) ∷ r) is fuel =
      let given : (l.head == 0) ≡ false = ground (arith, is.starts, is.chain.0) in
      let read : load h l.head ≡ ok (node v (first r)) =
        subst (λ q. load h q ≡ ok (node v (first r))) (sym is.starts)
          (load-ok h a (first r) v is.chain.0 is.chain.1) in
      let l' : Handle A = record l { head = first r; count = l.count - 1 } in
      let g = write h l.head none in
      let at : g ≡ write h a none = ap (λ q. write h q none) is.starts in
      let left : IsList g l' r = record {
        chain = rw at (Chain-write h r a none is.chain.2 is.chain.3);
        starts = refl;
        counts = omega (arith, is.counts);
      } in
      rw (given, read)
        (Ends-mono (Destroyed g l' r) (Destroyed h l ((a, v) ∷ r)) (destroy_loop k l' g)
          (λ o d. record {
            is_list = d.is_list;
            tail = d.tail;
            same_fn = d.same_fn;
            freed = λ q ins. elim (Bool-cases (has q r)) [
              | inl later ↦ d.freed q later
              | inr gone ↦ d.same q gone ∙ rw (at, only q a v r ins gone) (write_self h a none)
            ];
            same = λ q out.
                let (q_a, rest) = has-cons_false q a v r out in
                d.same q rest ∙ rw at (write-ne h a q none q_a);
          })
          (destroy_loop-Destroyed k g l' r left (omega arith)))

  -- list_destroy returns without a fault and within its fuel: every node is freed, no other
  -- address is written, and the handle is that of the empty list, its tail NULL.
  pub list_destroy-Destroyed :
      (h : Heap A) (l : Handle A) (xs : List (ℕ × A))
      → IsList h l xs
      → Ends (Destroyed h l xs) (list_destroy l h)
  unfolding list_destroy
  list_destroy-Destroyed h l xs is =
      destroy_loop-Destroyed (l.count + 1) h l xs is (omega (arith, is.counts))
