-- ===== src/LinkedList/Dangling.antt =====
-- After list_remove took out the last of several nodes, `tail` points at freed memory.
use mathlib.Core.Path.{subst}
use psar_dsm.Prelude.{
  ℕ, ◌+◌, ◌<◌, ◌≡◌, refl, sym, ap, ◌∙◌, ◌≢◌, inl, inr, Bool, true, false, none, some, List, [], ◌∷◌,
  arith, ◌==◌, if◌then◌else◌, length, ok, fault, Ends, Bool-cases,
}
use psar_dsm.LinkedList.{node, Heap, write, load, Handle, list_add, list_remove}
use psar_dsm.LinkedList.Chain.{last, has, Chain, contents, ne_of_has, has-cons_true}
use psar_dsm.LinkedList.Add.{IsList, HasTail, has-last}
use psar_dsm.LinkedList.Remove.{erase, Removed, list_remove-Removed}
use psar_dsm.LinkedList.Queue.{drops_end, drops_tail}

module _ {A : Type 0} where
  has-last-erase :
      (eq : A → A → Bool) (x : A) (h : Heap A) (a : ℕ) (v : A) (r : List (ℕ × A))
      → Chain h ((a, v) ∷ r)
      → drops_end eq x (contents ((a, v) ∷ r)) ≡ true
      → has (last a r) (erase eq x ((a, v) ∷ r)) ≡ false
  unfolding erase
  has-last-erase eq x h a v [] c d = rw d refl
  has-last-erase eq x h a v ((b, w) ∷ r) c d = elim (Bool-cases (eq v x)) [
    | inl hit ↦ absurd (ground arith)
    | inr miss ↦
        let apart = ne_of_has ((b, w) ∷ r) a (last b r) c.2 (has-last b w r) in
        let rest = has-last-erase eq x h b w r c.3 (ground arith) in
        rw miss (has-cons_true (last b r) a v _ (λ e. apart (sym e)) rest)
  ]

  -- The tail of a list that lost its last node is not among the cells that are left.
  tail-erase :
      (eq : A → A → Bool) (x : A) (h : Heap A) (l : Handle A) (xs : List (ℕ × A))
      → Chain h xs
      → HasTail l xs
      → drops_tail eq x (contents xs) ≡ true
      → (has l.tail xs ≡ true) × (has l.tail (erase eq x xs) ≡ false) × (0 < length (erase eq x xs))
  unfolding erase
  tail-erase eq x h l [] c t d = absurd (ground arith)
  tail-erase eq x h l ((a, v) ∷ []) c t d = absurd (ground arith)
  tail-erase eq x h l ((a, v) ∷ (b, w) ∷ r) c t d = (
    subst (λ q. has q ((a, v) ∷ (b, w) ∷ r) ≡ true) (sym t) (has-last a v ((b, w) ∷ r)),
    subst (λ q. has q (erase eq x ((a, v) ∷ (b, w) ∷ r)) ≡ false) (sym t)
        (has-last-erase eq x h a v ((b, w) ∷ r) c d),
    left,
  )
    where
      left : 0 < length (erase eq x ((a, v) ∷ (b, w) ∷ r))
      left = ground arith

  list_add_dangling :
      (h : Heap A) (l : Handle A) (f : ℕ) (y : A)
      → l.count ≢ 0
      → f ≢ 0
      → h l.tail ≡ none
      → list_add f l y h ≡ (
          if f == l.tail
          then ok (
            record l { tail = f; count = l.count + 1 },
            write (write h f (some (node y 0))) f (some (node y f)),
          )
          else fault)
  unfolding list_add load write
  list_add_dangling h l f y more ne gone = ground arith

  -- After list_remove has taken out the last of several nodes, list_add never puts its element
  -- into the list: the write through `tail` goes to freed memory, which is undefined, unless malloc
  -- hands that very node out again; then the node is linked to itself, and nothing else changes.
  pub list_add-list_remove :
      (x : A) (h : Heap A) (l : Handle A) (xs : List (ℕ × A)) (r : Handle A × Heap A)
      → IsList h l xs
      → HasTail l xs
      → drops_tail l.equals_fn x (contents xs) ≡ true
      → list_remove l x h ≡ ok r
      → (f : ℕ) (y : A) → f ≢ 0
      → list_add f r.0 y r.1 ≡ (
          if f == r.0.tail
          then ok (
            record r.0 { tail = f; count = r.0.count + 1 },
            write (write r.1 f (some (node y 0))) f (some (node y f)),
          )
          else fault)
  list_add-list_remove x h l xs r is t d run f y ne =
      let o =
        subst (Ends (Removed h l xs (erase l.equals_fn x xs))) run
          (list_remove-Removed x h l xs is) in
      let (inside, out, left) = tail-erase l.equals_fn x h l xs is.chain t d in
      list_add_dangling r.1 r.0 f y (omega (arith, o.is_list.counts)) ne
        (ap r.1 o.tail ∙ o.freed l.tail inside out)
