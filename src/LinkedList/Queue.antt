-- ===== src/LinkedList/Queue.antt =====
-- What the users of list.c rely on: a sequence of contents, and whether the tail pointer still
-- leads to the last node. The operations of list.c refine those on this view.
use psar_dsm.Prelude.{
  ℕ, ◌≡◌, refl, sym, ap, ◌∙◌, ◌≢◌, inl, inr, Bool, true, false, none, List, [], ◌∷◌, ◌++◌, arith,
  if◌then◌else◌, length, Run, ok, fault, Ends, Ends-mono, Bool-cases,
}
use mathlib.Core.List.{map-append}
use psar_dsm.LinkedList.{Heap, Handle, list_init, list_add, list_remove}
use psar_dsm.LinkedList.Chain.{last, contents}
use psar_dsm.LinkedList.Add.{IsList, HasTail, Added, list_add-Added, list_init-IsList}
use psar_dsm.LinkedList.Remove.{erase, Removed, list_remove-Removed}

-- `tail_ok` is false after the last of several nodes was removed: list_remove leaves `tail` at it.
pub record Queue (A : Type 0) : Type 0 where
  pub items : List A
  pub tail_ok : Bool

module _ {A : Type 0} where
  abbrev pub empty : Queue A
  empty = record { items = []; tail_ok = true }

  abbrev pub size : Queue A → ℕ
  size q = length q.items

  -- An insertion behind a node that was freed is undefined.
  abbrev pub add_items : List A → Bool → A → Run (Queue A)
  add_items [] b x = ok (record { items = x ∷ []; tail_ok = true })
  add_items (y ∷ ys) false x = fault
  add_items (y ∷ ys) true x = ok (record { items = y ∷ ys ++ x ∷ []; tail_ok = true })

  abbrev pub add : Queue A → A → Run (Queue A)
  add q x = add_items q.items q.tail_ok x

  module _ (eq : A → A → Bool) (x : A) where
    abbrev pub remove_first : List A → List A
    remove_first [] = []
    remove_first (v ∷ r) = if eq v x then r else v ∷ remove_first r

    -- Whether the first match is the last item.
    abbrev pub drops_end : List A → Bool
    drops_end [] = false
    drops_end (v ∷ []) = eq v x
    drops_end (v ∷ w ∷ r) = if eq v x then false else drops_end (w ∷ r)

    -- Whether the first match is the last of several items.
    abbrev pub drops_tail : List A → Bool
    drops_tail [] = false
    drops_tail (v ∷ []) = false
    drops_tail (v ∷ w ∷ r) = drops_end (v ∷ w ∷ r)

    abbrev pub remove : Queue A → Queue A
    remove q = record {
      items = remove_first q.items;
      tail_ok = if drops_tail q.items then false else q.tail_ok;
    }

  -- The handle `l` stands for the view `q` in the heap `h`.
  pub record Represents (h : Heap A) (l : Handle A) (q : Queue A) : Type 0 where
    pub cells : List (ℕ × A)
    pub is_list : IsList h l cells
    pub holds : contents cells ≡ q.items
    pub has_tail : q.tail_ok ≡ true → HasTail l cells

  -- list_init makes the empty view.
  pub list_init-Represents : (h : Heap A) (eq : A → A → Bool) → Represents h (list_init eq) empty
  list_init-Represents h eq = record {
    cells = [];
    is_list = list_init-IsList h eq;
    holds = refl;
    has_tail = λ e. tt;
  }

  add_items-tail :
      (xs : List (ℕ × A)) (b : Bool) (q' : Queue A) (l : Handle A) (x : A)
      → (b ≡ true → HasTail l xs)
      → add_items (contents xs) b x ≡ ok q'
      → HasTail l xs × (contents xs ++ x ∷ [] ≡ q'.items)
  add_items-tail [] b q' l x t a = (tt, ground arith)
  add_items-tail ((p, v) ∷ r) false q' l x t a = absurd (ground arith)
  add_items-tail ((p, v) ∷ r) true q' l x t a = (t refl, ground arith)

  contents-erase :
      (eq : A → A → Bool) (x : A) (xs : List (ℕ × A))
      → contents (erase eq x xs) ≡ remove_first eq x (contents xs)
  unfolding erase
  contents-erase eq x [] = refl
  contents-erase eq x ((p, v) ∷ r) = ground (arith, contents-erase eq x r)

  last-erase :
      (eq : A → A → Bool) (x : A) (a : ℕ) (r : List (ℕ × A))
      → drops_end eq x (contents r) ≡ false
      → last a (erase eq x r) ≡ last a r
  unfolding erase
  last-erase eq x a [] d = refl
  last-erase eq x a ((b, w) ∷ []) d = ground arith
  last-erase eq x a ((b, w) ∷ (c, u) ∷ r) d = ground (arith, last-erase eq x b ((c, u) ∷ r))

  HasTail-erase :
      (eq : A → A → Bool) (x : A) (l l' : Handle A) (xs : List (ℕ × A))
      → drops_tail eq x (contents xs) ≡ false
      → l'.tail ≡ l.tail
      → HasTail l xs
      → HasTail l' (erase eq x xs)
  unfolding erase
  HasTail-erase eq x l l' [] d same t = tt
  HasTail-erase eq x l l' ((a, v) ∷ []) d same t = elim (Bool-cases (eq v x)) [
    | inl hit ↦ rw hit tt
    | inr miss ↦ rw miss (same ∙ t)
  ]
  HasTail-erase eq x l l' ((a, v) ∷ (b, w) ∷ r) d same t = elim (Bool-cases (eq v x)) [
    | inl hit ↦ rw hit (same ∙ t)
    | inr miss ↦
        let inner = last-erase eq x a ((b, w) ∷ r) (ground arith) in rw miss (same ∙ t ∙ sym inner)
  ]

  -- list_add refines the insertion: where the view's is defined, the code's returns without a
  -- fault, given an unused address that is not NULL, and its handle stands for the longer view.
  pub list_add-Represents :
      (h : Heap A) (l : Handle A) (q q' : Queue A) (f : ℕ) (x : A)
      → Represents h l q
      → add q x ≡ ok q'
      → f ≢ 0
      → h f ≡ none
      → Ends (λ r. Represents r.1 r.0 q') (list_add f l x h)
  list_add-Represents h l q q' f x s a ne free =
      let given : add_items (contents s.cells) q.tail_ok x ≡ ok q' = rw s.holds a in
      let (t, e) = add_items-tail s.cells q.tail_ok q' l x s.has_tail given in
      Ends-mono (Added h l s.cells f x) (λ r. Represents r.1 r.0 q') (list_add f l x h)
        (λ r d. record {
          cells = s.cells ++ (f, x) ∷ [];
          is_list = d.is_list;
          holds = map-append (λ c. c.1) s.cells ((f, x) ∷ []) ∙ e;
          has_tail = λ _. d.has_tail;
        })
        (list_add-Added h l s.cells f x s.is_list t ne free)

  -- list_remove refines the removal of the first match, on every view.
  pub list_remove-Represents :
      (h : Heap A) (l : Handle A) (q : Queue A) (x : A)
      → Represents h l q
      → Ends (λ r. Represents r.1 r.0 (remove l.equals_fn x q)) (list_remove l x h)
  list_remove-Represents h l q x s =
      Ends-mono (Removed h l s.cells (erase l.equals_fn x s.cells))
        (λ r. Represents r.1 r.0 (remove l.equals_fn x q)) (list_remove l x h)
        (λ r d. record {
          cells = erase l.equals_fn x s.cells;
          is_list = d.is_list;
          holds = contents-erase l.equals_fn x s.cells ∙ ap (remove_first l.equals_fn x) s.holds;
          has_tail = λ e. elim (Bool-cases (drops_tail l.equals_fn x q.items)) [
            | inl lost ↦ absurd (ground arith)
            | inr kept ↦
                HasTail-erase l.equals_fn x l r.0 s.cells (rw s.holds kept) d.tail
                  (s.has_tail (ground arith))
          ];
        })
        (list_remove-Removed x h l s.cells s.is_list)
