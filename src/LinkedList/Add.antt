-- ===== src/LinkedList/Add.antt =====
-- list_init and list_add: a new cell at the end of the chain.
use psar_dsm.Prelude.{
  ℕ, ◌≡◌, refl, sym, ◌∙◌, ◌≢◌, Bool, true, false, ◌||◌, none, some, List, [], ◌∷◌, ◌++◌, arith,
  ◌==◌, length, length-append, Ends,
}
use psar_dsm.LinkedList.{node, Heap, write, Handle, list_init, list_add}
use psar_dsm.LinkedList.Chain.{
  first, last, has, Chain, has-of_none, load-ok, write_self, write-ne, ne_of_has,
}

module _ {A : Type 0} where
  -- The handle `l` stands for the cells `xs` of the heap `h`.
  pub record IsList (h : Heap A) (l : Handle A) (xs : List (ℕ × A)) : Type 0 where
    pub chain : Chain h xs
    pub starts : l.head ≡ first xs
    pub counts : l.count ≡ length xs

  -- The tail pointer is that of the last cell (the source reads it only in a list that has one).
  abbrev pub HasTail : Handle A → List (ℕ × A) → Type 0
  HasTail l [] = Unit {0}
  HasTail l ((a, _) ∷ r) = l.tail ≡ last a r

  pub has-last : (a : ℕ) (x : A) (r : List (ℕ × A)) → has (last a r) ((a, x) ∷ r) ≡ true
  has-last a x [] = ground arith
  has-last a x ((b, y) ∷ r) = ground (arith, has-last b y r)

  has-append : (p : ℕ) (xs ys : List (ℕ × A)) → has p (xs ++ ys) ≡ (has p xs || has p ys)
  has-append p [] ys = refl
  has-append p ((a, x) ∷ r) ys = ground (arith, has-append p r ys)

  last-append : (d : ℕ) (xs : List (ℕ × A)) (f : ℕ) (x : A) → last d (xs ++ (f, x) ∷ []) ≡ f
  last-append d [] f x = refl
  last-append d ((a, y) ∷ r) f x = last-append a r f x

  outside :
      (p : ℕ) (xs : List (ℕ × A)) (f : ℕ) (x : A)
      → has p (xs ++ (f, x) ∷ []) ≡ false
      → (has p xs ≡ false) × (p ≢ f)
  outside p xs f x q = ground (arith, has-append p xs ((f, x) ∷ []))

  load-last :
      (h : Heap A) (a : ℕ) (v : A) (r : List (ℕ × A))
      → Chain h ((a, v) ∷ r)
      → (w : A) × (h (last a r) ≡ some (node w 0)) × (last a r ≢ 0)
  load-last h a v [] c = (v, c.1, c.0)
  load-last h a v ((b, w) ∷ r) c = load-last h b w r c.3

  -- The two writes of list_add: the new node, and the link from the last one to it.
  extended : Heap A → (t f : ℕ) (w x : A) → Heap A
  extended h t f w x = write (write h f (some (node x 0))) t (some (node w f))

  Chain-extended :
      (h : Heap A) (f : ℕ) (x w : A) (a : ℕ) (v : A) (r : List (ℕ × A))
      → Chain h ((a, v) ∷ r)
      → h (last a r) ≡ some (node w 0)
      → f ≢ 0
      → has f ((a, v) ∷ r) ≡ false
      → Chain (extended h (last a r) f w x) ((a, v) ∷ r ++ (f, x) ∷ [])
  unfolding extended
  Chain-extended h f x w a v [] c e ne out =
      let apart : a ≢ f = ground arith in
      let back : f ≢ a = λ q. apart (sym q) in
      let old : some (node v 0) ≡ some (node w 0) = sym (c.1) ∙ e in
      (
        c.0,
        write_self _ a _ ∙ ground (arith, old),
        ground arith,
        (ne, write-ne _ a f _ back ∙ write_self h f _, refl, tt),
      )
  Chain-extended h f x w a v ((b, u) ∷ r) c e ne out =
      let apart : a ≢ f = ground arith in
      let inside : a ≢ last b r = ne_of_has ((b, u) ∷ r) a _ c.2 (has-last b u r) in
      (
        c.0,
        write-ne _ _ a _ inside ∙ write-ne h f a _ apart ∙ c.1,
        ground (arith, has-append a r ((f, x) ∷ [])),
        Chain-extended h f x w b u r c.3 e ne (ground arith),
      )

  -- What list_add promises of the handle and the heap that it returns.
  pub record Added (h : Heap A) (l : Handle A) (xs : List (ℕ × A)) (f : ℕ) (x : A)
      (r : Handle A × Heap A) : Type 0 where
    pub is_list : IsList r.1 r.0 (xs ++ (f, x) ∷ [])
    pub has_tail : HasTail r.0 (xs ++ (f, x) ∷ [])
    pub same_fn : r.0.equals_fn ≡ l.equals_fn
    pub same : (p : ℕ) → has p (xs ++ (f, x) ∷ []) ≡ false → r.1 p ≡ h p

  -- list_init makes the empty list.
  pub list_init-IsList : (h : Heap A) (eq : A → A → Bool) → IsList h (list_init eq) []
  unfolding list_init
  list_init-IsList h eq = record { chain = tt; starts = refl; counts = refl }

  -- On a list whose tail pointer is right, and given an unused address, list_add returns without
  -- a fault: the new cell stands behind the others, the tail pointer is right again, the length
  -- is that of the longer list, and no other address is written.
  pub list_add-Added :
      (h : Heap A) (l : Handle A) (xs : List (ℕ × A)) (f : ℕ) (x : A)
      → IsList h l xs
      → HasTail l xs
      → f ≢ 0
      → h f ≡ none
      → Ends (Added h l xs f x) (list_add f l x h)
  unfolding list_add extended
  list_add-Added h l [] f x is tl ne free =
      let given : (f == 0) ≡ false = ground arith in
      let empty : (l.count == 0) ≡ true = ground (arith, is.counts) in
      rw (given, empty)
        (record {
          is_list = record {
            chain = (ne, write_self h f _, refl, tt);
            starts = refl;
            counts = omega (arith, is.counts);
          };
          has_tail = refl;
          same_fn = refl;
          same = λ p out. write-ne h f p _ (ground arith);
        })
  list_add-Added h l ((a, v) ∷ r) f x is tl ne free =
      let (w, e, ne') = load-last h a v r is.chain in
      let out = has-of_none h ((a, v) ∷ r) f free is.chain in
      let given : (f == 0) ≡ false = ground arith in
      let more : (l.count == 0) ≡ false = ground (arith, is.counts) in
      let apart : last a r ≢ f = λ q. ne_of_has ((a, v) ∷ r) f _ out (has-last a v r) (sym q) in
      let read =
        load-ok (write h f (some (node x 0))) (last a r) 0 w ne'
          (write-ne h f (last a r) (some (node x 0)) apart ∙ e) in
      rw (given, more, tl, read)
        (record {
          is_list = record {
            chain = Chain-extended h f x w a v r is.chain e ne out;
            starts = is.starts;
            counts = omega (arith, is.counts, length-append r ((f, x) ∷ []));
          };
          has_tail = sym (last-append a r f x);
          same_fn = refl;
          same = λ p q.
              let (old, new) = outside p ((a, v) ∷ r) f x q in
              write-ne (write h f (some (node x 0))) (last a r) p (some (node w f))
                (ne_of_has ((a, v) ∷ r) p _ old (has-last a v r))
              ∙ write-ne h f p (some (node x 0)) new;
        })
