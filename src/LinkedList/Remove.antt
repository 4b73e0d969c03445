-- ===== src/LinkedList/Remove.antt =====
-- list_remove: the first cell that equals_fn accepts is unlinked and freed.
use psar_dsm.Prelude.{
  ℕ, zero, suc, ◌+◌, ◌<◌, ◌≡◌, refl, sym, ◌∙◌, ◌≢◌, inl, inr, Bool, true, false, none, some, List,
  [], ◌∷◌, arith, ◌==◌, if◌then◌else◌, length, Ends, Ends-mono, Bool-cases,
}
use native.Mathlib.Numerals.{add-one}
use mathlib.Core.Bool.{false≢true}
use mathlib.Core.Path.{subst}
use psar_dsm.LinkedList.{node, Heap, write, Handle, unlink, remove_loop, list_remove}
use psar_dsm.LinkedList.Chain.{
  first, has, Chain, Chain-write, load-ok, write_self, write-ne, first-ne_zero, has-cons_false,
  has-cons_true,
}
use psar_dsm.LinkedList.Add.{IsList}

module _ {A : Type 0} (eq : A → A → Bool) (x : A) where
  -- Drops the first cell whose content `eq` holds equal to `x`.
  unfoldable pub erase : List (ℕ × A) → List (ℕ × A)
  erase [] = []
  erase ((a, v) ∷ r) = if eq v x then r else (a, v) ∷ erase r

  pub has-erase : (p : ℕ) (xs : List (ℕ × A)) → has p xs ≡ false → has p (erase xs) ≡ false
  unfolding erase
  has-erase p [] q = refl
  has-erase p ((a, v) ∷ r) q = ground (arith, has-erase p r)

  pub length-erase-le : (xs : List (ℕ × A)) → length (erase xs) < length xs + 1
  unfolding erase
  length-erase-le [] = omega arith
  length-erase-le ((a, v) ∷ r) = ground (arith, length-erase-le r)

module _ {A : Type 0} where
  pub only :
      (q b : ℕ) (u : A) (r : List (ℕ × A)) → has q ((b, u) ∷ r) ≡ true → has q r ≡ false → q ≡ b
  only q b u r is out = ground arith

  in_tail :
      (q b : ℕ) (u : A) (r : List (ℕ × A)) → q ≢ b → has q ((b, u) ∷ r) ≡ true → has q r ≡ true
  in_tail q b u r ne is = ground arith

module _ {A : Type 0} where
  -- The outcome of leaving `ys` of the cells `xs` behind the cell at `p`, with `n` cells of the
  -- list before them.
  record Scanned (h : Heap A) (l : Handle A) (n p : ℕ) (w : A) (xs ys : List (ℕ × A))
      (r : Handle A × Heap A) : Type 0 where
    chain : Chain r.1 ((p, w) ∷ ys)
    counts : r.0.count ≡ n + length ys
    head : r.0.head ≡ l.head
    tail : r.0.tail ≡ l.tail
    same_fn : r.0.equals_fn ≡ l.equals_fn
    same : (q : ℕ) → has q ((p, w) ∷ xs) ≡ false → r.1 q ≡ h q
    freed : (q : ℕ) → has q xs ≡ true → has q ys ≡ false → r.1 q ≡ none

  unlink-Scanned :
      (h : Heap A) (l : Handle A) (n p : ℕ) (w : A) (b : ℕ) (u : A) (r : List (ℕ × A))
      → Chain h ((p, w) ∷ (b, u) ∷ r)
      → l.count ≡ n + length ((b, u) ∷ r)
      → Ends (Scanned h l n p w ((b, u) ∷ r) r) (unlink l p b (first r) h)
  unfolding unlink
  unlink-Scanned h l n p w b u r c e =
      let (apart, beyond) = has-cons_false p b u r c.2 in
      let given : (p == 0) ≡ false = ground (arith, c.0) in
      let read = load-ok (write h b none) p b w c.0 (write-ne h b p none apart ∙ c.1) in
      rw (given, read)
        (record {
          chain = (
            c.0,
            write_self (write h b none) p (some (node w (first r))),
            beyond,
            Chain-write (write h b none) r p (some (node w (first r))) beyond
                (Chain-write h r b none c.3.2 c.3.3),
          );
          counts = omega (arith, e);
          head = refl;
          tail = refl;
          same_fn = refl;
          same = λ q out.
              let (q_p, rest) = has-cons_false q p w ((b, u) ∷ r) out in
              write-ne (write h b none) p q (some (node w (first r))) q_p
              ∙ write-ne h b q none (has-cons_false q b u r rest).0;
          freed = λ q is out.
              let q_b : q ≡ b = only q b u r is out in
              rw q_b (
                write-ne (write h b none) p b (some (node w (first r))) (λ z. apart (sym z))
                ∙ write_self h b none);
        })

  skip-Scanned :
      (x : A) (h : Heap A) (l : Handle A) (n p : ℕ) (w : A) (b : ℕ) (u : A) (r : List (ℕ × A))
      → Chain h ((p, w) ∷ (b, u) ∷ r)
      → (o : Handle A × Heap A) → Scanned h l (n + 1) b u r (erase l.equals_fn x r) o
      → Scanned h l n p w ((b, u) ∷ r) ((b, u) ∷ erase l.equals_fn x r) o
  skip-Scanned x h l n p w b u r c o s =
      let away = has-cons_false p b u r c.2 in
      record {
        chain = (
          c.0,
          s.same p c.2 ∙ c.1,
          has-cons_true p b u _ away.0 (has-erase l.equals_fn x p r away.1),
          s.chain,
        );
        counts = omega (arith, s.counts);
        head = s.head;
        tail = s.tail;
        same_fn = s.same_fn;
        same = λ q out. s.same q (has-cons_false q p w ((b, u) ∷ r) out).1;
        freed = λ q is out.
            let (q_b, rest) = has-cons_false q b u (erase l.equals_fn x r) out in
            s.freed q (in_tail q b u r q_b is) rest;
      }

  remove_loop-Scanned :
      (x : A) (k : ℕ) (h : Heap A) (l : Handle A) (n p : ℕ) (w : A) (xs : List (ℕ × A))
      → Chain h ((p, w) ∷ xs)
      → l.count ≡ n + length xs
      → length xs < k
      → Ends (Scanned h l n p w xs (erase l.equals_fn x xs)) (remove_loop k l p (first xs) x h)
  unfolding remove_loop erase
  remove_loop-Scanned x zero h l n p w xs c e fuel = absurd (omega arith)
  remove_loop-Scanned x (suc k) h l n p w [] c e fuel = record {
    chain = c;
    counts = e;
    head = refl;
    tail = refl;
    same_fn = refl;
    same = λ q out. refl;
    freed = λ q is out. absurd (false≢true is);
  }
  remove_loop-Scanned x (suc k) h l n p w ((b, u) ∷ r) c e fuel =
      let given : (b == 0) ≡ false = first-ne_zero h b u r c.3 in
      let read = load-ok h b (first r) u c.3.0 c.3.1 in
      elim (Bool-cases (l.equals_fn u x)) [
        | inl hit ↦ rw (given, read, hit) (unlink-Scanned h l n p w b u r c e)
        | inr miss ↦
            rw (given, read, miss)
              (Ends-mono (Scanned h l (n + 1) b u r (erase l.equals_fn x r))
                (Scanned h l n p w ((b, u) ∷ r) ((b, u) ∷ erase l.equals_fn x r))
                (remove_loop k l b (first r) x h) (skip-Scanned x h l n p w b u r c)
                (remove_loop-Scanned x k h l (n + 1) b u r c.3 (omega arith) (omega arith)))
      ]

  -- What list_remove promises of the handle and the heap that it returns.
  pub record Removed (h : Heap A) (l : Handle A) (xs ys : List (ℕ × A)) (r : Handle A × Heap A)
      : Type 0 where
    pub is_list : IsList r.1 r.0 ys
    pub tail : r.0.tail ≡ l.tail
    pub same_fn : r.0.equals_fn ≡ l.equals_fn
    pub same : (q : ℕ) → has q xs ≡ false → r.1 q ≡ h q
    pub freed : (q : ℕ) → has q xs ≡ true → has q ys ≡ false → r.1 q ≡ none

  unlink-Removed :
      (h : Heap A) (l : Handle A) (a : ℕ) (v : A) (r : List (ℕ × A))
      → IsList h l ((a, v) ∷ r)
      → Ends (Removed h l ((a, v) ∷ r) r) (unlink l 0 a (first r) h)
  unfolding unlink
  unlink-Removed h l a v r is = record {
    is_list = record {
      chain = Chain-write h r a none is.chain.2 is.chain.3;
      starts = refl;
      counts = omega (arith, is.counts);
    };
    tail = refl;
    same_fn = refl;
    same = λ q out. write-ne h a q none (has-cons_false q a v r out).0;
    freed = λ q ins out. rw (only q a v r ins out) (write_self h a none);
  }

  Scanned-Removed :
      (h : Heap A) (l : Handle A) (a : ℕ) (v : A) (r ys : List (ℕ × A))
      → IsList h l ((a, v) ∷ r)
      → (o : Handle A × Heap A) → Scanned h l 1 a v r ys o
      → Removed h l ((a, v) ∷ r) ((a, v) ∷ ys) o
  Scanned-Removed h l a v r ys is o s = record {
    is_list = record {
      chain = s.chain;
      starts = s.head ∙ is.starts;
      counts = omega (arith, s.counts);
    };
    tail = s.tail;
    same_fn = s.same_fn;
    same = s.same;
    freed = λ q ins out.
        let (q_a, rest) = has-cons_false q a v ys out in s.freed q (in_tail q a v r q_a ins) rest;
  }

  remove_from :
      (k : ℕ) (x : A) (h : Heap A) (l : Handle A) (xs : List (ℕ × A))
      → IsList h l xs
      → length xs < suc k
      → Ends (Removed h l xs (erase l.equals_fn x xs)) (remove_loop (suc k) l 0 (first xs) x h)
  unfolding remove_loop erase
  remove_from k x h l [] is fuel = record {
    is_list = is;
    tail = refl;
    same_fn = refl;
    same = λ q out. refl;
    freed = λ q ins out. absurd (false≢true ins);
  }
  remove_from k x h l ((a, v) ∷ r) is fuel =
      let given : (a == 0) ≡ false = first-ne_zero h a v r is.chain in
      let read = load-ok h a (first r) v is.chain.0 is.chain.1 in
      elim (Bool-cases (l.equals_fn v x)) [
        | inl hit ↦ rw (given, read, hit) (unlink-Removed h l a v r is)
        | inr miss ↦
            rw (given, read, miss)
              (Ends-mono (Scanned h l 1 a v r (erase l.equals_fn x r))
                (Removed h l ((a, v) ∷ r) ((a, v) ∷ erase l.equals_fn x r))
                (remove_loop k l a (first r) x h)
                (Scanned-Removed h l a v r (erase l.equals_fn x r) is)
                (remove_loop-Scanned x k h l 1 a v r is.chain (omega (arith, is.counts))
                  (omega arith)))
      ]

  -- On every list, list_remove returns without a fault within its fuel of one round more than the
  -- length: the first cell that equals_fn accepts is unlinked and its node freed, the length is
  -- that of what is left, the other cells keep their place and content, no other address is
  -- written, and the tail pointer is left as it was.
  pub list_remove-Removed :
      (x : A) (h : Heap A) (l : Handle A) (xs : List (ℕ × A))
      → IsList h l xs
      → Ends (Removed h l xs (erase l.equals_fn x xs)) (list_remove l x h)
  unfolding list_remove
  list_remove-Removed x h l xs is =
      subst
        (λ q. Ends (Removed h l xs (erase l.equals_fn x xs)) (remove_loop (l.count + 1) l 0 q x h))
        (sym is.starts) (rw add-one (remove_from l.count x h l xs is (omega (arith, is.counts))))
