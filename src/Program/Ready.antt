-- ===== src/Program/Ready.antt =====
-- The pages of a slave whose program uses them only between a lock and an unlock.
use psar_dsm.Prelude.{
  ℕ, zero, suc, ◌≡◌, ◌≢◌, ◌⊎◌, inl, inr, refl, sym, ap, ◌∙◌, Bool, true, false, none, some, List,
  [], ◌∷◌, arith, length, length-set, get_elem?, set,
}
use mathlib.Core.Path.{subst}
use mathlib.Core.Option.{some-injective}
use psar_dsm.Memory.{Page, Memory, may_read, may_write}
use psar_dsm.Message.{Event}
use psar_dsm.Node.{Node}
use psar_dsm.Node.Api.{with}
use psar_dsm.Program.Discipline.{Held}

-- A page of `pagesize` bytes on a slave. What is up to date has the rights that the program uses.
pub record Ready (writes : Bool) (pagesize : ℕ) (p : Page) : Type 0 where
  pub directory : p.directory ≡ none
  pub mirrored : p.mapped ≡ p.protection
  pub readable : may_write p.mapped ≡ true → may_read p.mapped ≡ true
  pub granted_read : p.uptodate ≡ true → may_read p.mapped ≡ true
  pub granted_write : p.uptodate ≡ true → writes ≡ true → may_write p.mapped ≡ true
  pub sized : length p.bytes ≡ pagesize

-- The program's own thread has the mutex of exactly the pages that it holds, and these are up to date.
pub record Fits (writes : Bool) (pagesize : ℕ) (holds : Bool) (p : Page) : Type 0 where
  pub ready : Ready writes pagesize p
  pub locked : p.locked ≡ holds
  pub here : p.locked ≡ true → p.uptodate ≡ true

-- A slave whose memory lies as `m` does.
pub record Good (writes : Bool) (m : Memory) (held : Held) (n : Node) : Type 0 where
  pub slave : n.is_master ≡ false
  pub size : n.mem.pagesize ≡ m.pagesize
  pub count : n.mem.page_count ≡ m.page_count
  pub base : n.mem.base_addr ≡ m.base_addr
  pub counted : length n.mem.pages ≡ m.page_count
  pub pages :
      (i : ℕ) (p : Page) → get_elem? n.mem.pages i ≡ some p → Fits writes m.pagesize (held i) p

get_elem?-set_cases :
    (ps : List Page) (i j : ℕ) (p q : Page)
    → get_elem? (set ps i p) j ≡ some q
    → ((j ≡ i) × (q ≡ p)) ⊎ ((j ≢ i) × (get_elem? ps j ≡ some q))
get_elem?-set_cases [] i j p q e = cc
get_elem?-set_cases (x ∷ ps) zero zero p q e = inl (refl, some-injective q p (sym e))
get_elem?-set_cases (x ∷ ps) zero (suc j) p q e = inr (λ h. absurd (omega arith), e)
get_elem?-set_cases (x ∷ ps) (suc i) zero p q e = inr (λ h. absurd (omega arith), e)
get_elem?-set_cases (x ∷ ps) (suc i) (suc j) p q e = elim (get_elem?-set_cases ps i j p q e) [
  | inl (a, b) ↦ inl (ap suc a, b)
  | inr (a, b) ↦ inr (λ h. a (omega arith), b)
]

module _ (writes : Bool) (m : Memory) where
  -- One page is changed, and with it what is held of it.
  pub with-Good :
      (held held' : Held) (n : Node) (i : ℕ) (p : Page) (t : List Event)
      → Good writes m held n
      → Fits writes m.pagesize (held' i) p
      → ((j : ℕ) → j ≢ i → held' j ≡ held j)
      → Good writes m held' (with n i p t)
  with-Good held held' n i p t g fits others = record {
    slave = g.slave;
    size = g.size;
    count = g.count;
    base = g.base;
    counted = length-set n.mem.pages i p ∙ g.counted;
    pages = λ j q at. elim (get_elem?-set_cases n.mem.pages i j p q at) [
      | inl (a, b) ↦
          subst (λ (k : ℕ). Fits writes m.pagesize (held' k) q) (sym a)
            (subst (Fits writes m.pagesize (held' i)) (sym b) fits)
      | inr (a, b) ↦
          subst (λ (h : Bool). Fits writes m.pagesize h q) (sym (others j a)) (g.pages j q b)
    ];
  }

  pub with_trace-Good :
      (held : Held) (n : Node) (t : List Event)
      → Good writes m held n
      → Good writes m held (record n { trace = t })
  with_trace-Good held n t g = record {
    slave = g.slave;
    size = g.size;
    count = g.count;
    base = g.base;
    counted = g.counted;
    pages = g.pages;
  }
