-- ===== src/Program/Relock.antt =====
-- A program that locks a page again before it has unlocked it (lock_read and lock_write of dsm.c, and
-- demo_slave_reader.c).
use psar_dsm.Prelude.{
  ℕ, ◌≡◌, refl, sym, ◌∙◌, inl, inr, some, List, [], ◌∷◌, ◌++◌, ok, IfOk, get_elem?,
}
use mathlib.Core.Path.{subst}
use mathlib.Core.List.{append_assoc}
use psar_dsm.Memory.{Page, get_page_from_addr}
use psar_dsm.Message.{Surroundings}
use psar_dsm.Node.{Node}
use psar_dsm.Node.Api.{with, lock_page_wake}
use psar_dsm.Program.{
  Statement, Place, running, in_lock, run_statement, Thread, Step, hears, runs, wakes, opens,
  leaves, Reach, here, next,
}
use psar_dsm.Program.Locks.{LockedAt, Kept, with-Kept, dispatch-Kept}
use psar_dsm.Program.Locking.{Locking, KeptBy, lookup-Kept, wake-locked, get_elem?-set}
use psar_dsm.Program.Holding.{
  Holding, AllHolding, LocksAddr, run_statement-Kept, run_lock-Locking, run_lock-blocked,
}

in_lock-injective : (i j : ℕ) → in_lock i ≡ in_lock j → i ≡ j
in_lock-injective i j e = cc

-- The program locks the page of `addr` by `first`, and again by `second` with nothing but `between` in
-- between.
module _ (env : Surroundings) (addr : ℕ) (first second : Statement) (between after : List Statement)
    (locks_first : LocksAddr addr first) (locks_second : LocksAddr addr second)
    (holding : AllHolding between) where
  -- The program has not come to `first`, sleeps in it, or holds the page.
  data Stands (s : Thread) : Type 0 where
    ahead :
        (before : List Statement)
        → s.rest ≡ before ++ first ∷ (between ++ second ∷ after)
        → Stands s
    asleep :
        (i : ℕ)
        → get_page_from_addr s.node.mem addr ≡ some i
        → s.place ≡ in_lock i
        → s.rest ≡ between ++ second ∷ after
        → Stands s
    holds :
        (i : ℕ)
        → get_page_from_addr s.node.mem addr ≡ some i
        → LockedAt s.node i
        → (left : List Statement) → AllHolding left
        → s.rest ≡ left ++ second ∷ after
        → Stands s

  -- Where the thread stays where it is.
  Kept-Stands : (s : Thread) (n : Node) → Kept s.node n → Stands s → Stands (record s { node = n })
  Kept-Stands s n k (ahead before is) = ahead before is
  Kept-Stands s n k (asleep i at place is) = asleep i (lookup-Kept s.node n addr k ∙ at) place is
  Kept-Stands s n k (holds i at busy left all is) =
      holds i (lookup-Kept s.node n addr k ∙ at) (k.locks i busy) left all is

  -- Where the thread wakes up in another wait than that of `first`.
  woken-Stands :
      (s : Thread)
      → ((i : ℕ) → s.place ≡ in_lock i → ⊥)
      → Stands s
      → Stands (record s { place = running })
  woken-Stands s other (ahead before is) = ahead before is
  woken-Stands s other (asleep i at place is) = absurd (other i place)
  woken-Stands s other (holds i at busy left all is) = holds i at busy left all is

  locked-Stands :
      (n : Node) (place : Place)
      → Locking addr (n, place)
      → Stands (record { node = n; place = place; rest = between ++ second ∷ after })
  locked-Stands n place (i, at, inl (e, busy)) = holds i at busy between holding refl
  locked-Stands n place (i, at, inr e) = asleep i at e refl

  runs-Stands :
      (s : Thread) (c : Statement) (rest : List Statement) (n : Node) (place : Place)
      → s.place ≡ running
      → s.rest ≡ c ∷ rest
      → run_statement env s.node c ≡ ok (n, place)
      → Stands s
      → Stands (record { node = n; place = place; rest = rest })
  runs-Stands s c rest n place awake is run (ahead [] is') =
      let same : c ≡ first = cc in
      let tail : rest ≡ between ++ second ∷ after = cc in
      subst (λ (r : List Statement). Stands (record { node = n; place = place; rest = r }))
        (sym tail)
        (locked-Stands n place (
          subst (IfOk (Locking addr)) run
            (run_lock-Locking env s.node addr c (subst (LocksAddr addr) (sym same) locks_first))))
  runs-Stands s c rest n place awake is run (ahead (x ∷ before) is') = ahead before cc
  runs-Stands s c rest n place awake is run (asleep i at asleep_in is') = absurd cc
  runs-Stands s c rest n place awake is run (holds i at busy [] all is') =
      let same : c ≡ second = cc in
      absurd (
        let stuck =
          run_lock-blocked env s.node addr i c (subst (LocksAddr addr) (sym same) locks_second) at
            busy in
        cc)
  runs-Stands s c rest n place awake is run (holds i at busy (x ∷ left) all is') =
      let same : x ≡ c = cc in
      let k =
        subst (IfOk (KeptBy s.node)) run
          (run_statement-Kept env s.node c (subst Holding same all.0)) in
      holds i (lookup-Kept s.node n addr k ∙ at) (Kept.locks k i busy) left all.1 cc

  wakes-Stands :
      (s : Thread) (j : ℕ) (p p' : Page)
      → s.place ≡ in_lock j
      → get_elem? s.node.mem.pages j ≡ some p
      → lock_page_wake p ≡ ok p'
      → Stands s
      → Stands (record s { node = with s.node j p' s.node.trace; place = running })
  wakes-Stands s j p p' place found wake st =
      let locked = wake-locked p p' wake in
      let k = with-Kept s.node j p p' s.node.trace found λ busy. locked in
      elim st [
        | ahead before is ↦ ahead before is
        | asleep i at place' is ↦
            let same : j ≡ i = in_lock-injective j i (sym place ∙ place') in
            holds i (lookup-Kept s.node (with s.node j p' s.node.trace) addr k ∙ at)
              (subst (LockedAt (with s.node j p' s.node.trace)) same
                (p', get_elem?-set s.node.mem.pages j p p' found, locked))
              between holding is
        | holds i at busy left all is ↦
            holds i (lookup-Kept s.node (with s.node j p' s.node.trace) addr k ∙ at)
              (Kept.locks k i busy) left all is
      ]

  Step-Stands : {s t : Thread} → Step env s t → Stands s → Stands t
  Step-Stands {s} (hears fuel block from m {n} run) st =
      Kept-Stands s n (subst (IfOk (Kept s.node)) run (dispatch-Kept env fuel block s.node from m))
        st
  Step-Stands {s} (runs {c} {rest} {n} {place} awake is run) st =
      runs-Stands s c rest n place awake is run st
  Step-Stands {s} (wakes i {p} {p'} place found wake) st = wakes-Stands s i p p' place found wake st
  Step-Stands {s} (opens place) st = woken-Stands s (λ i e. absurd cc) st
  Step-Stands {s} (leaves place alone) st = woken-Stands s (λ i e. absurd cc) st

  Reach-Stands : {s t : Thread} → Reach env s t → Stands s → Stands t
  Reach-Stands here st = st
  Reach-Stands (next r step) st = Step-Stands step (Reach-Stands r st)

  unbegun : (s : Thread) → Stands s → (left : List Statement) × (s.rest ≡ left ++ second ∷ after)
  unbegun s (ahead before is) =
      (before ++ first ∷ between, is ∙ sym (append_assoc before (first ∷ between) (second ∷ after)))
  unbegun s (asleep i at place is) = (between, is)
  unbegun s (holds i at busy left all is) = (left, is)

  -- A program that locks a page, for reading or for writing, and locks it again without having unlocked
  -- a page or left in between never gets past the second lock, whatever messages its listener handles
  -- and whenever the thread is woken.
  pub relock-for_ever :
      (before : List Statement) (s t : Thread)
      → s.rest ≡ before ++ first ∷ (between ++ second ∷ after)
      → Reach env s t
      → (left : List Statement) × (t.rest ≡ left ++ second ∷ after)
  relock-for_ever before s t is r = unbegun t (Reach-Stands r (ahead before is))
