-- ===== src/Program/Locks.antt =====
-- A page whose mutex the program holds keeps it, whatever the node's listener handles (dsm_core.c).
use psar_dsm.Prelude.{
  ℕ, zero, suc, ◌∷◌, IfOk-chain, ◌+◌, ◌≡◌, refl, sym, ap, ◌∙◌, true, some, List, [], leb, Run, ok,
  IfOk, IfOk-bind, IfOk-mono, IfOk-ok, if-IfOk, option_fault-IfOk, Bool-cases, Option-cases, inl,
  inr, arith, get_elem?, set,
}
use mathlib.Core.Path.{subst}
use mathlib.Core.Option.{some-injective}
use psar_dsm.LinkedList.Queue.{size, add}
use psar_dsm.Memory.{Page, Memory, get_page_from_id}
use psar_dsm.Message.{
  Message, connect, connect_ack, lockpage, invalidate, invalidate_ack, givepage, sync_barrier,
  barrier_ack, terminate_msg, unknown, Event, Surroundings, dsm_send_msg,
}
use psar_dsm.Core.{giveup_localpage, process_list_requests}
use psar_dsm.Core.Shape.{Shape, Shaped, process_list_requests-Shape}
use psar_dsm.Node.{Node, with_page}
use psar_dsm.Node.Handlers.{
  broadcast_ack, handle_connect_msg, lockpage_page, handle_lockpage_msg, invalidate_page,
  handle_invalidate_msg, invalidate_ack_page, handle_invalidate_ack_msg, givepage_page,
  handle_givepage_msg, handle_sync_barrier_msg, handle_barrier_ack_msg, handle_terminate_msg,
  dsm_dispatch_message,
}
use psar_dsm.Node.Api.{with}

-- The mutex of the page at index `i` is held.
abbrev pub LockedAt : Node → (i : ℕ) → Type 0
LockedAt n i = (p : Page) × (get_elem? n.mem.pages i ≡ some p) × (p.locked ≡ true)

-- The memory lies where it lay, and what is locked stays locked.
pub record Kept (n n' : Node) : Type 0 where
  pub size : n'.mem.pagesize ≡ n.mem.pagesize
  pub count : n'.mem.page_count ≡ n.mem.page_count
  pub base : n'.mem.base_addr ≡ n.mem.base_addr
  pub locks : (i : ℕ) → LockedAt n i → LockedAt n' i

pub Kept-refl : (n : Node) → Kept n n
Kept-refl n = record { size = refl; count = refl; base = refl; locks = λ i h. h }

pub Kept-trans : (n n' n'' : Node) → Kept n n' → Kept n' n'' → Kept n n''
Kept-trans n n' n'' k k' = record {
  size = k'.size ∙ k.size;
  count = k'.count ∙ k.count;
  base = k'.base ∙ k.base;
  locks = λ i h. k'.locks i (k.locks i h);
}

-- Of a page and what a function makes of it.
abbrev pub LockKept : Page → Page → Type 0
LockKept p p' = p.locked ≡ true → p'.locked ≡ true

set-locks :
    (ps : List Page) (i j : ℕ) (p q : Page)
    → get_elem? ps i ≡ some p
    → LockKept p q
    → ((r : Page) × (get_elem? ps j ≡ some r) × (r.locked ≡ true))
    → (r : Page) × (get_elem? (set ps i q) j ≡ some r) × (r.locked ≡ true)
set-locks [] i j p q at keep h = cc
set-locks (x ∷ ps) zero zero p q at keep (r, found, busy) =
    let same : r ≡ p = some-injective r p (sym found ∙ at) in
    (q, refl, keep (ap (λ (s : Page). s.locked) (sym same) ∙ busy))
set-locks (x ∷ ps) zero (suc j) p q at keep h = h
set-locks (x ∷ ps) (suc i) zero p q at keep h = h
set-locks (x ∷ ps) (suc i) (suc j) p q at keep h = set-locks ps i j p q at keep h

pub with-Kept :
    (n : Node) (i : ℕ) (p p' : Page) (t : List Event)
    → get_elem? n.mem.pages i ≡ some p
    → LockKept p p'
    → Kept n (with n i p' t)
with-Kept n i p p' t at keep = record {
  size = refl;
  count = refl;
  base = refl;
  locks = λ j h. set-locks n.mem.pages i j p p' at keep h;
}

Shape-locked : (p p' : Page) → Shape p p' → p'.locked ≡ p.locked
unfolding giveup_localpage
Shape-locked p p' (inl (d, e)) = ap (λ (q : Page). q.locked) e
Shape-locked p p' (inr (fd, d, e)) = ap (λ (q : Page). q.locked) e

abbrev StaysLocked : Page → Page × List Event → Type 0
StaysLocked p r = LockKept p r.0

module _ (env : Surroundings) where
  process-StaysLocked :
      (k : ℕ) (p : Page) (t : List Event) → IfOk (StaysLocked p) (process_list_requests env k p t)
  process-StaysLocked k p t =
      IfOk-mono (Shaped p) (StaysLocked p) (process_list_requests env k p t)
        (process_list_requests-Shape env p k t) λ r sh busy. Shape-locked p r.0 sh ∙ busy

  lockpage_page-StaysLocked :
      (k from rights block : ℕ) (p : Page) (t : List Event)
      → IfOk (StaysLocked p) (lockpage_page env k from rights block p t)
  unfolding lockpage_page
  lockpage_page-StaysLocked k from rights block p t =
      option_fault-IfOk (StaysLocked p) p.directory _
        λ d. IfOk-bind (StaysLocked p) (add d.requests_queue _) _ λ q. process-StaysLocked k _ t

  invalidate_ack_page-StaysLocked :
      (k from : ℕ) (p : Page) (t : List Event)
      → IfOk (StaysLocked p) (invalidate_ack_page env k from p t)
  unfolding invalidate_ack_page
  invalidate_ack_page-StaysLocked k from p t =
      option_fault-IfOk (StaysLocked p) p.directory _ λ d. process-StaysLocked k _ t

  -- These two take the mutex, so that they do not come to an end while it is held.
  invalidate_page-StaysLocked :
      (count from id : ℕ) (p : Page) (t : List Event)
      → IfOk (StaysLocked p) (invalidate_page env count from id p t)
  unfolding invalidate_page
  invalidate_page-StaysLocked count from id p t = elim (Bool-cases p.locked) [
    | inl busy ↦ rw (busy, invalidate_page) tt
    | inr idle ↦ IfOk-ok (StaysLocked p) _ λ r run busy. absurd (ground (arith))
  ]

  givepage_page-StaysLocked :
      (k : ℕ) (n : Node) (id rights : ℕ) (bytes : List ℕ) (p : Page) (t : List Event)
      → IfOk (StaysLocked p) (givepage_page env k n id rights bytes p t)
  unfolding givepage_page
  givepage_page-StaysLocked k n id rights bytes p t = elim (Bool-cases p.locked) [
    | inl busy ↦ rw (busy, givepage_page) tt
    | inr idle ↦ IfOk-ok (StaysLocked p) _ λ r run busy. absurd (ground (arith))
  ]

  with_page-Kept :
      (n : Node) (id : ℕ) (f : Page → List Event → Run (Page × List Event))
      → ((p : Page) (t : List Event) → IfOk (StaysLocked p) (f p t))
      → IfOk (Kept n) (with_page n id f)
  unfolding with_page
  with_page-Kept n id f keep = option_fault-IfOk (Kept n) (get_page_from_id n.mem id) _ λ i.
      elim (Option-cases (get_elem? n.mem.pages i)) [
        | inl e ↦ rw e tt
        | inr (p, e) ↦ rw e (
            IfOk-chain (StaysLocked p) (Kept n) (f p n.trace) _ (keep p n.trace)
              λ r k. with-Kept n i p r.0 r.1 e k)
      ]

  unchanged : (n n' : Node) → n'.mem ≡ n.mem → Kept n n'
  unchanged n n' same = record {
    size = ap (λ (m : Memory). m.pagesize) same;
    count = ap (λ (m : Memory). m.page_count) same;
    base = ap (λ (m : Memory). m.base_addr) same;
    locks = λ i h.
        subst (λ (m : Memory). (p : Page) × (get_elem? m.pages i ≡ some p) × (p.locked ≡ true))
          (sym same) h;
  }

  barrier-Kept : (n : Node) (from w : ℕ) → IfOk (Kept n) (handle_sync_barrier_msg env n from w)
  unfolding handle_sync_barrier_msg
  barrier-Kept n from w = option_fault-IfOk (Kept n) n.sync_barrier_waiters _ λ q.
      if-IfOk (Kept n) n.is_master _ (ok n)
        (if-IfOk (Kept n) (leb w (size q + 1)) _ _
          (IfOk-bind (Kept n) (broadcast_ack env q.items n.trace) _
            λ t. IfOk-bind (Kept n) (dsm_send_msg env from barrier_ack t) _ λ r. unchanged n _ refl)
          (IfOk-bind (Kept n) (add q from) _ λ w'. unchanged n _ refl))
        (Kept-refl n)

  -- Whatever message the listener handles.
  pub dispatch-Kept :
      (k block : ℕ) (n : Node) (from : ℕ) (m : Message)
      → IfOk (Kept n) (dsm_dispatch_message env k block n from m)
  unfolding dsm_dispatch_message handle_connect_msg handle_lockpage_msg handle_invalidate_msg
      handle_invalidate_ack_msg handle_givepage_msg handle_barrier_ack_msg handle_terminate_msg
  dispatch-Kept k block n from (connect b s) =
      IfOk-bind (Kept n) (dsm_send_msg env from _ n.trace) _ λ r. unchanged n _ refl
  dispatch-Kept k block n from (lockpage i r) =
      with_page-Kept n i _ (lockpage_page-StaysLocked k from r block)
  dispatch-Kept k block n from (invalidate i) =
      with_page-Kept n i _ (invalidate_page-StaysLocked n.mem.page_count from i)
  dispatch-Kept k block n from (invalidate_ack i) =
      with_page-Kept n i _ (invalidate_ack_page-StaysLocked k from)
  dispatch-Kept k block n from (givepage i r bytes) =
      with_page-Kept n i _ (givepage_page-StaysLocked k n i r bytes)
  dispatch-Kept k block n from (sync_barrier w) = barrier-Kept n from w
  dispatch-Kept k block n from terminate_msg =
      if-IfOk (Kept n) n.is_master _ (ok n) (unchanged n _ refl) (Kept-refl n)
  dispatch-Kept k block n from (connect_ack b s c) = Kept-refl n
  dispatch-Kept k block n from barrier_ack = unchanged n _ refl
  dispatch-Kept k block n from (unknown type) = Kept-refl n
