-- ===== src/Program/Locking.antt =====
-- lock_read and lock_write of dsm.c as statements of a program: what they leave of the page, and of the
-- pages that are locked already.
use psar_dsm.Prelude.{
  ℕ, zero, suc, ◌≡◌, refl, ◌⊎◌, inl, inr, true, some, List, [], ◌∷◌, Run, ok, exit, blocked, ◌>>=◌,
  IfOk, IfOk-bind, IfOk-chain, IfOk-mono, IfOk-ok, if-IfOk, Bool-cases, Option-cases, arith,
  get_elem?, set,
}
use psar_dsm.Memory.{Page, get_page_from_id, get_page_from_addr}
use psar_dsm.Message.{Event, Surroundings, dsm_send_msg, lockpage}
use psar_dsm.Node.{Node}
use psar_dsm.Node.Api.{Lock, held, waiting, page_at, with, lock_page, lock_page_wake}
use psar_dsm.Program.{Place, running, in_lock, after_lock, locks}
use psar_dsm.Program.Locks.{LockedAt, Kept, LockKept, with-Kept}

pub get_elem?-set :
    (ps : List Page) (i : ℕ) (p q : Page)
    → get_elem? ps i ≡ some p
    → get_elem? (set ps i q) i ≡ some q
get_elem?-set [] i p q at = cc
get_elem?-set (x ∷ ps) zero p q at = refl
get_elem?-set (x ∷ ps) (suc i) p q at = get_elem?-set ps i p q at

-- The lookup of an address goes by where the memory lies.
pub lookup-Kept :
    (n n' : Node) (addr : ℕ)
    → Kept n n'
    → get_page_from_addr n'.mem addr ≡ get_page_from_addr n.mem addr
unfolding get_page_from_addr get_page_from_id
lookup-Kept n n' addr k = rw (k.size, k.count, k.base) refl

abbrev pub Found : Node → (addr : ℕ) → ℕ × Page → Type 0
Found n addr r = (get_page_from_addr n.mem addr ≡ some r.0) × (get_elem? n.mem.pages r.0 ≡ some r.1)

pub page_at-Found : (n : Node) (addr : ℕ) → IfOk (Found n addr) (page_at n addr)
unfolding page_at
page_at-Found n addr = elim (Option-cases (get_page_from_addr n.mem addr)) [
  | inl e ↦ rw (e, page_at) tt
  | inr (i, e) ↦ elim (Option-cases (get_elem? n.mem.pages i)) [
    | inl e' ↦ rw (e, e', page_at) tt
    | inr (p, e') ↦ rw (e, e', page_at) (e, e')
  ]
]

pub page_at-eq :
    (n : Node) (addr i : ℕ) (p : Page)
    → get_page_from_addr n.mem addr ≡ some i
    → get_elem? n.mem.pages i ≡ some p
    → page_at n addr ≡ ok (i, p)
unfolding page_at
page_at-eq n addr i p e e' = rw (e, e', page_at) refl

-- What lock_page leaves of a page: the mutex is held, or the caller goes to sleep.
abbrev Got : Page × Lock × List Event → Type 0
Got r = ((r.1 ≡ held) × (r.0.locked ≡ true)) ⊎ (r.1 ≡ waiting)

pub wake-locked : (p p' : Page) → lock_page_wake p ≡ ok p' → p'.locked ≡ true
unfolding lock_page_wake
wake-locked p p' run = ground arith

-- The page of `addr` is at index `i`, where the program holds it or waits for it.
abbrev pub Locking : (addr : ℕ) → Node × Place → Type 0
Locking addr r =
    (i : ℕ) × (get_page_from_addr r.0.mem addr ≡ some i)
    × (((r.1 ≡ running) × LockedAt r.0 i) ⊎ (r.1 ≡ in_lock i))

abbrev pub KeptBy : Node → Node × Place → Type 0
KeptBy n r = Kept n r.0

module _ (env : Surroundings) where
  lock_page-Got :
      (fd : ℕ) (p : Page) (rights : ℕ) (t : List Event) → IfOk Got (lock_page env fd p rights t)
  unfolding lock_page
  lock_page-Got fd p rights t = if-IfOk Got p.locked blocked _ tt (
      if-IfOk Got p.uptodate _ _ (inl (refl, refl)) (
        IfOk-bind Got (dsm_send_msg env fd (lockpage p.page_id rights) t) _
          λ r. if-IfOk Got r.0 _ _ (inr refl) tt))

  unfoldable pub Locks : (n : Node) (addr rights : ℕ) → Run (Node × Lock)
  Locks n addr rights = page_at n addr >>= λ r.
      lock_page env n.master_sockfd r.1 rights n.trace >>= λ r'. ok (with n r.0 r'.0 r'.2, r'.1)

  -- The page is looked up once by lock_read and once for the place where the thread sleeps.
  locks_rule :
      (P : Node × Place → Type 0) (n : Node) (addr rights : ℕ) (page : Run (ℕ × Page))
      → IfOk (Found n addr) page
      → ((i : ℕ) (p : Page)
          → Found n addr (i, p)
          → IfOk
              (λ r. P (with n i r.0 r.2, after_lock i r.1))
              (lock_page env n.master_sockfd p rights n.trace))
      → IfOk P (
          locks page (
            page >>= λ r. lock_page env n.master_sockfd r.1 rights n.trace >>= λ r'.
            ok (with n r.0 r'.0 r'.2, r'.1)))
  locks_rule P n addr rights (ok (i, p)) found h =
      IfOk-chain (λ x. P (x.0, after_lock i x.1)) P _ _
        (IfOk-chain (λ r. P (with n i r.0 r.2, after_lock i r.1)) _
          (lock_page env n.master_sockfd p rights n.trace) _ (h i p found) λ r k. k)
        λ x k. k
  locks_rule P n addr rights exit found h = tt
  locks_rule P n addr rights _ found h = tt

  got :
      (n : Node) (addr i : ℕ) (p : Page) (l : Lock) (t : List Event) (q : Page)
      → Found n addr (i, q)
      → Got (p, l, t)
      → Locking addr (with n i p t, after_lock i l)
  unfolding get_page_from_addr get_page_from_id
  got n addr i p held t q found (inl (e, busy)) =
      (i, found.0, inl (refl, (p, get_elem?-set n.mem.pages i q p found.1, busy)))
  got n addr i p waiting t q found (inl (e, busy)) = absurd (ground arith)
  got n addr i p held t q found (inr e) = absurd (ground arith)
  got n addr i p waiting t q found (inr e) = (i, found.0, inr refl)

  pub locks-Locking :
      (n : Node) (addr rights : ℕ)
      → IfOk (Locking addr) (locks (page_at n addr) (Locks n addr rights))
  unfolding Locks
  locks-Locking n addr rights =
      locks_rule (Locking addr) n addr rights (page_at n addr) (page_at-Found n addr) λ i q found.
        IfOk-mono Got _ (lock_page env n.master_sockfd q rights n.trace)
          (lock_page-Got n.master_sockfd q rights n.trace) λ r g. got n addr i r.0 r.1 r.2 q found g

  lock_page-LockKept :
      (fd : ℕ) (p : Page) (rights : ℕ) (t : List Event)
      → IfOk (λ r. LockKept p r.0) (lock_page env fd p rights t)
  unfolding lock_page
  lock_page-LockKept fd p rights t = elim (Bool-cases p.locked) [
    | inl busy ↦ rw (busy, lock_page) tt
    | inr idle ↦ IfOk-ok (λ r. LockKept p r.0) _ λ r run busy. absurd (ground (arith))
  ]

  pub locks-Kept :
      (n : Node) (addr rights : ℕ) → IfOk (KeptBy n) (locks (page_at n addr) (Locks n addr rights))
  unfolding Locks
  locks-Kept n addr rights =
      locks_rule (KeptBy n) n addr rights (page_at n addr) (page_at-Found n addr) λ i q found.
        IfOk-mono (λ r. LockKept q r.0) _ (lock_page env n.master_sockfd q rights n.trace)
          (lock_page-LockKept n.master_sockfd q rights n.trace)
          λ r k. with-Kept n i q r.0 r.2 found.1 k

  -- A second lock of the page waits for the caller's own mutex.
  pub locks-blocked :
      (n : Node) (addr rights i : ℕ)
      → get_page_from_addr n.mem addr ≡ some i
      → LockedAt n i
      → locks (page_at n addr) (Locks n addr rights) ≡ blocked
  unfolding Locks lock_page
  locks-blocked n addr rights i at (p, found, busy) =
      rw (page_at-eq n addr i p at found) (rw busy refl)
