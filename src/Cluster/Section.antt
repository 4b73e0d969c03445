-- ===== src/Cluster/Section.antt =====
-- A page between lock_page and unlock on a slave.
use psar_dsm.Prelude.{
  ℕ, ◌≡◌, ◌≢◌, refl, ap, ◌∙◌, true, false, List, [], ◌==◌, arith, ok, blocked, inl, inr,
  if◌then◌else◌, Bool-cases,
}
use psar_dsm.Memory.{Page, may_write}
use psar_dsm.Message.{Event, Surroundings, up}
use psar_dsm.Node.{Node}
use psar_dsm.Node.Handlers.{givepage_page, invalidate_page}
use psar_dsm.Node.Api.{Lock, lock_page, lock_page_wake}
use psar_dsm.Cluster.{
  Cluster, update, Step, locks, wakes, unlocks_read, unlocks_write, leaves, stores, hears_page,
  hears_invalidate, takes_request, takes_ack, takes_page, serves, grants, rests, Reach, here, next,
}
use psar_dsm.Cluster.Coherence.{start, slave_writes_alone}

module _ {env : Surroundings} {station : ℕ → Node} where
  -- The program of node `i` does not unlock the page and does not leave.
  abbrev Keeps : (i : ℕ) {s s' : Cluster} → Step env station s s' → Type 0
  Keeps i (unlocks_read j) = (i == j) ≡ false
  Keeps i (unlocks_write j run) = (i == j) ≡ false
  Keeps i (leaves j slave run) = (i == j) ≡ false
  Keeps i _ = Unit {0}

  abbrev pub AllKeep : (i : ℕ) {s t : Cluster} → Reach env station s t → Type 0
  AllKeep i here = Unit {0}
  AllKeep i (next r st) = AllKeep i r × Keeps i st

  -- The bytes that the program of node `i` stored last, or those that were there.
  abbrev own : (i : ℕ) {s s' : Cluster} → Step env station s s' → List ℕ → List ℕ
  own i (stores j bytes can sized) old = if i == j then bytes else old
  own i _ old = old

  abbrev pub stored : (i : ℕ) {s t : Cluster} → Reach env station s t → List ℕ → List ℕ
  stored i here old = old
  stored i (next r st) old = own i st (stored i r old)

Reach-trans :
    (env : Surroundings) (station : ℕ → Node) (s t u : Cluster)
    → Reach env station s t
    → Reach env station t u
    → Reach env station s u
Reach-trans env station s t _ r here = r
Reach-trans env station s t u r (next r' step) = next (Reach-trans env station s t _ r r') step

-- No call goes on while the mutex of the page is held.
pub lock_page-busy :
    (env : Surroundings) (fd : ℕ) (p : Page) (rights : ℕ) (r : Page × Lock × List Event)
    → p.locked ≡ true
    → lock_page env fd p rights [] ≢ ok r
unfolding lock_page
lock_page-busy env fd p rights r busy e = ground arith

lock_page-blocked :
    (env : Surroundings) (fd : ℕ) (p : Page) (rights : ℕ)
    → p.locked ≡ true
    → lock_page env fd p rights [] ≡ blocked
unfolding lock_page
lock_page-blocked env fd p rights busy = simp busy refl

pub lock_page_wake-busy : (p p' : Page) → p.locked ≡ true → lock_page_wake p ≢ ok p'
unfolding lock_page_wake
lock_page_wake-busy p p' busy e = ground arith

pub givepage_page-busy :
    (env : Surroundings) (fuel : ℕ) (n : Node) (id rights : ℕ) (bytes : List ℕ) (p : Page)
    (r : Page × List Event)
    → p.locked ≡ true
    → givepage_page env fuel n id rights bytes p [] ≢ ok r
unfolding givepage_page
givepage_page-busy env fuel n id rights bytes p r busy e = ground arith

pub invalidate_page-busy :
    (env : Surroundings) (count from id : ℕ) (p : Page) (r : Page × List Event)
    → p.locked ≡ true
    → invalidate_page env count from id p [] ≢ ok r
unfolding invalidate_page
invalidate_page-busy env count from id p r busy e = ground arith

module _ (env : Surroundings) (station : ℕ → Node) (i : ℕ) (slave : i ≢ 0) where
  not_master : (i == 0) ≡ false
  not_master = ground arith

  -- Node `i` has what it had but for the bytes.
  abbrev Same : Page → List ℕ → Page → Type 0
  Same p bytes q = q ≡ record p { bytes = bytes }

  -- A step of node `j` that cannot be one of node `i` leaves the page of node `i`.
  other_node : (s : Cluster) (j : ℕ) (p : Page) → (i == j) ≡ false → update s.node j p i ≡ s.node i
  other_node s j p ne = rw ne refl

  unless_same :
      (s : Cluster) (j : ℕ) (p : Page) → ((i == j) ≡ true → ⊥) → update s.node j p i ≡ s.node i
  unless_same s j p not_own = elim (Bool-cases (i == j)) [
    | inl e ↦ absurd (not_own e)
    | inr e ↦ other_node s j p e
  ]

  Step-page :
      {s s' : Cluster} (st : Step env station s s')
      → (s.node i).locked ≡ true
      → Keeps i st
      → s'.node i ≡ record (s.node i) { bytes = own i st (s.node i).bytes }
  Step-page {s} (locks j rights {p} {l} {t} run) busy k = unless_same s j p λ e.
      lock_page-busy env (station j).master_sockfd (s.node j) rights (p, l, t)
        (let same : j ≡ i = ground arith in rw same busy) run
  Step-page {s} (wakes j {p} run) busy k =
      unless_same s j p
        λ e. lock_page_wake-busy (s.node j) p (let same : j ≡ i = ground arith in rw same busy) run
  Step-page {s} (unlocks_read j) busy k = other_node s j (record (s.node j) { locked = false }) k
  Step-page {s} (unlocks_write j {p} run) busy k = other_node s j p k
  Step-page {s} (leaves j {p} other run) busy k = other_node s j p k
  Step-page {s} (stores j bytes can sized) busy k = elim (Bool-cases (i == j)) [
    | inl e ↦ (let same : j ≡ i = ground arith in rw (e, same) refl)
    | inr e ↦ rw e refl
  ]
  Step-page {s} (hears_page j fuel id rights {bytes} {rest} {p} {t} listens head run) busy k =
      unless_same s j p λ e.
        givepage_page-busy env fuel (record (station j) { is_master = false }) id rights bytes
          (s.node j) (p, t) (let same : j ≡ i = ground arith in rw same busy) run
  Step-page {s} (hears_invalidate j from id {rest} {p} {t} listens head run) busy k =
      unless_same s j p λ e.
        invalidate_page-busy env (station j).mem.page_count from id (s.node j) (p, t)
          (let same : j ≡ i = ground arith in rw same busy) run
  Step-page {s} (takes_request j id rights block idle head at added) busy k = rw not_master refl
  Step-page {s} (takes_ack j id idle head at) busy k = rw not_master refl
  Step-page {s} (takes_page j fuel id rights idle head run) busy k = rw not_master refl
  Step-page {s} (serves serving at items run) busy k = rw not_master refl
  Step-page {s} (grants serving at items run) busy k = rw not_master refl
  Step-page {s} (rests serving at none_left) busy k = refl

  -- From the lock of a page on a slave until its program unlocks it or leaves, the page's record and
  -- the right that the hardware enforces stay as they are, and its bytes change only by what the
  -- program itself stores, whatever the other nodes and the node's own listener do.
  pub critical_section :
      {s t : Cluster} (r : Reach env station s t)
      → (s.node i).locked ≡ true
      → AllKeep i r
      → t.node i ≡ record (s.node i) { bytes = stored i r (s.node i).bytes }
  critical_section here busy k = refl
  critical_section {s} (next {t} r st) busy k =
      let before = critical_section r busy k.0 in
      let still = ap (λ (p : Page). p.locked) before ∙ busy in
      Step-page st still k.1 ∙ ap (λ (p : Page). record p { bytes = own i st p.bytes }) before

  -- From the lock of a page on a slave that may write it until its program unlocks it or leaves, the
  -- slave keeps the right to write and no other node, the master included, has any right to the page.
  -- (The page starts as dsm_memory_init leaves it, and every socket works.)
  pub critical_section_alone :
      (works : (fd : ℕ) → env.link fd ≡ up) (id : ℕ) (zeros : List ℕ) {s t : Cluster}
      → Reach env station (start id zeros) s
      → (r : Reach env station s t) → (s.node i).locked ≡ true
      → may_write (s.node i).mapped ≡ true
      → AllKeep i r
      → (may_write (t.node i).mapped ≡ true) × ((j : ℕ) → j ≢ i → (t.node j).mapped ≡ 0)
  critical_section_alone works id zeros {s} {t} before r busy writes k =
      let on : may_write (t.node i).mapped ≡ true =
        ap (λ (p : Page). may_write p.mapped) (critical_section r busy k) ∙ writes in
      (
        on,
        slave_writes_alone env works station id zeros
            (Reach-trans env station (start id zeros) s t before r) i slave on,
      )

  -- A program of a slave that locks a page again, for whatever right, before it has unlocked it waits
  -- for its own mutex, and goes on waiting whatever the other nodes and the node's listener do.
  pub relock_blocked :
      {s t : Cluster} (r : Reach env station s t) (fd rights : ℕ)
      → (s.node i).locked ≡ true
      → AllKeep i r
      → lock_page env fd (t.node i) rights [] ≡ blocked
  relock_blocked r fd rights busy k =
      lock_page-blocked env fd _ rights
        (ap (λ (p : Page). p.locked) (critical_section r busy k) ∙ busy)
