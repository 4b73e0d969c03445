-- ===== src/Cluster/LockedOut.antt =====
-- The master's page when it was given away while the master's program has locked it.
use psar_dsm.Prelude.{ℕ, ◌≡◌, ◌≢◌, refl, true, false, List, [], ◌==◌, arith, ok, fault, IfOk}
use mathlib.Core.Path.{subst}
use psar_dsm.Memory.{Page, may_read, Directory, Request}
use psar_dsm.Message.{Event, Surroundings, up}
use psar_dsm.Core.{returns, serve}
use psar_dsm.Core.{satisfy_request}
use psar_dsm.Node.{Node}
use psar_dsm.Node.Api.{unlock_write_page}
use psar_dsm.Cluster.{
  Cluster, update, Step, locks, wakes, unlocks_read, unlocks_write, leaves, stores, hears_page,
  hears_invalidate, takes_request, takes_ack, takes_page, serves, grants, rests, Reach, here, next,
}
use psar_dsm.Cluster.Turns.{GrantedWriter, TurnIs, serve-TurnIs}
use psar_dsm.Cluster.Section.{
  lock_page-busy, lock_page_wake-busy, givepage_page-busy, invalidate_page-busy,
}

-- The page is away, without any right to it, and its mutex is held.
pub record IsLockedOut (p : Page) : Type 0 where
  pub locked : p.locked ≡ true
  pub away : p.uptodate ≡ false
  pub mapped : p.mapped ≡ 0

-- The page's memory cannot be read for the message.
unlock_write_page-fault :
    (env : Surroundings) (fd : ℕ) (p : Page) → p.mapped ≡ 0 → unlock_write_page env fd p [] ≡ fault
unfolding unlock_write_page satisfy_request
unlock_write_page-fault env fd p none =
    let cannot : may_read p.mapped ≡ false = ground arith in simp cannot refl

module _ {env : Surroundings} {station : ℕ → Node} where
  abbrev NotUnlocked : {s s' : Cluster} → Step env station s s' → Type 0
  NotUnlocked (unlocks_read j) = (0 == j) ≡ false
  NotUnlocked _ = Unit {0}

  -- The master's program does not call unlock_read.
  abbrev pub NeverUnlocked : {s t : Cluster} → Reach env station s t → Type 0
  NeverUnlocked here = Unit {0}
  NeverUnlocked (next r st) = NeverUnlocked r × NotUnlocked st

module _ (env : Surroundings) (works : (fd : ℕ) → env.link fd ≡ up) (station : ℕ → Node) where
  -- A step of node `j` that the master cannot take.
  unless_master :
      (s : Cluster) (j : ℕ) (p : Page)
      → ((j ≡ 0) → ⊥)
      → IsLockedOut (s.node 0)
      → IsLockedOut (update s.node j p 0)
  unless_master s j p not_own out = let other : (0 == j) ≡ false = ground arith in rw other out

  Step-IsLockedOut :
      {s s' : Cluster} (st : Step env station s s')
      → NotUnlocked st
      → IsLockedOut (s.node 0)
      → IsLockedOut (s'.node 0)
  Step-IsLockedOut {s} (locks j rights {p} {l} {t} run) k out =
      unless_master s j p
        (λ e.
          lock_page-busy env (station j).master_sockfd (s.node j) rights (p, l, t) (rw e out.locked)
            run)
        out
  Step-IsLockedOut {s} (wakes j {p} run) k out =
      unless_master s j p (λ e. lock_page_wake-busy (s.node j) p (rw e out.locked) run) out
  Step-IsLockedOut {s} (unlocks_read j) k out = rw k out
  Step-IsLockedOut {s} (unlocks_write j {p} {t} run) k out =
      unless_master s j p
        (λ e.
          (let faults =
              unlock_write_page-fault env (station j).master_sockfd (s.node j) (rw e out.mapped) in
            cc))
        out
  Step-IsLockedOut {s} (leaves j {p} slave run) k out = unless_master s j p slave out
  Step-IsLockedOut {s} (stores j bytes can sized) k out =
      unless_master s j (record (s.node j) { bytes = bytes })
        (λ e. (let none : (s.node j).mapped ≡ 0 = rw e out.mapped in ground arith)) out
  Step-IsLockedOut {s} (hears_page j fuel id rights {bytes} {rest} {p} {t} listens head run) k out =
      unless_master s j p
        (λ e.
          givepage_page-busy env fuel (record (station j) { is_master = false }) id rights bytes
            (s.node j) (p, t) (rw e out.locked) run)
        out
  Step-IsLockedOut {s} (hears_invalidate j from id {rest} {p} {t} listens head run) k out =
      unless_master s j p
        (λ e.
          invalidate_page-busy env (station j).mem.page_count from id (s.node j) (p, t)
            (rw e out.locked) run)
        out
  Step-IsLockedOut {s} (takes_request j id rights block idle head at added) k out = record {
    locked = out.locked;
    away = out.away;
    mapped = out.mapped;
  }
  Step-IsLockedOut {s} (takes_ack j id idle head at) k out = record {
    locked = out.locked;
    away = out.away;
    mapped = out.mapped;
  }
  Step-IsLockedOut {s} (takes_page j fuel id rights {bytes} {rest} {p} {t} idle head run) k out =
      absurd (
        givepage_page-busy env fuel (record (station 0) { is_master = false }) id rights bytes
          (s.node 0) (p, t) out.locked run)
  Step-IsLockedOut {s} (serves serving at items run) k out = record {
    locked = out.locked;
    away = out.away;
    mapped = out.mapped;
  }
  Step-IsLockedOut {s} (grants {d} {req} {rest} {p} {t} serving at items run) k out =
      absurd (not_granted (s.node 0) d req p t out.mapped run)
    where
      not_granted :
          (q : Page) (d : Directory) (req : Request) (p : Page) (t : List Event)
          → q.mapped ≡ 0
          → serve env q d req [] ≢ ok (returns p t)
      not_granted q d req p t none e =
          let granted : GrantedWriter q d req p t =
            subst (IfOk (TurnIs q d req)) e (serve-TurnIs env works q d req) in
          ground (arith, granted.readable)
  Step-IsLockedOut {s} (rests serving at none_left) k out = out

  Reach-IsLockedOut :
      {s t : Cluster} (r : Reach env station s t)
      → NeverUnlocked r
      → IsLockedOut (s.node 0)
      → IsLockedOut (t.node 0)
  Reach-IsLockedOut here k out = out
  Reach-IsLockedOut (next r st) k out = Step-IsLockedOut st k.1 (Reach-IsLockedOut r k.0 out)

  -- Where the page was taken from the master while the master's program holds its mutex, the page
  -- never comes back: the mutex stays held and the page away, without any right, and unlock_write
  -- faults, as long as the program does not call unlock_read. (Every socket works.)
  pub locked_out :
      {s t : Cluster} (r : Reach env station s t)
      → NeverUnlocked r
      → IsLockedOut (s.node 0)
      → IsLockedOut (t.node 0) × ((fd : ℕ) → unlock_write_page env fd (t.node 0) [] ≡ fault)
  locked_out r k out =
      let still = Reach-IsLockedOut r k out in
      (still, λ fd. unlock_write_page-fault env fd _ still.mapped)
