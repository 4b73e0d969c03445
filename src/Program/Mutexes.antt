-- ===== src/Program/Mutexes.antt =====
-- The locks and unlocks of a program that passes the check (lock_page of dsm_core.c, unlock_read and
-- unlock_write of dsm.c): none waits for a mutex that the program holds, and none faults.
use psar_dsm.Prelude.{
  ℕ, ◌≡◌, refl, sym, ap, Bool, true, false, not, Option, some, List, Safe, Safe-chain, cases-Safe,
  arith, get_elem?,
}
use mathlib.Core.Path.{subst}
use psar_dsm.Memory.{Page, Memory}
use psar_dsm.Message.{givepage, lockpage, Event, Surroundings, dsm_send_msg}
use psar_dsm.Core.{satisfy_request, giveup_localpage}
use psar_dsm.Cluster.{update}
use psar_dsm.Node.{Node}
use psar_dsm.Node.Api.{Lock, page_at, with, lock_page, unlock_read, unlock_write_page, unlock_write}
use psar_dsm.Program.{after_lock, locks}
use psar_dsm.Program.Locking.{Locks}
use psar_dsm.Program.Discipline.{Held, on_page, set_in, set_at}
use psar_dsm.Program.Ready.{Fits, Good}
use psar_dsm.Program.Careful.{
  send-Safe, At, page_there, relocked-Fits, changed, unchanged, held_page,
}

module _ (writes : Bool) (m : Memory) (env : Surroundings) where
  lock_page-Safe :
      (held : Held) (n : Node) (i : ℕ) (p : Page) (fd rights : ℕ) (t : List Event)
      → Good writes m held n
      → get_elem? n.mem.pages i ≡ some p
      → held i ≡ false
      → Safe false
          (λ r. At writes m (update held i true) (with n i r.0 r.2) (after_lock i r.1))
          (lock_page env fd p rights t)
  unfolding lock_page
  lock_page-Safe held n i p fd rights t g found free =
      let f = g.pages i p found in
      cases-Safe false _ p.locked _ _ (λ busy. absurd (ground arith))
        λ idle.
          cases-Safe false _ p.uptodate _ _
            (λ here.
              changed writes m held n i true (record p { locked = true }) t g
                (relocked-Fits writes m (held i) true p f λ e. here))
            λ away.
              Safe-chain false (λ r. Unit {0}) _ (dsm_send_msg env fd (lockpage p.page_id rights) t)
                _ (send-Safe env false (λ r. Unit {0}) fd (lockpage p.page_id rights) t λ r. tt)
                λ r u.
                  cases-Safe false _ r.0 _ _
                    (λ sent. (held, refl, unchanged writes m held n i p r.1 g found)) λ unsent. tt

  pub locks-Safe :
      (held : Held) (n : Node) (addr rights : ℕ)
      → Good writes m held n
      → on_page m addr (λ i. not (held i)) ≡ true
      → Safe false
          (λ r. At writes m (set_at m addr true held) r.0 r.1)
          (locks (page_at n addr) (Locks env n addr rights))
  unfolding Locks
  locks-Safe held n addr rights g passes =
      let (i, p, at, lookup, found, free) =
        page_there writes m held n addr (λ i. not (held i)) g passes in
      let free' : held i ≡ false = ground arith in
      let after : set_at m addr true held ≡ update held i true =
        ap (λ (o : Option ℕ). set_in o true held) lookup in
      subst
        (λ (h : Held).
          Safe false (λ r. At writes m h r.0 r.1)
            (locks (page_at n addr) (Locks env n addr rights)))
        (sym after)
        (rw at (
          Safe-chain false
            (λ (x : Node × Lock). At writes m (update held i true) x.0 (after_lock i x.1)) _ _ _
            (Safe-chain false
              (λ (r : Page × Lock × List Event).
                At writes m (update held i true) (with n i r.0 r.2) (after_lock i r.1))
              _ (lock_page env n.master_sockfd p rights n.trace) _
              (lock_page-Safe held n i p n.master_sockfd rights n.trace g found free') λ r k. k)
            λ x k. k))

  pub unlock_read-Safe :
      (held : Held) (n : Node) (addr : ℕ)
      → Good writes m held n
      → on_page m addr held ≡ true
      → Safe false (Good writes m (set_at m addr false held)) (unlock_read env n addr)
  unfolding unlock_read
  unlock_read-Safe held n addr g passes =
      let (i, p, at, lookup, found, holds) = page_there writes m held n addr held g passes in
      let after : set_at m addr false held ≡ update held i false =
        ap (λ (o : Option ℕ). set_in o false held) lookup in
      subst (λ (h : Held). Safe false (Good writes m h) (unlock_read env n addr)) (sym after)
        (rw at (
          changed writes m held n i false (record p { locked = false }) n.trace g
            (relocked-Fits writes m (held i) false p (g.pages i p found) λ e. absurd cc)))

  given_up-Fits :
      (b : Bool) (p : Page) (fd : ℕ)
      → Fits writes m.pagesize b p
      → Fits writes m.pagesize false (record (giveup_localpage p fd) { locked = false })
  unfolding giveup_localpage
  given_up-Fits b p fd f = record {
    ready = record {
      directory = f.ready.directory;
      mirrored = refl;
      readable = λ e. absurd (ground arith);
      granted_read = λ e. absurd (ground arith);
      granted_write = λ e w. absurd (ground arith);
      sized = f.ready.sized;
    };
    locked = refl;
    here = λ e. absurd (ground arith);
  }

  pub unlock_write-Safe :
      (held : Held) (n : Node) (addr : ℕ)
      → Good writes m held n
      → on_page m addr held ≡ true
      → Safe false (Good writes m (set_at m addr false held)) (unlock_write env n addr)
  unfolding unlock_write unlock_write_page satisfy_request
  unlock_write-Safe held n addr g passes =
      let (i, p, at, lookup, found, holds) = page_there writes m held n addr held g passes in
      let (busy, here, reads) = held_page writes m held n i p g found holds in
      let after : set_at m addr false held ≡ update held i false =
        ap (λ (o : Option ℕ). set_in o false held) lookup in
      subst (λ (h : Held). Safe false (Good writes m h) (unlock_write env n addr)) (sym after)
        (rw (at, reads)
          (Safe-chain false (λ (r : Page × List Event). Fits writes m.pagesize false r.0) _ _ _
            (Safe-chain false (λ (r : Bool × List Event). Unit {0}) _
              (dsm_send_msg env n.master_sockfd (givepage p.page_id p.protection p.bytes) n.trace) _
              (send-Safe env false (λ r. Unit {0}) n.master_sockfd
                (givepage p.page_id p.protection p.bytes) n.trace λ r. tt)
              λ r u. given_up-Fits (held i) p n.master_sockfd (g.pages i p found))
            λ r f. changed writes m held n i false r.0 r.1 g f))
