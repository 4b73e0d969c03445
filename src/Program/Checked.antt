-- ===== src/Program/Checked.antt =====
-- A program that passes the check, on a slave, beside the node's listener.
use psar_dsm.Prelude.{
  ℕ, ◌+◌, ◌<◌, ◌≡◌, ◌≢◌, refl, sym, ◌⊎◌, inl, inr, Bool, true, false, ◌&&◌, some, List, [], ◌∷◌,
  Run, ok, exit, fault, blocked, IfOk, Safe, Safe-chain, Safe-weaken, cases-Safe, arith, length,
  get_elem?,
}
use mathlib.Core.Path.{subst}
use psar_dsm.Memory.{Page, Memory, prot_read, prot_write}
use psar_dsm.Message.{Event, Surroundings, dsm_send_msg}
use psar_dsm.Node.{Node}
use psar_dsm.Node.Api.{
  with, lock_read, lock_write, unlock_read, unlock_write, wait_barrier, terminate, lock_page_wake,
}
use psar_dsm.Node.CallInvariant.{
  locks_read, locks_write, unlocks_read, unlocks_write, waits_barrier, terminates,
}
use psar_dsm.Program.{
  Statement, calls, stores, prints_int, prints_text, Place, running, in_barrier, leaving, in_lock,
  store_bytes, load_bytes, load_text, bytes_from, int_size, run_statement, Thread, Step, hears,
  runs, wakes, opens, leaves, Reach, here, next,
}
use psar_dsm.Program.Locking.{Locks}
use psar_dsm.Program.Discipline.{
  Held, nothing_held, set_at, all_on_pages, is_nil, checks, is_text, AllGive, StepGives,
}
use psar_dsm.Program.Ready.{Good, with_trace-Good}
use psar_dsm.Program.Heard.{dispatch-Good}
use psar_dsm.Program.Careful.{send-Safe, At, changed, woken-Fits}
use psar_dsm.Program.Mutexes.{locks-Safe, unlock_read-Safe, unlock_write-Safe}
use psar_dsm.Program.Accesses.{store_bytes-Safe, load_bytes-Safe, load_text-Safe, terminate-Safe}

nil_of : (cs : List Statement) → is_nil cs ≡ true → cs ≡ []
nil_of [] e = refl
nil_of (c ∷ cs) e = cc

module _ (writes : Bool) (m : Memory) (sized : 0 < m.pagesize) (env : Surroundings) where
  -- Either nothing is left to run, or what is left passes the check from what is held.
  abbrev Left : List Statement → Node × Place → Type 0
  Left rest r =
      (rest ≡ []) ⊎ ((held : Held) × At writes m held r.0 r.1 × (checks writes m held rest ≡ true))

  stores-Safe :
      (w : Bool) (held : Held) (n : Node) (addr : ℕ) (bytes : List ℕ)
      → Good w m held n
      → (w && all_on_pages m addr (length bytes) held) ≡ true
      → Safe false (Good w m held) (store_bytes n addr bytes)
  stores-Safe true held n addr bytes g passes = store_bytes-Safe m held n addr bytes g passes
  stores-Safe false held n addr bytes g passes = cc

  run_statement-Safe :
      (held : Held) (n : Node) (c : Statement) (rest : List Statement)
      → Good writes m held n
      → checks writes m held (c ∷ rest) ≡ true
      → Safe (is_text c) (Left rest) (run_statement env n c)
  unfolding checks run_statement lock_read lock_write wait_barrier Locks
  run_statement-Safe held n (calls (locks_read addr)) rest g passes =
      Safe-weaken false (λ r. At writes m (set_at m addr true held) r.0 r.1) (Left rest) _
        (locks-Safe writes m env held n addr prot_read g (ground arith))
        λ r at. inr (set_at m addr true held, at, ground arith)
  run_statement-Safe held n (calls (locks_write addr)) rest g passes =
      Safe-weaken false (λ r. At writes m (set_at m addr true held) r.0 r.1) (Left rest) _
        (locks-Safe writes m env held n addr (prot_read + prot_write) g (ground arith))
        λ r at. inr (set_at m addr true held, at, ground arith)
  run_statement-Safe held n (calls (unlocks_read addr)) rest g passes =
      Safe-chain false (Good writes m (set_at m addr false held)) (Left rest)
        (unlock_read env n addr) _ (unlock_read-Safe writes m env held n addr g (ground arith))
        λ n' g'. inr (set_at m addr false held, g', ground arith)
  run_statement-Safe held n (calls (unlocks_write addr)) rest g passes =
      Safe-chain false (Good writes m (set_at m addr false held)) (Left rest)
        (unlock_write env n addr) _ (unlock_write-Safe writes m env held n addr g (ground arith))
        λ n' g'. inr (set_at m addr false held, g', ground arith)
  run_statement-Safe held n (calls (waits_barrier k)) rest g passes =
      Safe-chain false (Good writes m held) (Left rest) (wait_barrier env n k) _
        (Safe-chain false (λ (r : Bool × List Event). Unit {0}) _
          (dsm_send_msg env n.master_sockfd _ n.trace) _
          (send-Safe env false (λ r. Unit {0}) n.master_sockfd _ n.trace λ r. tt)
          λ r u.
            cases-Safe false (Good writes m held) r.0 _ exit
              (λ e. with_trace-Good writes m held n r.1 g) λ e. tt)
        λ n' g'. inr (held, g', passes)
  run_statement-Safe held n (calls terminates) rest g passes =
      Safe-chain false (λ n'. Unit {0}) (Left rest) (terminate env n) _
        (terminate-Safe env writes m held n g) λ n' u. inl (nil_of rest passes)
  run_statement-Safe held n (stores addr bytes) rest g passes =
      Safe-chain false (Good writes m held) (Left rest) (store_bytes n addr bytes) _
        (stores-Safe writes held n addr bytes g (ground arith))
        λ n' g'. inr (held, g', ground arith)
  run_statement-Safe held n (prints_int addr) rest g passes =
      Safe-chain false (λ bs. Unit {0}) (Left rest) (load_bytes n addr int_size) _
        (load_bytes-Safe writes m held n g addr int_size sized (ground arith))
        λ bs u. inr (held, g, ground arith)
  run_statement-Safe held n (prints_text addr) rest g passes =
      Safe-chain true (λ bs. Unit {0}) (Left rest) (load_text n addr (bytes_from n.mem addr)) _
        (load_text-Safe n addr (bytes_from n.mem addr)) λ bs u. inr (held, g, passes)

  -- Where the thread stands, in any order of its steps and the listener's.
  data Fine (s : Thread) : Type 0 where
    over : s.rest ≡ [] → Fine s
    under :
        (held : Held)
        → At writes m held s.node s.place
        → checks writes m held s.rest ≡ true
        → Fine s

  heard :
      (held : Held) (n n' : Node) (place : Place)
      → ((h : Held) → Good writes m h n → Good writes m h n')
      → At writes m held n place
      → At writes m held n' place
  heard held n n' running keep at = keep held at
  heard held n n' in_barrier keep at = keep held at
  heard held n n' leaving keep at = keep held at
  heard held n n' (in_lock i) keep (before, is, g) = (before, is, keep before g)

  -- A thread that is not asleep in lock_page.
  awake :
      (held : Held) (n : Node) (place : Place)
      → ((i : ℕ) → place ≢ in_lock i)
      → At writes m held n place
      → Good writes m held n
  awake held n running other at = at
  awake held n in_barrier other at = at
  awake held n leaving other at = at
  awake held n (in_lock i) other at = absurd (other i refl)

  runs-Fine :
      (s : Thread) (c : Statement) (rest : List Statement) (n : Node) (place : Place)
      → s.place ≡ running
      → s.rest ≡ c ∷ rest
      → run_statement env s.node c ≡ ok (n, place)
      → Fine s
      → Fine (record { node = n; place = place; rest = rest })
  runs-Fine s c rest n place up is run (over nothing) = absurd cc
  runs-Fine s c rest n place up is run (under held at passes) =
      let g = awake held s.node s.place (λ i e. absurd cc) at in
      let passes' = subst (λ (cs : List Statement). checks writes m held cs ≡ true) is passes in
      elim (subst (Safe (is_text c) (Left rest)) run
        (run_statement-Safe held s.node c rest g passes')) [
          | inl nothing ↦ over nothing
          | inr (held', at', passes'') ↦ under held' at' passes''
        ]

  wakes-Fine :
      (s : Thread) (i : ℕ) (p p' : Page)
      → s.place ≡ in_lock i
      → get_elem? s.node.mem.pages i ≡ some p
      → lock_page_wake p ≡ ok p'
      → Fine s
      → Fine (record s { node = with s.node i p' s.node.trace; place = running })
  wakes-Fine s i p p' place found wake (over nothing) = over nothing
  wakes-Fine s i p p' place found wake (under held at passes) =
      let (before, is, g) = subst (At writes m held s.node) place at in
      under held
        (subst (λ (h : Held). Good writes m h (with s.node i p' s.node.trace)) (sym is)
          (changed writes m before s.node i true p' s.node.trace g
            (woken-Fits writes m (before i) p p' (g.pages i p found) wake)))
        passes

  Step-Fine : {s t : Thread} (st : Step env s t) → StepGives writes st → Fine s → Fine t
  Step-Fine (hears fuel block from msg run) gives (over nothing) = over nothing
  Step-Fine {s} (hears fuel block from msg {n} run) gives (under held at passes) =
      under held
        (heard held s.node n s.place
          (λ h g.
            subst (IfOk (Good writes m h)) run
              (dispatch-Good writes m env h fuel block s.node from msg gives g))
          at)
        passes
  Step-Fine {s} (runs {c} {rest} {n} {place} up is run) gives f =
      runs-Fine s c rest n place up is run f
  Step-Fine {s} (wakes i {p} {p'} place found wake) gives f = wakes-Fine s i p p' place found wake f
  Step-Fine (opens place) gives (over nothing) = over nothing
  Step-Fine {s} (opens place) gives (under held at passes) =
      under held (awake held s.node s.place (λ i e. absurd cc) at) passes
  Step-Fine (leaves place alone) gives (over nothing) = over nothing
  Step-Fine {s} (leaves place alone) gives (under held at passes) =
      under held (awake held s.node s.place (λ i e. absurd cc) at) passes

  Reach-Fine : {s t : Thread} (r : Reach env s t) → AllGive writes r → Fine s → Fine t
  Reach-Fine here gives f = f
  Reach-Fine (next r st) gives f = Step-Fine st gives.1 (Reach-Fine r gives.0 f)

Safe-ne_blocked {ℓ} :
    {A : Type ℓ} (b : Bool) (P : A → Type 0) (r : Run A) → Safe b P r → r ≢ blocked
Safe-ne_blocked b P r h e = absurd (subst (Safe b P) e h)

Safe-ne_fault {ℓ} :
    {A : Type ℓ} (b : Bool) (P : A → Type 0) (r : Run A) → Safe b P r → b ≡ false → r ≢ fault
Safe-ne_fault b P r h never e = absurd (let may : b ≡ true = subst (Safe b P) e h in cc)

-- Where a program that passes the check runs on a slave, no statement waits for a mutex that the
-- program itself holds, and none but the printf of a text faults, whatever messages the listener
-- handles and whenever the thread is woken. (Each page comes with the right to read it, and to write it
-- if the program stores; the slave starts with nothing locked, and what it has up to date can be used
-- so.)
pub checks-Safe :
    (env : Surroundings) (writes : Bool) (s t : Thread) (c : Statement) (rest : List Statement)
    → 0 < s.node.mem.pagesize
    → s.place ≡ running
    → Good writes s.node.mem nothing_held s.node
    → checks writes s.node.mem nothing_held s.rest ≡ true
    → (r : Reach env s t) → AllGive writes r
    → t.place ≡ running
    → t.rest ≡ c ∷ rest
    → (run_statement env t.node c ≢ blocked)
      × (is_text c ≡ false → run_statement env t.node c ≢ fault)
checks-Safe env writes s t c rest sized starts g passes r gives up is =
    let m = s.node.mem in
    elim (Reach-Fine writes m sized env r gives
      (under nothing_held (subst (At writes m nothing_held s.node) (sym starts) g) passes)) [
        | over nothing ↦ absurd cc
        | under held at passes' ↦
            let g' = awake writes m sized env held t.node t.place (λ i e. absurd cc) at in
            let k = subst (λ (cs : List Statement). checks writes m held cs ≡ true) is passes' in
            let safe = run_statement-Safe writes m sized env held t.node c rest g' k in
            (Safe-ne_blocked (is_text c) _ _ safe, Safe-ne_fault (is_text c) _ _ safe)
      ]
