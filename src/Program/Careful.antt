-- ===== src/Program/Careful.antt =====
-- What a program that passes the check holds, and the page that a statement of it works on.
use psar_dsm.Prelude.{
  ℕ, zero, suc, ◌<◌, ◌≡◌, ◌≢◌, refl, sym, ◌∙◌, Bool, true, false, Option, none, some, List, [], ◌∷◌,
  ok, exit, Safe, arith, length, get_elem?,
}
use mathlib.Core.Path.{subst}
use psar_dsm.Memory.{Page, Memory, may_read, get_page_from_id, get_page_from_addr}
use psar_dsm.Message.{Message, Event, sent, Link, up, closed, broken, Surroundings, dsm_send_msg}
use psar_dsm.Cluster.{update}
use psar_dsm.Node.{Node}
use psar_dsm.Node.Api.{page_at, with, lock_page_wake}
use psar_dsm.Program.{Place, running, in_barrier, leaving, in_lock}
use psar_dsm.Program.Locking.{page_at-eq}
use psar_dsm.Program.Discipline.{Held, within, on_page}
use psar_dsm.Program.Ready.{Fits, Good, with-Good}

pub send-Safe :
    (env : Surroundings) (b : Bool) (P : Bool × List Event → Type 0) (fd : ℕ) (msg : Message)
    (t : List Event)
    → ((r : Bool × List Event) → P r)
    → Safe b P (dsm_send_msg env fd msg t)
unfolding dsm_send_msg
send-Safe env b P fd msg t h = by_link (env.link fd)
  where
    by_link :
        (l : Link)
        → Safe b P
            (elim l [ up ↦ ok (true, sent fd msg ∷ t) | closed ↦ ok (false, t) | broken ↦ exit ])
    by_link up = h _
    by_link closed = h _
    by_link broken = tt

update_self : (f : Held) (i : ℕ) (b : Bool) → update f i b i ≡ b
update_self f i b = ground arith

update_other : (f : Held) (i j : ℕ) (b : Bool) → j ≢ i → update f i b j ≡ f j
update_other f i j b other = ground arith

get_elem?-lt : (ps : List Page) (i : ℕ) → i < length ps → (p : Page) × (get_elem? ps i ≡ some p)
get_elem?-lt [] i h = absurd (omega arith)
get_elem?-lt (x ∷ ps) zero h = (x, refl)
get_elem?-lt (x ∷ ps) (suc i) h = get_elem?-lt ps i (omega arith)

module _ (writes : Bool) (m : Memory) where
  -- Where the thread stands, `held` is what it holds, or will hold when it wakes up in lock_page.
  abbrev pub At : Held → Node → Place → Type 0
  At held n (in_lock i) = (before : Held) × (held ≡ update before i true) × Good writes m before n
  At held n running = Good writes m held n
  At held n in_barrier = Good writes m held n
  At held n leaving = Good writes m held n

  same_lookup :
      (held : Held) (n : Node) (addr : ℕ)
      → Good writes m held n
      → get_page_from_addr n.mem addr ≡ get_page_from_addr m addr
  unfolding get_page_from_addr get_page_from_id
  same_lookup held n addr g = rw (g.size, g.count, g.base) refl

  -- The page that a checked statement works on.
  abbrev pub PageAt : Node → (addr : ℕ) → (ℕ → Bool) → Type 0
  PageAt n addr test =
      (i : ℕ) × (p : Page) × (page_at n addr ≡ ok (i, p))
      × (get_page_from_addr m addr ≡ some i)
      × (get_elem? n.mem.pages i ≡ some p)
      × (test i ≡ true)

  pub page_there :
      (held : Held) (n : Node) (addr : ℕ) (test : ℕ → Bool)
      → Good writes m held n
      → on_page m addr test ≡ true
      → PageAt n addr test
  page_there held n addr test g passes = by_page (get_page_from_addr m addr) refl passes
    where
      by_page :
          (o : Option ℕ)
          → get_page_from_addr m addr ≡ o
          → within m.page_count o test ≡ true
          → PageAt n addr test
      by_page none e h = cc
      by_page (some i) e h =
          let small : i < length n.mem.pages = ground (arith, g.counted) in
          let (p, found) = get_elem?-lt n.mem.pages i small in
          (
            i,
            p,
            page_at-eq n addr i p (same_lookup held n addr g ∙ e) found,
            e,
            found,
            ground arith,
          )

  -- A page of which the mutex is taken or given back.
  pub relocked-Fits :
      (b b' : Bool) (p : Page)
      → Fits writes m.pagesize b p
      → (b' ≡ true → p.uptodate ≡ true)
      → Fits writes m.pagesize b' (record p { locked = b' })
  relocked-Fits b b' p f here = record {
    ready = record {
      directory = f.ready.directory;
      mirrored = f.ready.mirrored;
      readable = f.ready.readable;
      granted_read = f.ready.granted_read;
      granted_write = f.ready.granted_write;
      sized = f.ready.sized;
    };
    locked = refl;
    here = here;
  }

  -- The page as lock_page leaves it when the thread wakes up and goes on.
  pub woken-Fits :
      (b : Bool) (p p' : Page)
      → Fits writes m.pagesize b p
      → lock_page_wake p ≡ ok p'
      → Fits writes m.pagesize true p'
  unfolding lock_page_wake
  woken-Fits b p p' f wake =
      let here : p.uptodate ≡ true = ground arith in
      let is : p' ≡ record p { locked = true } = ground arith in
      subst (Fits writes m.pagesize true) (sym is) (relocked-Fits b true p f λ e. here)

  -- The page is changed at `i`, of which the program holds `b` from now on.
  pub changed :
      (held : Held) (n : Node) (i : ℕ) (b : Bool) (p : Page) (t : List Event)
      → Good writes m held n
      → Fits writes m.pagesize b p
      → Good writes m (update held i b) (with n i p t)
  changed held n i b p t g f =
      with-Good writes m held (update held i b) n i p t g
        (subst (λ (k : Bool). Fits writes m.pagesize k p) (sym (update_self held i b)) f)
        λ j other. update_other held i j b other

  -- The page as it was, and another trace.
  pub unchanged :
      (held : Held) (n : Node) (i : ℕ) (p : Page) (t : List Event)
      → Good writes m held n
      → get_elem? n.mem.pages i ≡ some p
      → Good writes m held (with n i p t)
  unchanged held n i p t g found =
      with-Good writes m held held n i p t g (g.pages i p found) λ j other. refl

  -- A page that the program holds.
  pub held_page :
      (held : Held) (n : Node) (i : ℕ) (p : Page)
      → Good writes m held n
      → get_elem? n.mem.pages i ≡ some p
      → held i ≡ true
      → (p.locked ≡ true) × (p.uptodate ≡ true) × (may_read p.mapped ≡ true)
  held_page held n i p g found holds =
      let f = g.pages i p found in
      let busy : p.locked ≡ true = f.locked ∙ holds in
      (busy, f.here busy, f.ready.granted_read (f.here busy))
