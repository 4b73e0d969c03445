-- ===== src/Program/Accesses.antt =====
-- The stores and loads of a program that passes the check, and the end of its use of the library
-- (terminate of dsm_core.c): none faults but the printf of a text that runs on.
use psar_dsm.Prelude.{
  ℕ, zero, suc, ◌+◌, ◌<◌, ◌≡◌, refl, ap, ◌∙◌, Bool, true, false, Option, none, some, List, [], ◌∷◌,
  ◌==◌, ok, exit, fault, Safe, Safe-chain, cases-Safe, arith, length, length-set, set, get_elem?,
  Option-cases, inl, inr,
}
use native.Mathlib.Nat.{mod-lt}
use psar_dsm.Memory.{
  Page, Memory, Request, may_read, may_write, prot_read, prot_write, get_page_from_addr,
}
use psar_dsm.Message.{terminate_msg, Event, Surroundings, dsm_send_msg}
use psar_dsm.Core.{satisfy_request}
use psar_dsm.Node.{Node}
use psar_dsm.Node.Api.{page_at, to_master, give_back, terminate}
use psar_dsm.Program.{offset, store_byte, store_bytes, load_byte, load_bytes, load_text}
use psar_dsm.Program.Discipline.{Held, on_page, all_on_pages}
use psar_dsm.Program.Ready.{Good, with-Good}
use psar_dsm.Program.Careful.{send-Safe, page_there, held_page}

module _ (m : Memory) (held : Held) where
  store_byte-Safe :
      (n : Node) (addr byte : ℕ)
      → Good true m held n
      → on_page m addr held ≡ true
      → Safe false (Good true m held) (store_byte n addr byte)
  unfolding store_byte
  store_byte-Safe n addr byte g passes =
      let (i, p, at, lookup, found, holds) = page_there true m held n addr held g passes in
      let (busy, here, reads) = held_page true m held n i p g found holds in
      let f = g.pages i p found in
      let stores : may_write p.mapped ≡ true = f.ready.granted_write here refl in
      rw (at, stores)
        (with-Good true m held held n i (record p { bytes = set p.bytes (offset n.mem addr) byte })
          n.trace g
          (record {
            ready = record {
              directory = f.ready.directory;
              mirrored = f.ready.mirrored;
              readable = f.ready.readable;
              granted_read = f.ready.granted_read;
              granted_write = f.ready.granted_write;
              sized = length-set p.bytes (offset n.mem addr) byte ∙ f.ready.sized;
            };
            locked = f.locked;
            here = f.here;
          })
          λ j other. refl)

  pub store_bytes-Safe :
      (n : Node) (addr : ℕ) (bytes : List ℕ)
      → Good true m held n
      → all_on_pages m addr (length bytes) held ≡ true
      → Safe false (Good true m held) (store_bytes n addr bytes)
  unfolding store_bytes
  store_bytes-Safe n addr [] g passes = g
  store_bytes-Safe n addr (b ∷ bs) g passes =
      Safe-chain false (Good true m held) _ (store_byte n addr b) _
        (store_byte-Safe n addr b g (ground arith))
        λ n' g'. store_bytes-Safe n' (addr + 1) bs g' (ground arith)

module _ (writes : Bool) (m : Memory) (held : Held) (n : Node) (g : Good writes m held n) where
  get_elem?-lt : (bs : List ℕ) (i : ℕ) → i < length bs → (b : ℕ) × (get_elem? bs i ≡ some b)
  get_elem?-lt [] i h = absurd (omega arith)
  get_elem?-lt (x ∷ bs) zero h = (x, refl)
  get_elem?-lt (x ∷ bs) (suc i) h = get_elem?-lt bs i (omega arith)

  load_byte-Safe :
      (addr : ℕ)
      → 0 < m.pagesize
      → on_page m addr held ≡ true
      → Safe false (λ b. Unit {0}) (load_byte n addr)
  unfolding load_byte
  load_byte-Safe addr sized passes =
      let (i, p, at, lookup, found, holds) = page_there writes m held n addr held g passes in
      let (busy, here, reads) = held_page writes m held n i p g found holds in
      let full : length p.bytes ≡ m.pagesize = (g.pages i p found).ready.sized in
      let pos : 0 < n.mem.pagesize = omega (arith, g.size) in
      let small : offset n.mem addr < n.mem.pagesize = mod-lt _ pos in
      let inside : offset n.mem addr < length p.bytes = omega (arith, g.size, full, small) in
      let (b, e) = get_elem?-lt p.bytes (offset n.mem addr) inside in rw (at, reads, e) tt

  pub load_bytes-Safe :
      (addr k : ℕ)
      → 0 < m.pagesize
      → all_on_pages m addr k held ≡ true
      → Safe false (λ bs. Unit {0}) (load_bytes n addr k)
  unfolding load_bytes
  load_bytes-Safe addr zero sized passes = tt
  load_bytes-Safe addr (suc k) sized passes =
      Safe-chain false (λ b. Unit {0}) _ (load_byte n addr) _
        (load_byte-Safe addr sized (ground arith))
        λ b u.
          Safe-chain false (λ bs. Unit {0}) _ (load_bytes n (addr + 1) k) _
            (load_bytes-Safe (addr + 1) k sized (ground arith)) λ bs v. tt

page_at-Safe : (n : Node) (addr : ℕ) → Safe true (λ r. Unit {0}) (page_at n addr)
unfolding page_at
page_at-Safe n addr = elim (Option-cases (get_page_from_addr n.mem addr)) [
  | inl e ↦ rw (e, page_at) refl
  | inr (i, e) ↦ elim (Option-cases (get_elem? n.mem.pages i)) [
    | inl e' ↦ rw (e, e', page_at) refl
    | inr (p, e') ↦ rw (e, e', page_at) tt
  ]
]

load_byte_text : (n : Node) (addr : ℕ) → Safe true (λ b. Unit {0}) (load_byte n addr)
unfolding load_byte
load_byte_text n addr =
    Safe-chain true (λ r. Unit {0}) _ (page_at n addr) _ (page_at-Safe n addr)
      λ r u.
        cases-Safe true _ (may_read r.1.mapped) _ fault
          (λ e. by_byte (get_elem? r.1.bytes (offset n.mem addr))) λ e. refl
  where
    by_byte : (o : Option ℕ) → Safe true (λ b. Unit {0}) (elim o [ none ↦ fault | some b ↦ ok b ])
    by_byte none = refl
    by_byte (some b) = tt

pub load_text-Safe : (n : Node) (addr k : ℕ) → Safe true (λ bs. Unit {0}) (load_text n addr k)
unfolding load_text
load_text-Safe n addr zero = refl
load_text-Safe n addr (suc k) =
    Safe-chain true (λ b. Unit {0}) _ (load_byte n addr) _ (load_byte_text n addr)
      λ b u.
        cases-Safe true _ (b == 0) _ _ (λ e. tt)
          λ e.
            Safe-chain true (λ bs. Unit {0}) _ (load_text n (addr + 1) k) _
              (load_text-Safe n (addr + 1) k) λ bs v. tt

-- What is mapped for writing can be read.
abbrev AllReadable : List Page → Type 0
AllReadable ps =
    (i : ℕ) (p : Page)
    → get_elem? ps i ≡ some p
    → may_write p.protection ≡ true
    → may_read p.mapped ≡ true

module _ (env : Surroundings) where
  satisfy_request-Safe :
      (p : Page) (req : Request) (t : List Event)
      → may_read p.mapped ≡ true
      → Safe false (λ r. Unit {0}) (satisfy_request env p req t)
  unfolding satisfy_request
  satisfy_request-Safe p req t reads =
      rw reads (send-Safe env false (λ r. Unit {0}) req.sockfd _ t λ r. tt)

  give_back-Safe :
      (fd : ℕ) (ps : List Page) (t : List Event)
      → AllReadable ps
      → Safe false (λ r. Unit {0}) (give_back env fd ps t)
  unfolding give_back
  give_back-Safe fd [] t all = tt
  give_back-Safe fd (p ∷ ps) t all =
      Safe-chain false (λ (r : Page × List Event). Unit {0}) _ _ _
        (cases-Safe false _ (may_write p.protection) _ _
          (λ write.
            Safe-chain false (λ (r : Bool × List Event). Unit {0}) _
              (satisfy_request env p (to_master fd (prot_read + prot_write)) t) _
              (satisfy_request-Safe p (to_master fd (prot_read + prot_write)) t
                (all 0 p refl write))
              λ r u. cases-Safe false _ r.0 _ exit (λ e. tt) λ e. tt)
          λ other. tt)
        λ r u.
          Safe-chain false (λ (r' : List Page × List Event). Unit {0}) _ (give_back env fd ps r.1) _
            (give_back-Safe fd ps r.1 λ i q at. all (suc i) q at) λ r' v. tt

  pub terminate-Safe :
      (writes : Bool) (m : Memory) (held : Held) (n : Node)
      → Good writes m held n
      → Safe false (λ n'. Unit {0}) (terminate env n)
  unfolding terminate
  terminate-Safe writes m held n g =
      Safe-chain false (λ (r : List Page × List Event). Unit {0}) _ _ _
        (cases-Safe false _ n.is_master _ _ (λ master. tt)
          λ slave. give_back-Safe n.master_sockfd n.mem.pages n.trace λ i p at write.
            let f = g.pages i p at in f.ready.readable (ap may_write f.ready.mirrored ∙ write))
        λ r u.
          Safe-chain false (λ (r' : Bool × List Event). Unit {0}) _
            (dsm_send_msg env n.master_sockfd terminate_msg r.1) _
            (send-Safe env false (λ r'. Unit {0}) n.master_sockfd terminate_msg r.1 λ r'. tt)
            λ r' v. cases-Safe false _ r'.0 _ exit (λ e. tt) λ e. tt
