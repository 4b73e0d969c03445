-- ===== src/Node/Handshake.antt =====
-- A node that has come to life, and the answer of the master to a slave's CONNECT.
use mathlib.Core.Path.{subst}
use psar_dsm.Prelude.{
  ℕ, zero, suc, ◌+◌, ◌^◌, ◌<◌, ◌≡◌, ◌≢◌, refl, ◌∙◌, inl, Bool, true, false, Option, none, some,
  List, [], ◌∷◌, map, ◌==◌, ltb, Run, ok, exit, ◌>>=◌, arith, Ends, length-map, replicate,
}
use psar_dsm.Memory.{Page, Memory, prot_read, prot_write, init_page, init_pages, dsm_memory_init}
use psar_dsm.Memory.Init.{IsMemory, PagesFrom, dsm_memory_init-IsMemory}
use psar_dsm.Message.{Message, connect, sent, Surroundings}
use psar_dsm.Protocol.{Binn, message_fields, read_message}
use psar_dsm.Node.{Node}
use psar_dsm.Node.Handlers.{pointer_size, handle_connect_msg}
use psar_dsm.Node.Exclusive.{AllExclusive, listed}
use psar_dsm.Node.Join.{System, Gives, owned, dsm_master_init, dsm_m_init, dsm_n_init}

owned-PagesFrom :
    (sys : System) (fd s n : ℕ) (ps : List Page)
    → PagesFrom s n ps
    → PagesFrom s n (map (owned sys fd) ps)
owned-PagesFrom sys fd s n [] h = tt
owned-PagesFrom sys fd s n (p ∷ ps) (e, c, rest) = (
  e,
  record { mirrored = c.mirrored; readable = c.readable; sized = c.sized },
  owned-PagesFrom sys fd s (n + 1) ps rest,
)

owned-AllExclusive :
    (sys : System) (fd k n : ℕ) (zeros : List ℕ)
    → AllExclusive (map (owned sys fd) (init_pages true k n zeros))
unfolding init_pages init_page
owned-AllExclusive sys fd zero n zeros = tt
owned-AllExclusive sys fd (suc k) n zeros = (inl refl, owned-AllExclusive sys fd k (n + 1) zeros)

-- The memory that dsm_memory_init returns where nothing fails.
abbrev fresh : (mapping s k : ℕ) → Bool → Memory
fresh mapping s k is_master = record {
  pagesize = s;
  page_count = k;
  base_addr = mapping;
  pages = init_pages is_master k 0 (replicate s 0);
}

dsm_memory_init-fresh :
    (mapping s k : ℕ) (b : Bool)
    → (mapping == 0) ≡ false
    → k < 2 ^ 32
    → dsm_memory_init mapping true s k b ≡ ok (fresh mapping s k b)
unfolding dsm_memory_init
dsm_memory_init-fresh mapping s k b ne few =
    let counts : ltb k (2 ^ 32) ≡ true = ground arith in rw (ne, counts) refl

fresh-IsMemory :
    (mapping s k : ℕ) (b : Bool)
    → (mapping == 0) ≡ false
    → k < 2 ^ 32
    → IsMemory (fresh mapping s k b)
fresh-IsMemory mapping s k b ne few =
    let ends = dsm_memory_init-IsMemory mapping s k b (ground arith) few in
    (subst (Ends (λ m. IsMemory m × (m.page_count ≡ k) × (m.base_addr ≡ mapping)))
      (dsm_memory_init-fresh mapping s k b ne few) ends).0

-- Every page is up to date, and the master holds it with both rights and no reader listed.
abbrev pub AllOwned : List Page → Type 0
AllOwned [] = Unit {0}
AllOwned (p ∷ ps) =
    (p.uptodate ≡ true) × (p.mapped ≡ prot_read + prot_write) × (listed p ≡ []) × AllOwned ps

init_pages-AllOwned :
    (sys : System) (fd k n : ℕ) (zeros : List ℕ)
    → AllOwned (map (owned sys fd) (init_pages true k n zeros))
unfolding init_pages init_page
init_pages-AllOwned sys fd zero n zeros = tt
init_pages-AllOwned sys fd (suc k) n zeros =
    (refl, refl, refl, init_pages-AllOwned sys fd k (n + 1) zeros)

-- A master that starts with at least one page and fewer than 2^32, where the system gives all that it
-- asks for, has a consistent memory of that many pages, with every page up to date on it, held with
-- both rights and without a reader.
pub dsm_m_init-IsMemory :
    (sys : System) (s fd page_count : ℕ)
    → Gives sys s fd
    → page_count ≢ 0
    → page_count < 2 ^ 32
    → Ends
        (λ n.
          IsMemory n.mem
          × AllExclusive n.mem.pages
          × AllOwned n.mem.pages
          × (n.mem.page_count ≡ page_count)
          × (n.mem.pagesize ≡ s)
          × (n.master_sockfd ≡ fd))
        (dsm_m_init sys page_count)
unfolding dsm_m_init dsm_master_init
dsm_m_init-IsMemory sys s fd k g pages few =
    let some_pages : (k == 0) ≡ false = ground arith in
    let m = fresh-IsMemory sys.mapping s k true g.maps few in
    rw
      (
        some_pages,
        g.size,
        g.allocates,
        dsm_memory_init-fresh sys.mapping s k true g.maps few,
        g.serves,
        g.stale,
        g.starts,
        g.connects,
      )
      (
        record {
          counted = length-map (init_pages true k 0 (replicate s 0)) (owned sys fd) ∙ m.counted;
          pages = owned-PagesFrom sys fd s 0 (init_pages true k 0 (replicate s 0)) m.pages;
        },
        owned-AllExclusive sys fd k 0 (replicate s 0),
        init_pages-AllOwned sys fd k 0 (replicate s 0),
        refl,
        refl,
        refl,
      )

module _ (b : Binn) where
  -- A message as dsm_receive_msg reads it from the object that dsm_send_msg has made of it.
  abbrev pub through : (s : ℕ) → Message → Option Message
  through s m = elim (message_fields s m) [ none ↦ none | some fs ↦ read_message b (b.ptr fs) ]

  -- A slave with pages of size `s` on socket `from` of `master`: its CONNECT goes to handle_connect_msg,
  -- and the answer of that to dsm_n_init, each message put into an object by dsm_send_msg and read
  -- from it by dsm_receive_msg.
  abbrev pub joins : Surroundings → System → (from : ℕ) → (master : Node) → (s : ℕ) → Run Node
  joins env sys from master s = elim (through s (connect pointer_size s)) [
    | some (connect bitness pagesize) ↦
        handle_connect_msg env (record master { trace = [] }) from bitness pagesize >>= λ answered.
        dsm_n_init sys env
          (elim answered.trace [ sent fd m ∷ _ ↦ through master.mem.pagesize m | _ ↦ none ])
    | _ ↦ exit
  ]
