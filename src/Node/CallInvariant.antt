-- ===== src/Node/CallInvariant.antt =====
-- Every call of the program's own thread keeps the node's memory consistent.
use mathlib.Core.Path.{subst}
use psar_dsm.Prelude.{
  ℕ, suc, ◌+◌, ◌%◌, ◌^◌, ◌≡◌, refl, ap, ◌∙◌, inl, inr, Bool, true, false, List, [], ◌∷◌,
  if◌then◌else◌, Run, ok, exit, ◌>>=◌, arith, length, length-set, Bool-cases, Option-cases, IfOk,
  IfOk-bind, IfOk-chain, get_elem?,
}
use psar_dsm.Memory.{Page, prot_read, prot_write, may_write, get_page_from_addr}
use psar_dsm.Memory.Init.{IsConsistent, IsMemory, PagesFrom, PagesFrom-get, PagesFrom-set}
use psar_dsm.Message.{lockpage, sync_barrier, terminate_msg, Event, Surroundings, dsm_send_msg}
use psar_dsm.Core.{satisfy_request, giveup_localpage}
use psar_dsm.Node.{Node}
use psar_dsm.Node.Invariant.{Keeps, NodeMemory}
use psar_dsm.Node.Api.{
  Lock, lock_page, page_at, with, lock_read, lock_write, unlock_read, to_master, unlock_write_page,
  unlock_write, wait_barrier, give_back, terminate,
}

-- A call of the library, with its argument.
pub data Call : Type 0 where
  locks_read locks_write unlocks_read unlocks_write : (addr : ℕ) → Call
  waits_barrier : (slave_to_wait : ℕ) → Call
  terminates : Call

-- The page at index `i` of the node.
abbrev IsPageOf : Node → ℕ × Page → Type 0
IsPageOf n r = (r.1.page_id ≡ r.0) × IsConsistent n.mem.pagesize r.1

abbrev LockKept : ℕ → ℕ → Page × Lock × List Event → Type 0
LockKept s i r = (r.0.page_id ≡ i) × IsConsistent s r.0

abbrev PairMemory : Node × Lock → Type 0
PairMemory r = IsMemory r.0.mem

page_at-IsPageOf : (n : Node) (addr : ℕ) → IsMemory n.mem → IfOk (IsPageOf n) (page_at n addr)
unfolding page_at
page_at-IsPageOf n addr m = elim (Option-cases (get_page_from_addr n.mem addr)) [
  | inl e ↦ rw (e, page_at) tt
  | inr (i, e) ↦ elim (Option-cases (get_elem? n.mem.pages i)) [
    | inl e' ↦ rw (e, e', page_at) tt
    | inr (p, e') ↦
        let (at, c) = PagesFrom-get n.mem.pagesize n.mem.pages 0 i p m.pages e' in
        rw (e, e', page_at) (omega arith, c)
  ]
]

with-IsMemory :
    (n : Node) (i : ℕ) (p : Page) (t : List Event)
    → IsMemory n.mem
    → p.page_id ≡ i
    → IsConsistent n.mem.pagesize p
    → IsMemory (with n i p t).mem
with-IsMemory n i p t m e c = record {
  counted = length-set n.mem.pages i p ∙ m.counted;
  pages = PagesFrom-set n.mem.pagesize n.mem.pages 0 i p m.pages (omega arith) c;
}

given_up-IsConsistent :
    (s : ℕ) (p : Page) (fd : ℕ) → IsConsistent s p → IsConsistent s (giveup_localpage p fd)
unfolding giveup_localpage
given_up-IsConsistent s p fd c = record {
  mirrored = refl;
  readable = λ e. absurd (ground arith);
  sized = c.sized;
}

given_up-page_id : (p : Page) (fd : ℕ) → (giveup_localpage p fd).page_id ≡ p.page_id
unfolding giveup_localpage
given_up-page_id p fd = refl

ite-IfOk : (b : Bool) (n : Node) → NodeMemory n → IfOk NodeMemory (if b then ok n else exit)
ite-IfOk true n m = m
ite-IfOk false n m = tt

module _ (env : Surroundings) where
  unfoldable pub run_call : Node → Call → Run Node
  run_call n (locks_read addr) = lock_read env n addr >>= λ r. ok r.0
  run_call n (locks_write addr) = lock_write env n addr >>= λ r. ok r.0
  run_call n (unlocks_read addr) = unlock_read env n addr
  run_call n (unlocks_write addr) = unlock_write env n addr
  run_call n (waits_barrier k) = wait_barrier env n k
  run_call n terminates = terminate env n

  lock_page-LockKept :
      (s i master rights : ℕ) (p : Page) (t : List Event)
      → p.page_id ≡ i
      → IsConsistent s p
      → IfOk (LockKept s i) (lock_page env master p rights t)
  unfolding lock_page
  lock_page-LockKept s i master rights p t e c = elim (Bool-cases p.locked) [
    | inl busy ↦ rw (busy, lock_page) tt
    | inr idle ↦ elim (Bool-cases p.uptodate) [
      | inl here ↦
          rw (idle, here, lock_page)
            (e, record { mirrored = c.mirrored; readable = λ _. c.readable here; sized = c.sized })
      | inr away ↦
          rw (idle, away, lock_page)
            (IfOk-bind (LockKept s i) (dsm_send_msg env master (lockpage p.page_id rights) t) _ λ r.
              elim (Bool-cases r.0) [
                | inl sent ↦ rw (sent) (
                  e,
                  record {
                    mirrored = c.mirrored;
                    readable = λ q. absurd (ground arith);
                    sized = c.sized;
                  },
                )
                | inr unsent ↦ rw (unsent) tt
              ])
    ]
  ]

  unlock_write_page-Keeps :
      (s i master : ℕ) (p : Page) (t : List Event)
      → p.page_id ≡ i
      → IsConsistent s p
      → IfOk (Keeps s i) (unlock_write_page env master p t)
  unfolding unlock_write_page
  unlock_write_page-Keeps s i master p t e c =
      IfOk-bind (Keeps s i) (satisfy_request env p (to_master master p.protection) t) _ λ r.
        let g = given_up-IsConsistent s p master c in
        (
          given_up-page_id p master ∙ e,
          record { mirrored = g.mirrored; readable = g.readable; sized = g.sized },
        )

  given_back-Keeps :
      (s n master : ℕ) (p : Page) (t : List Event)
      → p.page_id ≡ n
      → IsConsistent s p
      → IfOk (Keeps s n) (
          if may_write p.protection
          then (satisfy_request env p (to_master master (prot_read + prot_write)) t >>= λ r.
              if r.0 then ok (giveup_localpage p master, r.1) else exit)
          else ok (p, t))
  given_back-Keeps s n master p t e c = elim (Bool-cases (may_write p.protection)) [
    | inl write ↦ rw (write) (
        IfOk-bind (Keeps s n) (satisfy_request env p (to_master master (prot_read + prot_write)) t)
          _
          λ r. elim (Bool-cases r.0) [
            | inl sent ↦
                rw (sent) (given_up-page_id p master ∙ e, given_up-IsConsistent s p master c)
            | inr unsent ↦ rw (unsent) tt
          ])
    | inr not_write ↦ rw (not_write) (e, c)
  ]

  Pages : (s n : ℕ) → List Page → List Page × List Event → Type 0
  Pages s n ps r = PagesFrom s n r.0 × (length r.0 ≡ length ps)

  give_back-Pages :
      (s n master : ℕ) (ps : List Page) (t : List Event)
      → PagesFrom s n ps
      → IfOk (Pages s n ps) (give_back env master ps t)
  unfolding give_back Pages
  give_back-Pages s n master [] t h = (tt, refl)
  give_back-Pages s n master (p ∷ ps) t (e, c, rest) =
      IfOk-chain (Keeps s n) (Pages s n (p ∷ ps)) _ _ (given_back-Keeps s n master p t e c) λ r k.
        IfOk-chain (Pages s (n + 1) ps) (Pages s n (p ∷ ps)) (give_back env master ps r.1) _
          (give_back-Pages s (n + 1) master ps r.1 rest) λ r' k'. ((k.0, k.1, k'.0), ap suc k'.1)

  on_page-IsMemory :
      (n : Node) (addr : ℕ) (f : ℕ → Page → Run (Page × List Event))
      → ((i : ℕ) (p : Page)
          → p.page_id ≡ i
          → IsConsistent n.mem.pagesize p
          → IfOk (Keeps n.mem.pagesize i) (f i p))
      → IsMemory n.mem
      → IfOk NodeMemory (page_at n addr >>= λ r. f r.0 r.1 >>= λ r'. ok (with n r.0 r'.0 r'.1))
  on_page-IsMemory n addr f keep m =
      IfOk-chain (IsPageOf n) NodeMemory (page_at n addr) _ (page_at-IsPageOf n addr m) λ r q.
        IfOk-chain (Keeps n.mem.pagesize r.0) NodeMemory (f r.0 r.1) _ (keep r.0 r.1 q.0 q.1)
          λ r' k. with-IsMemory n r.0 r'.0 r'.1 m k.0 k.1

  Locks : (n : Node) (addr rights : ℕ) → Run (Node × Lock)
  Locks n addr rights = page_at n addr >>= λ r.
      lock_page env n.master_sockfd r.1 rights n.trace >>= λ r'. ok (with n r.0 r'.0 r'.2, r'.1)

  lock-IfOk : (n : Node) (addr rights : ℕ) → IsMemory n.mem → IfOk PairMemory (Locks n addr rights)
  unfolding Locks
  lock-IfOk n addr rights m =
      IfOk-chain (IsPageOf n) PairMemory (page_at n addr) _ (page_at-IsPageOf n addr m) λ r q.
        IfOk-chain (LockKept n.mem.pagesize r.0) PairMemory
          (lock_page env n.master_sockfd r.1 rights n.trace) _
          (lock_page-LockKept n.mem.pagesize r.0 n.master_sockfd rights r.1 n.trace q.0 q.1)
          λ r' k. with-IsMemory n r.0 r'.0 r'.2 m k.0 k.1

  left :
      (n : Node)
      → IsMemory n.mem
      → IfOk (Pages n.mem.pagesize 0 n.mem.pages) (
          if n.is_master
          then ok (n.mem.pages, n.trace)
          else give_back env n.master_sockfd n.mem.pages n.trace)
  unfolding Pages
  left n m = elim (Bool-cases n.is_master) [
    | inl master ↦ rw (master) (m.pages, refl)
    | inr slave ↦
        rw (slave) (give_back-Pages n.mem.pagesize 0 n.master_sockfd n.mem.pages n.trace m.pages)
  ]

  terminate-IfOk : (n : Node) → IsMemory n.mem → IfOk NodeMemory (terminate env n)
  unfolding terminate Pages
  terminate-IfOk n m =
      IfOk-chain (Pages n.mem.pagesize 0 n.mem.pages) NodeMemory
        (if n.is_master
          then ok (n.mem.pages, n.trace)
          else give_back env n.master_sockfd n.mem.pages n.trace)
        _ (left n m)
        λ r k. IfOk-bind NodeMemory (dsm_send_msg env n.master_sockfd terminate_msg r.1) _ λ r'.
          ite-IfOk r'.0 (record n { mem = record (n.mem) { pages = r.0 }; trace = r'.1 })
            (record { counted = k.1 ∙ m.counted; pages = k.0 })

  run_call-IfOk : (n : Node) (c : Call) → IsMemory n.mem → IfOk NodeMemory (run_call n c)
  unfolding run_call lock_read lock_write unlock_read unlock_write wait_barrier Locks
  run_call-IfOk n (locks_read addr) m =
      IfOk-chain PairMemory NodeMemory (lock_read env n addr) _ (lock-IfOk n addr 1 m) λ r k. k
  run_call-IfOk n (locks_write addr) m =
      IfOk-chain PairMemory NodeMemory (lock_write env n addr) _ (lock-IfOk n addr 3 m) λ r k. k
  run_call-IfOk n (unlocks_read addr) m =
      IfOk-chain (IsPageOf n) NodeMemory (page_at n addr) _ (page_at-IsPageOf n addr m) λ r q.
        with-IsMemory n r.0 _ n.trace m q.0
          (record { mirrored = q.1.mirrored; readable = q.1.readable; sized = q.1.sized })
  run_call-IfOk n (unlocks_write addr) m =
      on_page-IsMemory n addr (λ i p. unlock_write_page env n.master_sockfd p n.trace)
        (λ i p e c. unlock_write_page-Keeps n.mem.pagesize i n.master_sockfd p n.trace e c) m
  run_call-IfOk n (waits_barrier k) m =
      IfOk-bind NodeMemory (dsm_send_msg env n.master_sockfd (sync_barrier (k % 2 ^ 16)) n.trace) _
        λ r. ite-IfOk r.0 (record n { trace = r.1 }) m
  run_call-IfOk n terminates m = terminate-IfOk n m

  -- Whatever library function the program calls, and with whatever argument, the node's memory stays
  -- consistent if the call returns or comes to its wait.
  pub run_call-IsMemory :
      (n n' : Node) (c : Call) → IsMemory n.mem → run_call n c ≡ ok n' → IsMemory n'.mem
  run_call-IsMemory n n' c m run = subst (IfOk NodeMemory) run (run_call-IfOk n c m)
