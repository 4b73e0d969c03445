-- ===== src/Node/Invariant.antt =====
-- Every message keeps the node's memory consistent: the pages keep their numbers, a page's record
-- says the right that the hardware enforces, and a page that is up to date can be read.
use mathlib.Core.Path.{subst}
use psar_dsm.Prelude.{
  ℕ, ◌+◌, ◌≡◌, refl, sym, ap, ◌∙◌, inl, inr, true, List, ◌∷◌, ltb, leb, Run, ok, arith, Bool-cases,
  IfOk, IfOk-bind, IfOk-chain, IfOk-mono, Option-cases, length, length-set, length-take_of_le,
  get_elem?,
}
use psar_dsm.LinkedList.Queue.{add, size}
use psar_dsm.Memory.{Page, may_read, get_page_from_id}
use psar_dsm.Memory.Init.{IsConsistent, IsMemory, PagesFrom-get, PagesFrom-set}
use psar_dsm.Message.{
  Message, connect, connect_ack, lockpage, invalidate, invalidate_ack, givepage, sync_barrier,
  barrier_ack, terminate_msg, unknown, Event, signal_uptodate, Surroundings, dsm_send_msg,
}
use psar_dsm.Core.{giveup_localpage, process_list_requests}
use psar_dsm.Core.Shape.{Shape, Shaped, process_list_requests-Shape}
use psar_dsm.Node.{Node, with_page}
use psar_dsm.Node.Handlers.{
  handle_connect_msg, lockpage_page, handle_lockpage_msg, invalidate_page, handle_invalidate_msg,
  invalidate_ack_page, handle_invalidate_ack_msg, received, givepage_page, handle_givepage_msg,
  broadcast_ack, handle_sync_barrier_msg, handle_barrier_ack_msg, handle_terminate_msg,
  dsm_dispatch_message,
}

-- What a handler keeps of a page of number `i`.
abbrev pub Keeps : (pagesize i : ℕ) → Page × List Event → Type 0
Keeps s i r = (r.0.page_id ≡ i) × IsConsistent s r.0

abbrev pub NodeMemory : Node → Type 0
NodeMemory n = IsMemory n.mem

Shape-IsConsistent : (s : ℕ) (p p' : Page) → IsConsistent s p → Shape p p' → IsConsistent s p'
unfolding giveup_localpage
Shape-IsConsistent s p p' c (inl (d, e)) =
    subst (IsConsistent s) (sym e)
      (record { mirrored = c.mirrored; readable = c.readable; sized = c.sized })
Shape-IsConsistent s p p' c (inr (fd, d, e)) =
    subst (IsConsistent s) (sym e)
      (record { mirrored = refl; readable = λ q. absurd (ground arith); sized = c.sized })

Shape-page_id : (p p' : Page) → Shape p p' → p'.page_id ≡ p.page_id
unfolding giveup_localpage
Shape-page_id p p' (inl (d, e)) = ap (λ (q : Page). q.page_id) e
Shape-page_id p p' (inr (fd, d, e)) = ap (λ (q : Page). q.page_id) e

-- A page comes with the right to read it.
abbrev pub GivesRead : Message → Type 0
GivesRead (givepage i rights bytes) = may_read rights ≡ true
GivesRead _ = Unit {0}

module _ (env : Surroundings) where
  process-Keeps :
      (k s i : ℕ) (p : Page) (t : List Event)
      → p.page_id ≡ i
      → IsConsistent s p
      → IfOk (Keeps s i) (process_list_requests env k p t)
  process-Keeps k s i p t e c =
      IfOk-mono (Shaped p) (Keeps s i) (process_list_requests env k p t)
        (process_list_requests-Shape env p k t)
        (λ r sh. (Shape-page_id p r.0 sh ∙ e, Shape-IsConsistent s p r.0 c sh))

  with_page-IsMemory :
      (n : Node) (id : ℕ) (f : Page → List Event → Run (Page × List Event))
      → ((i : ℕ) (p : Page) (t : List Event)
          → p.page_id ≡ i
          → IsConsistent n.mem.pagesize p
          → IfOk (Keeps n.mem.pagesize i) (f p t))
      → IsMemory n.mem
      → IfOk NodeMemory (with_page n id f)
  unfolding with_page
  with_page-IsMemory n id f keep m = elim (Option-cases (get_page_from_id n.mem id)) [
    | inl e ↦ rw (e, with_page) tt
    | inr (i, e) ↦ elim (Option-cases (get_elem? n.mem.pages i)) [
      | inl e' ↦ rw (e, e', with_page) tt
      | inr (p, e') ↦
          rw (e, e', with_page)
            (let (at, c) = PagesFrom-get n.mem.pagesize n.mem.pages 0 i p m.pages e' in
              let at' : p.page_id ≡ i = omega arith in
              IfOk-chain (Keeps n.mem.pagesize i) NodeMemory (f p n.trace) _
                (keep i p n.trace at' c)
                λ r k. record {
                  counted = length-set n.mem.pages i r.0 ∙ m.counted;
                  pages =
                      PagesFrom-set n.mem.pagesize n.mem.pages 0 i r.0 m.pages (omega (arith, k.0))
                        k.1;
                })
    ]
  ]

  lockpage_page-Keeps :
      (k from rights block s i : ℕ) (p : Page) (t : List Event)
      → p.page_id ≡ i
      → IsConsistent s p
      → IfOk (Keeps s i) (lockpage_page env k from rights block p t)
  unfolding lockpage_page
  lockpage_page-Keeps k from rights block s i p t e c = elim (Option-cases p.directory) [
    | inl no_dir ↦ rw (no_dir, lockpage_page) tt
    | inr (d, is) ↦
        rw (is, lockpage_page)
          (IfOk-bind (Keeps s i) (add d.requests_queue _) _ λ q.
            process-Keeps k s i _ t e
              (record { mirrored = c.mirrored; readable = c.readable; sized = c.sized }))
  ]

  invalidate_ack_page-Keeps :
      (k from s i : ℕ) (p : Page) (t : List Event)
      → p.page_id ≡ i
      → IsConsistent s p
      → IfOk (Keeps s i) (invalidate_ack_page env k from p t)
  unfolding invalidate_ack_page
  invalidate_ack_page-Keeps k from s i p t e c = elim (Option-cases p.directory) [
    | inl no_dir ↦ rw (no_dir, invalidate_ack_page) tt
    | inr (d, is) ↦
        rw (is, invalidate_ack_page)
          (process-Keeps k s i _ t e
            (record { mirrored = c.mirrored; readable = c.readable; sized = c.sized }))
  ]

  invalidate_page-Keeps :
      (count from id s i : ℕ) (p : Page) (t : List Event)
      → p.page_id ≡ i
      → IsConsistent s p
      → IfOk (Keeps s i) (invalidate_page env count from id p t)
  unfolding invalidate_page
  invalidate_page-Keeps count from id s i p t e c = elim (Bool-cases p.locked) [
    | inl held ↦ rw (held, invalidate_page) tt
    | inr idle ↦ elim (Bool-cases (ltb id count)) [
      | inl inside ↦
          rw (idle, inside, invalidate_page)
            (IfOk-bind (Keeps s i) (dsm_send_msg env from (invalidate_ack id) t) _ λ st. (
              e,
              record { mirrored = refl; readable = λ q. absurd (ground arith); sized = c.sized },
            ))
      | inr outside ↦ rw (idle, outside, invalidate_page) tt
    ]
  ]

  givepage_page-Keeps :
      (k : ℕ) (n : Node) (id rights : ℕ) (bytes : List ℕ) (i : ℕ) (p : Page) (t : List Event)
      → may_read rights ≡ true
      → p.page_id ≡ i
      → IfOk (Keeps n.mem.pagesize i) (givepage_page env k n id rights bytes p t)
  unfolding givepage_page
  givepage_page-Keeps k n id rights bytes i p t readable e =
      elim (Bool-cases (ltb (length bytes) n.mem.pagesize)) [
        | inl short ↦ ground arith
        | inr full ↦
            let c : IsConsistent n.mem.pagesize (received n rights bytes p) = record {
              mirrored = refl;
              readable = λ q. readable;
              sized = length-take_of_le n.mem.pagesize bytes (ground arith);
            } in
            ground (
              arith,
              e,
              c,
              process-Keeps k n.mem.pagesize i (received n rights bytes p)
                  (signal_uptodate p.page_id ∷ t) e c,
            )
      ]

  barrier-IfOk :
      (n : Node) (from w : ℕ)
      → IsMemory n.mem
      → IfOk NodeMemory (handle_sync_barrier_msg env n from w)
  unfolding handle_sync_barrier_msg
  barrier-IfOk n from w m = elim (Option-cases n.sync_barrier_waiters) [
    | inl no_list ↦ rw (no_list, handle_sync_barrier_msg) tt
    | inr (q, is) ↦ elim (Bool-cases n.is_master) [
      | inr slave ↦ rw (is, slave, handle_sync_barrier_msg) m
      | inl master ↦ elim (Bool-cases (leb w (size q + 1))) [
        | inl opens ↦
            rw (is, master, opens, handle_sync_barrier_msg)
              (IfOk-bind NodeMemory (broadcast_ack env q.items n.trace) _
                λ t. IfOk-bind NodeMemory (dsm_send_msg env from barrier_ack t) _ λ st. m)
        | inr waits ↦
            rw (is, master, waits, handle_sync_barrier_msg)
              (IfOk-bind NodeMemory (add q from) _ λ q'. m)
      ]
    ]
  ]

  dispatch-IfOk :
      (k block : ℕ) (n : Node) (from : ℕ) (m : Message)
      → GivesRead m
      → IsMemory n.mem
      → IfOk NodeMemory (dsm_dispatch_message env k block n from m)
  unfolding dsm_dispatch_message handle_connect_msg handle_lockpage_msg handle_invalidate_msg
      handle_invalidate_ack_msg handle_givepage_msg handle_sync_barrier_msg handle_barrier_ack_msg
      handle_terminate_msg
  dispatch-IfOk k block n from (connect b s) g m =
      IfOk-bind NodeMemory (dsm_send_msg env from _ n.trace) _ λ st. m
  dispatch-IfOk k block n from (connect_ack b s c) g m = m
  dispatch-IfOk k block n from (lockpage i r) g m =
      with_page-IsMemory n i _
        (λ j p t e c. lockpage_page-Keeps k from r block n.mem.pagesize j p t e c) m
  dispatch-IfOk k block n from (invalidate i) g m =
      with_page-IsMemory n i _
        (λ j p t e c. invalidate_page-Keeps n.mem.page_count from i n.mem.pagesize j p t e c) m
  dispatch-IfOk k block n from (invalidate_ack i) g m =
      with_page-IsMemory n i _
        (λ j p t e c. invalidate_ack_page-Keeps k from n.mem.pagesize j p t e c) m
  dispatch-IfOk k block n from (givepage i r bytes) g m =
      with_page-IsMemory n i _ (λ j p t e c. givepage_page-Keeps k n i r bytes j p t g e) m
  dispatch-IfOk k block n from (sync_barrier w) g m = barrier-IfOk n from w m
  dispatch-IfOk k block n from barrier_ack g m = m
  dispatch-IfOk k block n from terminate_msg g m = elim (Bool-cases n.is_master) [
    | inl yes_master ↦ rw (yes_master, handle_terminate_msg) m
    | inr slave ↦ rw (slave, handle_terminate_msg) m
  ]
  dispatch-IfOk k block n from (unknown type) g m = m

  -- Whatever message arrives, from whomever, the memory stays consistent if the handler returns;
  -- a GIVEPAGE has to come with the right to read.
  pub dsm_dispatch_message-IsMemory :
      (k block : ℕ) (n n' : Node) (from : ℕ) (m : Message)
      → GivesRead m
      → IsMemory n.mem
      → dsm_dispatch_message env k block n from m ≡ ok n'
      → IsMemory n'.mem
  dsm_dispatch_message-IsMemory k block n n' from m g is run =
      subst (IfOk NodeMemory) run (dispatch-IfOk k block n from m g is)
