-- ===== src/Program/Heard.antt =====
-- What the listener of a slave does to those pages, whatever it hears (dsm_core.c).
use psar_dsm.Prelude.{
  ℕ, ◌+◌, ◌≤◌, fault, blocked, cases-IfOk, ◌≡◌, inl, inr, refl, sym, ap, ◌∙◌, Bool, true, false,
  List, leb, ltb, Run, ok, IfOk, IfOk-bind, IfOk-chain, if-IfOk, option_fault-IfOk, Bool-cases,
  Option-cases, arith, length, length-take_of_le, get_elem?,
}
use psar_dsm.LinkedList.Queue.{size, add}
use psar_dsm.Memory.{Page, Memory, may_read, may_write, get_page_from_id}
use psar_dsm.Message.{
  Message, connect, connect_ack, lockpage, invalidate, invalidate_ack, givepage, sync_barrier,
  barrier_ack, terminate_msg, unknown, Event, Surroundings, dsm_send_msg,
}
use psar_dsm.Node.{Node, with_page}
use psar_dsm.Node.Handlers.{
  broadcast_ack, handle_connect_msg, lockpage_page, handle_lockpage_msg, invalidate_page,
  handle_invalidate_msg, invalidate_ack_page, handle_invalidate_ack_msg, givepage_page, received,
  handle_givepage_msg, handle_sync_barrier_msg, handle_barrier_ack_msg, handle_terminate_msg,
  dsm_dispatch_message,
}
use psar_dsm.Program.Discipline.{Held, Gives}
use psar_dsm.Program.Ready.{Fits, Good, with-Good}

module _ (writes : Bool) (m : Memory) where
  abbrev FitsOf : (holds : Bool) → Page × List Event → Type 0
  FitsOf holds r = Fits writes m.pagesize holds r.0

  module _ (env : Surroundings) where
    -- A slave has no directory, so its listener cannot serve requests.
    lockpage_page-Fits :
        (k from rights block : ℕ) (b : Bool) (p : Page) (t : List Event)
        → Fits writes m.pagesize b p
        → IfOk (FitsOf b) (lockpage_page env k from rights block p t)
    unfolding lockpage_page
    lockpage_page-Fits k from rights block b p t f = rw (f.ready.directory, lockpage_page) tt

    invalidate_ack_page-Fits :
        (k from : ℕ) (b : Bool) (p : Page) (t : List Event)
        → Fits writes m.pagesize b p
        → IfOk (FitsOf b) (invalidate_ack_page env k from p t)
    unfolding invalidate_ack_page
    invalidate_ack_page-Fits k from b p t f = rw (f.ready.directory, invalidate_ack_page) tt

    invalidate_page-Fits :
        (count from id : ℕ) (b : Bool) (p : Page) (t : List Event)
        → Fits writes m.pagesize b p
        → IfOk (FitsOf b) (invalidate_page env count from id p t)
    unfolding invalidate_page
    invalidate_page-Fits count from id b p t f = elim (Bool-cases p.locked) [
      | inl busy ↦ rw (busy, invalidate_page) tt
      | inr idle ↦
          rw (idle, invalidate_page)
            (if-IfOk (FitsOf b) (ltb id count) _ _
              (IfOk-bind (FitsOf b) (dsm_send_msg env from (invalidate_ack id) t) _ λ r. record {
                ready = record {
                  directory = f.ready.directory;
                  mirrored = refl;
                  readable = λ e. absurd (ground arith);
                  granted_read = λ e. absurd (ground arith);
                  granted_write = λ e w. absurd (ground arith);
                  sized = f.ready.sized;
                };
                locked = sym idle ∙ f.locked;
                here = λ e. absurd (ground arith);
              })
              tt)
    ]

    received-Fits :
        (n : Node) (rights : ℕ) (bytes : List ℕ) (b : Bool) (p : Page)
        → n.mem.pagesize ≡ m.pagesize
        → n.mem.pagesize ≤ length bytes
        → may_read rights ≡ true
        → (writes ≡ true → may_write rights ≡ true)
        → p.locked ≡ false
        → Fits writes m.pagesize b p
        → Fits writes m.pagesize b (received n rights bytes p)
    received-Fits n rights bytes b p size_is long reads stores idle f = record {
      ready = record {
        directory = f.ready.directory;
        mirrored = refl;
        readable = λ e. reads;
        granted_read = λ e. reads;
        granted_write = λ e w. stores w;
        sized = length-take_of_le n.mem.pagesize bytes long ∙ size_is;
      };
      locked = f.locked;
      here = λ e. refl;
    }

    givepage_page-Fits :
        (k : ℕ) (n : Node) (id rights : ℕ) (bytes : List ℕ) (b : Bool) (p : Page) (t : List Event)
        → n.is_master ≡ false
        → n.mem.pagesize ≡ m.pagesize
        → may_read rights ≡ true
        → (writes ≡ true → may_write rights ≡ true)
        → Fits writes m.pagesize b p
        → IfOk (FitsOf b) (givepage_page env k n id rights bytes p t)
    unfolding givepage_page
    givepage_page-Fits k n id rights bytes b p t slave size_is reads stores f =
        cases-IfOk (FitsOf b) p.locked blocked _ (λ busy. tt)
          λ idle.
            if-IfOk (FitsOf b) (ltb id n.mem.page_count) _ fault
              (if-IfOk (FitsOf b) env.keeps_freed _ fault
                (cases-IfOk (FitsOf b) (ltb (length bytes) n.mem.pagesize) fault _ (λ short. tt)
                  λ long.
                    cases-IfOk (FitsOf b) n.is_master _ _ (λ master. absurd (ground arith))
                      λ _.
                        received-Fits n rights bytes b p size_is (ground arith) reads stores idle f)
                tt)
              tt

    with_page-Good :
        (held : Held) (n : Node) (id : ℕ) (f : Page → List Event → Run (Page × List Event))
        → ((b : Bool) (p : Page) (t : List Event)
            → Fits writes m.pagesize b p
            → IfOk (FitsOf b) (f p t))
        → Good writes m held n
        → IfOk (Good writes m held) (with_page n id f)
    unfolding with_page
    with_page-Good held n id f keep g =
        option_fault-IfOk (Good writes m held) (get_page_from_id n.mem id) _ λ i.
          elim (Option-cases (get_elem? n.mem.pages i)) [
            | inl e ↦ rw e tt
            | inr (p, e) ↦ rw e (
                IfOk-chain (FitsOf (held i)) (Good writes m held) (f p n.trace) _
                  (keep (held i) p n.trace (g.pages i p e))
                  λ r fits. with-Good writes m held held n i r.0 r.1 g fits λ j other. refl)
          ]

    same_memory :
        (held : Held) (n n' : Node)
        → Good writes m held n
        → n'.mem ≡ n.mem
        → n'.is_master ≡ n.is_master
        → Good writes m held n'
    same_memory held n n' g same role = record {
      slave = role ∙ g.slave;
      size = ap (λ (k : Memory). k.pagesize) same ∙ g.size;
      count = ap (λ (k : Memory). k.page_count) same ∙ g.count;
      base = ap (λ (k : Memory). k.base_addr) same ∙ g.base;
      counted = ap (λ (k : Memory). length k.pages) same ∙ g.counted;
      pages = λ i p e. g.pages i p (ap (λ (k : Memory). get_elem? k.pages i) (sym same) ∙ e);
    }

    barrier-Good :
        (held : Held) (n : Node) (from w : ℕ)
        → Good writes m held n
        → IfOk (Good writes m held) (handle_sync_barrier_msg env n from w)
    unfolding handle_sync_barrier_msg
    barrier-Good held n from w g =
        option_fault-IfOk (Good writes m held) n.sync_barrier_waiters _ λ q.
          if-IfOk (Good writes m held) n.is_master _ (ok n)
            (if-IfOk (Good writes m held) (leb w (size q + 1)) _ _
              (IfOk-bind (Good writes m held) (broadcast_ack env q.items n.trace) _ λ t.
                IfOk-bind (Good writes m held) (dsm_send_msg env from barrier_ack t) _
                  λ r. same_memory held n _ g refl refl)
              (IfOk-bind (Good writes m held) (add q from) _
                λ w'. same_memory held n _ g refl refl))
            g

    pub dispatch-Good :
        (held : Held) (k block : ℕ) (n : Node) (from : ℕ) (msg : Message)
        → Gives writes msg
        → Good writes m held n
        → IfOk (Good writes m held) (dsm_dispatch_message env k block n from msg)
    unfolding dsm_dispatch_message handle_connect_msg handle_lockpage_msg handle_invalidate_msg
        handle_invalidate_ack_msg handle_givepage_msg handle_barrier_ack_msg handle_terminate_msg
    dispatch-Good held k block n from (connect b s) gives g =
        IfOk-bind (Good writes m held) (dsm_send_msg env from _ n.trace) _
          λ r. same_memory held n _ g refl refl
    dispatch-Good held k block n from (lockpage i r) gives g =
        with_page-Good held n i _ (lockpage_page-Fits k from r block) g
    dispatch-Good held k block n from (invalidate i) gives g =
        with_page-Good held n i _ (invalidate_page-Fits n.mem.page_count from i) g
    dispatch-Good held k block n from (invalidate_ack i) gives g =
        with_page-Good held n i _ (invalidate_ack_page-Fits k from) g
    dispatch-Good held k block n from (givepage i r bytes) gives g =
        with_page-Good held n i _
          (λ b p t f. givepage_page-Fits k n i r bytes b p t g.slave g.size gives.0 gives.1 f) g
    dispatch-Good held k block n from (sync_barrier w) gives g = barrier-Good held n from w g
    dispatch-Good held k block n from terminate_msg gives g =
        if-IfOk (Good writes m held) n.is_master _ (ok n) (same_memory held n _ g refl refl) g
    dispatch-Good held k block n from (connect_ack b s c) gives g = g
    dispatch-Good held k block n from barrier_ack gives g = same_memory held n _ g refl refl
    dispatch-Good held k block n from (unknown type) gives g = g
