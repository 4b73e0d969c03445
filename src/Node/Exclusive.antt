-- ===== src/Node/Exclusive.antt =====
-- While the master does not have a page, no reader is listed for it: it was given away for writing
-- to one socket, after every reader had acknowledged its invalidation.
use mathlib.Core.Path.{subst}
use mathlib.Core.Option.{some-injective}
use psar_dsm.Prelude.{
  ℕ, zero, suc, ◌≡◌, refl, ◌⊎◌, inl, inr, true, ◌&&◌, not, none, some, List, [], ◌∷◌, ◌==◌, ltb,
  Run, ok, ◌>>=◌, arith, length, Bool-cases, Option-cases, IfOk, IfOk-bind, IfOk-chain, get_elem?,
  set,
}
use psar_dsm.LinkedList.Queue.{size, add, remove_first}
use psar_dsm.Memory.{Request, Directory, Page, slave_equals, get_page_from_id}
use psar_dsm.Message.{
  Message, lockpage, invalidate_ack, givepage, Event, Surroundings, signal_uptodate,
}
use psar_dsm.Core.{
  satisfy_request, invalidate_readers, Turn, again, returns, serve_reader, serve_writer, serve,
  requests_loop, process_list_requests,
}
use psar_dsm.Node.{Node, with_page}
use psar_dsm.Node.Handlers.{
  lockpage_page, invalidate_ack_page, givepage_page, received, handle_lockpage_msg,
  handle_invalidate_ack_msg, handle_givepage_msg, dsm_dispatch_message,
}

-- The sockets that are listed as readers of a page.
abbrev pub listed : Page → List ℕ
listed p = elim p.directory [ none ↦ [] | some d ↦ d.current_readers_queue.items ]

abbrev pub IsExclusive : Page → Type 0
IsExclusive p = (p.uptodate ≡ true) ⊎ (listed p ≡ [])

abbrev Exclusive : Page × List Event → Type 0
Exclusive r = IsExclusive r.0

abbrev TurnExclusive : Turn → Type 0
TurnExclusive (again d t) = Unit {0}
TurnExclusive (returns p t) = IsExclusive p

module _ (env : Surroundings) (p : Page) where
  serve_reader-Exclusive :
      (d : Directory) (req : Request) (t : List Event)
      → IfOk TurnExclusive (serve_reader env p d req t)
  unfolding serve_reader
  serve_reader-Exclusive d req t =
      IfOk-bind TurnExclusive (satisfy_request env p req t) _
        λ st. IfOk-bind TurnExclusive (add d.current_readers_queue req.sockfd) _ λ q. ground arith

  no_items : (xs : List ℕ) → (length xs == 0) ≡ true → xs ≡ []
  no_items [] e = refl
  no_items (x ∷ xs) e = ground arith

  serve_writer-Exclusive :
      (d : Directory) (req : Request) (t : List Event)
      → IfOk TurnExclusive (serve_writer env p d req t)
  unfolding serve_writer
  serve_writer-Exclusive d req t =
      elim (Bool-cases (not d.invalidate_sent && ltb 0 (size d.current_readers_queue))) [
        | inl many ↦ rw many (
            IfOk-bind TurnExclusive
              (invalidate_readers env p.page_id d.current_readers_queue.items t) _ λ t'. tt)
        | inr other ↦ rw other (elim (Bool-cases (size d.current_readers_queue == 0)) [
          | inl none_left ↦ rw none_left (
              IfOk-bind TurnExclusive (satisfy_request env p req t) _
                λ st. inr (no_items d.current_readers_queue.items none_left))
          | inr waits ↦ rw waits tt
        ])
      ]

  serve-Exclusive :
      (d : Directory) (req : Request) (t : List Event) → IfOk TurnExclusive (serve env p d req t)
  unfolding serve
  serve-Exclusive d req t =
      ground (arith, serve_reader-Exclusive d req t, serve_writer-Exclusive d req t)

  requests_loop-Exclusive :
      (k : ℕ) (d : Directory) (t : List Event)
      → p.uptodate ≡ true
      → IfOk Exclusive (requests_loop env k p d t)
  unfolding requests_loop
  requests_loop-Exclusive zero d t here = tt
  requests_loop-Exclusive (suc k) d t here =
      body (λ d' t'. requests_loop-Exclusive k d' t' here) d.requests_queue.items
    where
      turned :
          ((d' : Directory) (t' : List Event) → IfOk Exclusive (requests_loop env k p d' t'))
          → (turn : Turn) → TurnExclusive turn
          → IfOk Exclusive (elim turn [
            | again d' t' ↦ requests_loop env k p d' t'
            | returns p' t' ↦ ok (p', t')
          ])
      turned rest (again d' t') s = rest d' t'
      turned rest (returns p' t') s = s

      body :
          ((d' : Directory) (t' : List Event) → IfOk Exclusive (requests_loop env k p d' t'))
          → (rs : List Request)
          → IfOk Exclusive (elim rs [
            | [] ↦ ok (record p { directory = some d }, t)
            | req ∷ _ ↦ serve env p d req t >>= λ turn. elim turn [
              | again d' t' ↦ requests_loop env k p d' t'
              | returns p' t' ↦ ok (p', t')
            ]
          ])
      body rest [] = inl here
      body rest (req ∷ _) =
          IfOk-chain TurnExclusive Exclusive (serve env p d req t) _ (serve-Exclusive d req t)
            (turned rest)

  process-Exclusive :
      (k : ℕ) (t : List Event) → IsExclusive p → IfOk Exclusive (process_list_requests env k p t)
  unfolding process_list_requests
  process-Exclusive k t e = elim (Option-cases p.directory) [
    | inl no_dir ↦ rw (no_dir, process_list_requests) tt
    | inr (d, is) ↦ elim (Bool-cases p.uptodate) [
      | inl now ↦ ground (arith, requests_loop-Exclusive k d t now)
      | inr old ↦ ground arith
    ]
  ]

no_readers : (fd : ℕ) (xs : List ℕ) → xs ≡ [] → remove_first slave_equals fd xs ≡ []
no_readers fd [] e = refl
no_readers fd (x ∷ xs) e = absurd (ground arith)

-- Each page of the list is exclusive.
abbrev pub AllExclusive : List Page → Type 0
AllExclusive [] = Unit {0}
AllExclusive (p ∷ ps) = IsExclusive p × AllExclusive ps

AllExclusive-get :
    (ps : List Page) (i : ℕ) (p : Page) → AllExclusive ps → get_elem? ps i ≡ some p → IsExclusive p
AllExclusive-get [] i p a e = absurd (ground arith)
AllExclusive-get (q ∷ ps) zero p a e = subst IsExclusive (some-injective q p e) a.0
AllExclusive-get (q ∷ ps) (suc i) p a e = AllExclusive-get ps i p a.1 e

AllExclusive-set :
    (ps : List Page) (i : ℕ) (p : Page)
    → AllExclusive ps
    → IsExclusive p
    → AllExclusive (set ps i p)
AllExclusive-set [] i p a e = tt
AllExclusive-set (q ∷ ps) zero p a e = (e, a.1)
AllExclusive-set (q ∷ ps) (suc i) p a e = (a.0, AllExclusive-set ps i p a.1 e)

abbrev NodeExclusive : Node → Type 0
NodeExclusive n = AllExclusive n.mem.pages

-- The messages about a page that slaves send to the master.
abbrev pub IsPageTraffic : Message → Type 0
IsPageTraffic (lockpage i r) = Unit {0}
IsPageTraffic (invalidate_ack i) = Unit {0}
IsPageTraffic (givepage i r bytes) = Unit {0}
IsPageTraffic _ = ⊥

module _ (env : Surroundings) where
  lockpage_page-Exclusive :
      (k from rights block : ℕ) (p : Page) (t : List Event)
      → IsExclusive p
      → IfOk Exclusive (lockpage_page env k from rights block p t)
  unfolding lockpage_page
  lockpage_page-Exclusive k from rights block p t e = elim (Option-cases p.directory) [
    | inl no_dir ↦ rw (no_dir, lockpage_page) tt
    | inr (d, is) ↦
        let kept : (p.uptodate ≡ true) ⊎ (d.current_readers_queue.items ≡ []) = ground arith in
        rw (is, lockpage_page)
          (IfOk-bind Exclusive (add d.requests_queue _) _ λ q. process-Exclusive env _ k t kept)
  ]

  invalidate_ack_page-Exclusive :
      (k from : ℕ) (p : Page) (t : List Event)
      → IsExclusive p
      → IfOk Exclusive (invalidate_ack_page env k from p t)
  unfolding invalidate_ack_page
  invalidate_ack_page-Exclusive k from p t e = elim (Option-cases p.directory) [
    | inl no_dir ↦ rw (no_dir, invalidate_ack_page) tt
    | inr (d, is) ↦
        let kept : (p.uptodate ≡ true)
            ⊎ (remove_first slave_equals from d.current_readers_queue.items ≡ []) =
          ground (arith, no_readers from d.current_readers_queue.items) in
        rw (is, invalidate_ack_page) (process-Exclusive env _ k t kept)
  ]

  givepage_page-Exclusive :
      (k : ℕ) (n : Node) (id rights : ℕ) (bytes : List ℕ) (p : Page) (t : List Event)
      → IfOk Exclusive (givepage_page env k n id rights bytes p t)
  unfolding givepage_page
  givepage_page-Exclusive k n id rights bytes p t = ground (
    arith,
    process-Exclusive env (received n rights bytes p) k (signal_uptodate p.page_id ∷ t) (inl refl),
  )

  with_page-Exclusive :
      (n : Node) (id : ℕ) (f : Page → List Event → Run (Page × List Event))
      → ((p : Page) (t : List Event) → IsExclusive p → IfOk Exclusive (f p t))
      → AllExclusive n.mem.pages
      → IfOk NodeExclusive (with_page n id f)
  unfolding with_page
  with_page-Exclusive n id f keep a = elim (Option-cases (get_page_from_id n.mem id)) [
    | inl e ↦ rw (e, with_page) tt
    | inr (i, e) ↦ elim (Option-cases (get_elem? n.mem.pages i)) [
      | inl e' ↦ rw (e, e', with_page) tt
      | inr (p, e') ↦
          rw (e, e', with_page)
            (IfOk-chain Exclusive NodeExclusive (f p n.trace) _
              (keep p n.trace (AllExclusive-get n.mem.pages i p a e'))
              λ r x. AllExclusive-set n.mem.pages i r.0 a x)
    ]
  ]

  dispatch-IfOk :
      (k block : ℕ) (n : Node) (from : ℕ) (m : Message)
      → IsPageTraffic m
      → AllExclusive n.mem.pages
      → IfOk NodeExclusive (dsm_dispatch_message env k block n from m)
  unfolding dsm_dispatch_message handle_lockpage_msg handle_invalidate_ack_msg handle_givepage_msg
  dispatch-IfOk k block n from (lockpage i r) is a =
      with_page-Exclusive n i _ (λ p t e. lockpage_page-Exclusive k from r block p t e) a
  dispatch-IfOk k block n from (invalidate_ack i) is a =
      with_page-Exclusive n i _ (λ p t e. invalidate_ack_page-Exclusive k from p t e) a
  dispatch-IfOk k block n from (givepage i r bytes) is a =
      with_page-Exclusive n i _ (λ p t e. givepage_page-Exclusive k n i r bytes p t) a
  dispatch-IfOk k block n from _ is a = absurd is

  -- LOCKPAGE, INVALIDATE_ACK and GIVEPAGE keep the pages exclusive: after the handler, a page that
  -- the master does not have up to date has no reader on its list.
  pub dispatch-AllExclusive :
      (k block : ℕ) (n n' : Node) (from : ℕ) (m : Message)
      → IsPageTraffic m
      → AllExclusive n.mem.pages
      → dsm_dispatch_message env k block n from m ≡ ok n'
      → AllExclusive n'.mem.pages
  dispatch-AllExclusive k block n n' from m is a run =
      subst (IfOk NodeExclusive) run (dispatch-IfOk k block n from m is a)
