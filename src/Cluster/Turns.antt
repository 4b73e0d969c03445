-- ===== src/Cluster/Turns.antt =====
-- The rounds of the master's loop: a reader served, a writer that waits, a writer granted.
use psar_dsm.Prelude.{
  ℕ, ◌≡◌, refl, inl, inr, ◌⊎◌, Bool, true, false, ◌&&◌, not, List, [], ◌∷◌, ◌++◌, ◌==◌, ltb, arith,
  Bool-cases, IfOk, IfOk-chain, length,
}
use psar_dsm.LinkedList.Queue.{Queue, size, add, add_items}
use psar_dsm.Memory.{Request, Directory, Page, prot_read, may_read, may_write}
use psar_dsm.Message.{invalidate, givepage, Event, sent, Surroundings, up}
use psar_dsm.Core.{
  satisfy_request, giveup_localpage, invalidate_readers, Turn, again, returns, serve_reader,
  serve_writer, serve,
}
use psar_dsm.Core.Queues.{send_up}
use psar_dsm.Node.Exclusive.{listed}
use psar_dsm.Cluster.{posted_to}
use psar_dsm.Cluster.Channel.{pages, OnlyReads, pages-append, OnlyReads-append}

-- Nothing in the trace is a page.
abbrev pub Pageless : List Event → Type 0
Pageless t = (j : ℕ) → (pages (posted_to j t) ≡ 0) × OnlyReads (posted_to j t)

-- The page that goes to the request's socket.
abbrev pub given : Page → Request → List Event
given p req = sent req.sockfd (givepage p.page_id req.rights p.bytes) ∷ []

pub record ServedReader (p : Page) (d : Directory) (req : Request) (d' : Directory) (t : List Event)
    : Type 0 where
  pub read : (req.rights == prot_read) ≡ true
  pub readable : may_read p.mapped ≡ true
  pub listed_now : d'.current_readers_queue.items ≡ d.current_readers_queue.items ++ req.sockfd ∷ []
  pub trace : t ≡ given p req

pub record WaitingWriter (d : Directory) (req : Request) (d' : Directory) (t : List Event)
    : Type 0 where
  pub other : (req.rights == prot_read) ≡ false
  pub write : may_write req.rights ≡ true
  pub first : ℕ
  pub others : List ℕ
  pub readers : d.current_readers_queue.items ≡ first ∷ others
  pub same_readers : d'.current_readers_queue.items ≡ d.current_readers_queue.items
  pub same_requests : d'.requests_queue.items ≡ d.requests_queue.items
  pub trace : Pageless t

pub record GrantedWriter (p : Page) (d : Directory) (req : Request) (p' : Page) (t : List Event)
    : Type 0 where
  pub none_listed : d.current_readers_queue.items ≡ []
  pub none_after : listed p' ≡ []
  pub readable : may_read p.mapped ≡ true
  pub mapped : p'.mapped ≡ 0
  pub protection : p'.protection ≡ 0
  pub gone : p'.uptodate ≡ false
  pub trace : t ≡ given p req

abbrev pub TurnIs : Page → Directory → Request → Turn → Type 0
TurnIs p d req (again d' t) = ServedReader p d req d' t ⊎ WaitingWriter d req d' t
TurnIs p d req (returns p' t) = GrantedWriter p d req p' t

add_items_end :
    (xs : List ℕ) (b : Bool) (x : ℕ)
    → IfOk (λ (q : Queue ℕ). q.items ≡ xs ++ x ∷ []) (add_items xs b x)
add_items_end [] b x = refl
add_items_end (y ∷ ys) false x = tt
add_items_end (y ∷ ys) true x = refl

nonempty : (xs : List ℕ) → (length xs == 0) ≡ false → (x : ℕ) × (ys : List ℕ) × (xs ≡ x ∷ ys)
nonempty [] e = cc
nonempty (x ∷ xs) e = (x, xs, refl)

zero_length : (xs : List ℕ) → (length xs == 0) ≡ true → xs ≡ []
zero_length [] e = refl
zero_length (x ∷ xs) e = absurd (ground arith)

some_listed : (b : Bool) (xs : List ℕ) → b && ltb 0 (length xs) ≡ true → (length xs == 0) ≡ false
some_listed b xs e = ground arith

module _ (env : Surroundings) (works : (fd : ℕ) → env.link fd ≡ up) where
  invalidate_readers-Pageless :
      (id : ℕ) (fds : List ℕ) (t : List Event)
      → Pageless t
      → IfOk Pageless (invalidate_readers env id fds t)
  unfolding invalidate_readers
  invalidate_readers-Pageless id [] t h = h
  invalidate_readers-Pageless id (fd ∷ fds) t h =
      rw (send_up env fd (invalidate id) t (works fd))
        (invalidate_readers-Pageless id fds (sent fd (invalidate id) ∷ t) (λ j. one j))
    where
      one :
          (j : ℕ)
          → (pages (posted_to j (sent fd (invalidate id) ∷ t)) ≡ 0)
            × OnlyReads (posted_to j (sent fd (invalidate id) ∷ t))
      one j = elim (Bool-cases (fd == j)) [
        | inl e ↦ rw e (
          omega (arith, pages-append (posted_to j t) (invalidate id ∷ []), h j),
          OnlyReads-append (posted_to j t) (invalidate id ∷ []) (h j).1 (tt, tt),
        )
        | inr e ↦ rw e (h j)
      ]

  module _ (p : Page) (d : Directory) (req : Request) where
    reader : (req.rights == prot_read) ≡ true → IfOk (TurnIs p d req) (serve_reader env p d req [])
    unfolding serve_reader satisfy_request
    reader read = elim (Bool-cases (may_read p.mapped)) [
      | inr cannot ↦ simp cannot tt
      | inl reads ↦
          simp
            (
              reads,
              send_up env req.sockfd (givepage p.page_id req.rights p.bytes) [] (works req.sockfd),
            )
            (IfOk-chain
              (λ (q : Queue ℕ). q.items ≡ d.current_readers_queue.items ++ req.sockfd ∷ [])
              (TurnIs p d req) (add d.current_readers_queue req.sockfd) _
              (add_items_end d.current_readers_queue.items d.current_readers_queue.tail_ok
                req.sockfd)
              λ q e. elim (Bool-cases env.keeps_freed) [
                | inl keeps ↦
                    simp keeps
                      (inl (record { read = read; readable = reads; listed_now = e; trace = refl }))
                | inr loses ↦ simp loses tt
              ])
    ]

    writer :
        (req.rights == prot_read) ≡ false
        → may_write req.rights ≡ true
        → IfOk (TurnIs p d req) (serve_writer env p d req [])
    unfolding serve_writer satisfy_request giveup_localpage
    writer other write =
        elim (Bool-cases (not d.invalidate_sent && ltb 0 (size d.current_readers_queue))) [
          | inl many ↦ simp many (
              let (x, xs, is) =
                nonempty d.current_readers_queue.items
                  (some_listed (not d.invalidate_sent) d.current_readers_queue.items many) in
              IfOk-chain Pageless (TurnIs p d req)
                (invalidate_readers env p.page_id d.current_readers_queue.items []) _
                (invalidate_readers-Pageless p.page_id d.current_readers_queue.items []
                  (λ j. (refl, tt)))
                λ t h. inr (record {
                  other = other;
                  write = write;
                  first = x;
                  others = xs;
                  readers = is;
                  same_readers = refl;
                  same_requests = refl;
                  trace = h;
                }))
          | inr few ↦ simp few (elim (Bool-cases (size d.current_readers_queue == 0)) [
            | inr waits ↦ simp waits (
                let (x, xs, is) = nonempty d.current_readers_queue.items waits in
                inr (record {
                  other = other;
                  write = write;
                  first = x;
                  others = xs;
                  readers = is;
                  same_readers = refl;
                  same_requests = refl;
                  trace = λ j. (refl, tt);
                }))
            | inl none_left ↦ simp none_left (elim (Bool-cases (may_read p.mapped)) [
              | inr cannot ↦ simp cannot tt
              | inl reads ↦
                  simp
                    (
                      reads,
                      send_up env req.sockfd (givepage p.page_id req.rights p.bytes) []
                          (works req.sockfd),
                    )
                    (record {
                      none_listed = zero_length d.current_readers_queue.items none_left;
                      none_after = zero_length d.current_readers_queue.items none_left;
                      readable = reads;
                      mapped = refl;
                      protection = refl;
                      gone = refl;
                      trace = refl;
                    })
            ])
          ])
        ]

    pub serve-TurnIs : IfOk (TurnIs p d req) (serve env p d req [])
    unfolding serve
    serve-TurnIs = elim (Bool-cases (req.rights == prot_read)) [
      | inl read ↦ simp read (reader read)
      | inr other ↦ elim (Bool-cases (may_write req.rights)) [
        | inl write ↦ simp (other, write) (writer other write)
        | inr bad ↦ simp (other, bad) tt
      ]
    ]
