-- ===== src/Core/Shape.antt =====
-- What process_list_requests may change of a page, on every path and at every fuel.
use psar_dsm.Prelude.{
  ℕ, zero, suc, ◌≡◌, refl, ◌⊎◌, inl, inr, some, List, [], ◌∷◌, ◌==◌, ltb, ◌&&◌, not, ok, ◌>>=◌,
  arith, Bool-cases, IfOk, IfOk-bind, IfOk-chain, Option-cases,
}
use psar_dsm.LinkedList.Queue.{size, add}
use psar_dsm.Memory.{Request, Directory, Page}
use psar_dsm.Message.{Event, Surroundings}
use psar_dsm.Core.{
  giveup_localpage, satisfy_request, invalidate_readers, Turn, again, returns, serve_reader,
  serve_writer, serve, requests_loop, process_list_requests,
}

-- Only the directory changes, or the page is given up to `fd` beside that.
abbrev pub Shape : Page → Page → Type 0
Shape p p' =
    ((d : Directory) × (p' ≡ record p { directory = some d }))
    ⊎ ((fd : ℕ) × (d : Directory) × (p' ≡ record (giveup_localpage p fd) { directory = some d }))

abbrev pub Shaped : Page → Page × List Event → Type 0
Shaped p r = Shape p r.0

abbrev TurnShape : Page → Turn → Type 0
TurnShape p (again d t) = Unit {0}
TurnShape p (returns p' t) = Shape p p'

module _ (env : Surroundings) (p : Page) where
  serve_reader-Shape :
      (d : Directory) (req : Request) (t : List Event)
      → IfOk (TurnShape p) (serve_reader env p d req t)
  unfolding serve_reader
  serve_reader-Shape d req t =
      IfOk-bind (TurnShape p) (satisfy_request env p req t) _
        λ st. IfOk-bind (TurnShape p) (add d.current_readers_queue req.sockfd) _ λ q. ground arith

  serve_writer-Shape :
      (d : Directory) (req : Request) (t : List Event)
      → IfOk (TurnShape p) (serve_writer env p d req t)
  unfolding serve_writer
  serve_writer-Shape d req t =
      elim (Bool-cases (not d.invalidate_sent && ltb 0 (size d.current_readers_queue))) [
        | inl many ↦ rw many (
            IfOk-bind (TurnShape p)
              (invalidate_readers env p.page_id d.current_readers_queue.items t) _ λ t'. tt)
        | inr other ↦ rw other (elim (Bool-cases (size d.current_readers_queue == 0)) [
          | inl none_left ↦ rw none_left (
              IfOk-bind (TurnShape p) (satisfy_request env p req t) _
                λ st. inr (req.sockfd, _, refl))
          | inr waits ↦ rw waits tt
        ])
      ]

  serve-Shape :
      (d : Directory) (req : Request) (t : List Event) → IfOk (TurnShape p) (serve env p d req t)
  unfolding serve
  serve-Shape d req t = ground (arith, serve_reader-Shape d req t, serve_writer-Shape d req t)

  requests_loop-Shape :
      (k : ℕ) (d : Directory) (t : List Event) → IfOk (Shaped p) (requests_loop env k p d t)
  unfolding requests_loop
  requests_loop-Shape zero d t = tt
  requests_loop-Shape (suc k) d t = body (requests_loop-Shape k) d.requests_queue.items
    where
      turned :
          ((d' : Directory) (t' : List Event) → IfOk (Shaped p) (requests_loop env k p d' t'))
          → (turn : Turn) → TurnShape p turn
          → IfOk (Shaped p) (elim turn [
            | again d' t' ↦ requests_loop env k p d' t'
            | returns p' t' ↦ ok (p', t')
          ])
      turned rest (again d' t') s = rest d' t'
      turned rest (returns p' t') s = s

      body :
          ((d' : Directory) (t' : List Event) → IfOk (Shaped p) (requests_loop env k p d' t'))
          → (rs : List Request)
          → IfOk (Shaped p) (elim rs [
            | [] ↦ ok (record p { directory = some d }, t)
            | req ∷ _ ↦ serve env p d req t >>= λ turn. elim turn [
              | again d' t' ↦ requests_loop env k p d' t'
              | returns p' t' ↦ ok (p', t')
            ]
          ])
      body rest [] = inl (d, refl)
      body rest (req ∷ _) =
          IfOk-chain (TurnShape p) (Shaped p) (serve env p d req t) _ (serve-Shape d req t)
            (turned rest)

  unchanged : (d : Directory) → p.directory ≡ some d → Shape p p
  unchanged d e = inl (d, λ i. record p { directory = e i })

  pub process_list_requests-Shape :
      (k : ℕ) (t : List Event) → IfOk (Shaped p) (process_list_requests env k p t)
  unfolding process_list_requests
  process_list_requests-Shape k t = elim (Option-cases p.directory) [
    | inl e ↦ rw (e, process_list_requests) tt
    | inr (d, e) ↦ elim (Bool-cases p.uptodate) [
      | inl now ↦ ground (arith, requests_loop-Shape k d t)
      | inr old ↦ ground (arith, unchanged d e)
    ]
  ]
