-- ===== src/Core/Serve.antt =====
-- What process_list_requests does to a page of the master.
use psar_dsm.Prelude.{
  ℕ, zero, suc, ◌<◌, ◌≡◌, ◌≢◌, refl, inl, inr, Bool, true, false, some, List, [], ◌∷◌, ◌++◌, ◌==◌,
  ltb, if◌then◌else◌, Run, ok, exit, out_of_fuel, arith, length, Bool-cases,
}
use psar_dsm.Memory.{Request, Directory, Page, prot_read, may_read, may_write}
use psar_dsm.Message.{givepage, invalidate, Event, Surroundings, broken}
use psar_dsm.Core.{
  giveup_localpage, satisfy_request, invalidate_readers, again, returns, serve_reader, serve_writer,
  serve, requests_loop,
}
use psar_dsm.Core.Queues.{queue, remove_head, add_ok, deliver, status, dsm_send_msg-deliver}

-- A directory whose queues have the given contents, the readers' tail pointer being right.
abbrev pub directory : List Request → Bool → List ℕ → Bool → Directory
directory rs b readers sent = record {
  requests_queue = queue rs b;
  current_readers_queue = queue readers true;
  invalidate_sent = sent;
}

module _ (env : Surroundings) (p : Page) where
  -- The page goes to `fd` with the given rights.
  abbrev pub give : ℕ → ℕ → List Event → List Event
  give fd rights t = deliver env fd (givepage p.page_id rights p.bytes) t

  -- The reference: readers are given the page in order and listed; the first writer gets it, and
  -- the master gives it up, if no reader is listed; with a reader listed the loop never ends.
  unfoldable pub outcome :
      List Request → (b : Bool) → List ℕ → Bool → List Event → Run (Page × List Event)
  outcome [] b readers sent t = ok (record p { directory = some (directory [] b readers sent) }, t)
  outcome (req ∷ rest) b readers sent t =
      if req.rights == prot_read
      then outcome rest b (readers ++ req.sockfd ∷ []) sent (give req.sockfd req.rights t)
      else if may_write req.rights
      then elim readers [
        | [] ↦ ok (
          record (giveup_localpage p req.sockfd) { directory = some (directory rest b [] false) },
          give req.sockfd req.rights t,
        )
        | _ ∷ _ ↦ out_of_fuel
      ]
      else exit

module _ (env : Surroundings) (p : Page) (alive : (fd : ℕ) → env.link fd ≢ broken)
    (readable : may_read p.mapped ≡ true) where
  satisfy_request-give :
      (req : Request) (t : List Event)
      → satisfy_request env p req t ≡ ok (status env req.sockfd, give env p req.sockfd req.rights t)
  unfolding satisfy_request
  satisfy_request-give req t =
      rw
        (
          readable,
          dsm_send_msg-deliver env req.sockfd (givepage p.page_id req.rights p.bytes) t
              (alive req.sockfd),
        )
        refl

  serve-read :
      (req : Request) (rest : List Request) (b : Bool) (readers : List ℕ) (s : Bool)
      (t : List Event)
      → env.keeps_freed ≡ true
      → (req.rights == prot_read) ≡ true
      → serve env p (directory (req ∷ rest) b readers s) req t
        ≡ ok (
            again
              (directory rest b (readers ++ req.sockfd ∷ []) s)
              (give env p req.sockfd req.rights t))
  unfolding serve serve_reader
  serve-read req rest b readers s t keeps read =
      rw
        (read, satisfy_request-give req t, add_ok readers req.sockfd, keeps, remove_head req rest b)
        refl

  pub serve-grant :
      (req : Request) (rest : List Request) (b : Bool) (s : Bool) (t : List Event)
      → (req.rights == prot_read) ≡ false
      → may_write req.rights ≡ true
      → serve env p (directory (req ∷ rest) b [] s) req t
        ≡ ok (
            returns
              (record (giveup_localpage p req.sockfd) {
                directory = some (directory rest b [] false);
              })
              (give env p req.sockfd req.rights t))
  unfolding serve serve_writer
  serve-grant req rest b true t read write =
      rw (read, write, satisfy_request-give req t, remove_head req rest b) refl
  serve-grant req rest b false t read write =
      rw (read, write, satisfy_request-give req t, remove_head req rest b) refl

serve-refused :
    (env : Surroundings) (p : Page) (d : Directory) (req : Request) (t : List Event)
    → (req.rights == prot_read) ≡ false
    → may_write req.rights ≡ false
    → serve env p d req t ≡ exit
unfolding serve
serve-refused env p d req t other bad = rw (other, bad) refl

lt_suc : (n : ℕ) → ltb 0 (suc n) ≡ true
lt_suc n = ground arith

suc-ne : (n : ℕ) → (suc n == 0) ≡ false
suc-ne n = ground arith

-- A round at a writer while readers are listed leaves the queues as they are: the loop never ends.
module _ (env : Surroundings) (p : Page) (alive : (fd : ℕ) → env.link fd ≢ broken) where
  invalidate_readers-returns :
      (i : ℕ) (fds : List ℕ) (t : List Event)
      → (t' : List Event) × (invalidate_readers env i fds t ≡ ok t')
  unfolding invalidate_readers
  invalidate_readers-returns i [] t = (t, refl)
  invalidate_readers-returns i (fd ∷ fds) t =
      let sent = dsm_send_msg-deliver env fd (invalidate i) t (alive fd) in
      let (t', e) = invalidate_readers-returns i fds (deliver env fd (invalidate i) t) in
      (t', rw sent e)

  pub requests_loop-hangs :
      (k : ℕ) (req : Request) (rest : List Request) (b : Bool) (r : ℕ) (rs : List ℕ) (s : Bool)
      (t : List Event)
      → (req.rights == prot_read) ≡ false
      → may_write req.rights ≡ true
      → requests_loop env k p (directory (req ∷ rest) b (r ∷ rs) s) t ≡ out_of_fuel
  unfolding requests_loop serve serve_writer
  requests_loop-hangs zero req rest b r rs s t read write = refl
  requests_loop-hangs (suc k) req rest b r rs true t read write =
      rw (read, write, suc-ne (length rs)) (requests_loop-hangs k req rest b r rs true t read write)
  requests_loop-hangs (suc k) req rest b r rs false t read write =
      let (t', e) = invalidate_readers-returns p.page_id (r ∷ rs) t in
      rw (read, write, lt_suc (length rs), e)
        (requests_loop-hangs k req rest b r rs true t' read write)

module _ (env : Surroundings) (p : Page) (alive : (fd : ℕ) → env.link fd ≢ broken)
    (readable : may_read p.mapped ≡ true) (keeps : env.keeps_freed ≡ true) where
  -- While no send fails, the page can be read and a freed node still reads as it did, the loop of
  -- process_list_requests is the reference, at every fuel above the number of requests.
  pub requests_loop-outcome :
      (k : ℕ) (rs : List Request) (b : Bool) (readers : List ℕ) (s : Bool) (t : List Event)
      → length rs < k
      → requests_loop env k p (directory rs b readers s) t ≡ outcome env p rs b readers s t
  unfolding requests_loop outcome
  requests_loop-outcome zero rs b readers s t fuel = absurd (omega arith)
  requests_loop-outcome (suc k) [] b readers s t fuel = refl
  requests_loop-outcome (suc k) (req ∷ rest) b readers s t fuel =
      elim (Bool-cases (req.rights == prot_read)) [
        | inl read ↦
            rw (read, serve-read env p alive readable req rest b readers s t keeps read)
              (requests_loop-outcome k rest b (readers ++ req.sockfd ∷ []) s
                (give env p req.sockfd req.rights t) (omega arith))
        | inr other ↦ rw other (elim (Bool-cases (may_write req.rights)) [
          | inl write ↦ rw write (writer readers write other)
          | inr bad ↦ rw bad (refused bad other)
        ])
      ]
    where
      writer :
          (rd : List ℕ)
          → may_write req.rights ≡ true
          → (req.rights == prot_read) ≡ false
          → requests_loop env (suc k) p (directory (req ∷ rest) b rd s) t ≡ elim rd [
            | [] ↦ ok (
              record (giveup_localpage p req.sockfd) {
                directory = some (directory rest b [] false);
              },
              give env p req.sockfd req.rights t,
            )
            | _ ∷ _ ↦ out_of_fuel
          ]
      writer [] write other = rw (serve-grant env p alive readable req rest b s t other write) refl
      writer (r ∷ rd) write other =
          requests_loop-hangs env p alive (suc k) req rest b r rd s t other write

      refused :
          may_write req.rights ≡ false
          → (req.rights == prot_read) ≡ false
          → requests_loop env (suc k) p (directory (req ∷ rest) b readers s) t ≡ exit
      refused bad other =
          rw (serve-refused env p (directory (req ∷ rest) b readers s) req t other bad) refl
