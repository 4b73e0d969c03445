-- ===== src/Node/Requests.antt =====
-- handle_lockpage_msg on a page of the master.
use psar_dsm.Prelude.{
  ℕ, ◌+◌, ◌<◌, ◌≡◌, ◌≢◌, refl, inl, inr, Bool, true, false, some, List, [], ◌∷◌, ◌++◌, ◌==◌,
  if◌then◌else◌, ok, out_of_fuel, arith, length, length-append, Bool-cases, get_elem?,
}
use psar_dsm.Memory.{Request, Page, get_page_from_id, prot_read, may_read, may_write}
use psar_dsm.Message.{Event, Surroundings, broken}
use psar_dsm.Core.{process_list_requests}
use psar_dsm.Core.Queues.{add_ok}
use psar_dsm.Core.Serve.{directory, outcome, requests_loop-outcome, requests_loop-hangs}
use psar_dsm.Node.{Node, with_page}
use psar_dsm.Node.Handlers.{lockpage_page, handle_lockpage_msg}

abbrev pub asks : (from rights block : ℕ) → Request
asks from rights block = record { sockfd = from; rights = rights; block = block }

module _ (env : Surroundings) (alive : (fd : ℕ) → env.link fd ≢ broken) where
  -- While no send fails and a freed node still reads as it did, LOCKPAGE puts the request behind those
  -- that wait. On a page that is away, whatever its rights, nothing else happens; on a page that the
  -- master holds and can read, all the requests are then served as the reference says, at every fuel
  -- above their number.
  pub lockpage_page-outcome :
      (k : ℕ) (p : Page) (rs : List Request) (readers : List ℕ) (s : Bool) (from rights block : ℕ)
      (t : List Event)
      → env.keeps_freed ≡ true
      → (p.uptodate ≡ true → may_read p.mapped ≡ true)
      → p.directory ≡ some (directory rs true readers s)
      → length rs + 1 < k
      → lockpage_page env k from rights block p t ≡ (
          let waiting = rs ++ asks from rights block ∷ [] in
          let p' : Page = record p { directory = some (directory waiting true readers s) } in
          if p.uptodate then outcome env p' waiting true readers s t else ok (p', t))
  unfolding lockpage_page process_list_requests
  lockpage_page-outcome k p rs readers s from rights block t keeps readable is fuel =
      let waiting = rs ++ asks from rights block ∷ [] in
      elim (Bool-cases p.uptodate) [
        | inl here ↦
            rw (is, here, add_ok rs (asks from rights block), lockpage_page)
              (requests_loop-outcome env
                (record p { uptodate = true; directory = some (directory waiting true readers s) })
                alive (readable here) keeps k waiting true readers s t
                (omega (arith, length-append rs (asks from rights block ∷ []))))
        | inr away ↦ rw (is, away, add_ok rs (asks from rights block), lockpage_page) refl
      ]

  -- If no send fails, a request for writing on a page that the master holds, with no other request
  -- waiting and at least one reader listed, makes the handler run out of every fuel: it, and with it
  -- the master's listener, never returns. The INVALIDATE_ACK that would take the reader off the list
  -- is a message that the same listener would have to receive.
  pub handle_lockpage_msg-hangs :
      (k block : ℕ) (n : Node) (from page_id rights i : ℕ) (p : Page) (b : Bool) (r : ℕ)
      (rs : List ℕ) (s : Bool)
      → get_page_from_id n.mem page_id ≡ some i
      → get_elem? n.mem.pages i ≡ some p
      → p.uptodate ≡ true
      → p.directory ≡ some (directory [] b (r ∷ rs) s)
      → (rights == prot_read) ≡ false
      → may_write rights ≡ true
      → handle_lockpage_msg env k block n from page_id rights ≡ out_of_fuel
  unfolding handle_lockpage_msg with_page lockpage_page process_list_requests
  handle_lockpage_msg-hangs k block n from page_id rights i p b r rs s at is here dir other write =
      let waiting = asks from rights block in
      rw (at, is, dir, here, with_page, lockpage_page)
        (rw
          (requests_loop-hangs env
            (record p {
              uptodate = true;
              directory = some (directory (waiting ∷ []) true (r ∷ rs) s);
            })
            alive k waiting [] true r rs s n.trace other write)
          refl)
