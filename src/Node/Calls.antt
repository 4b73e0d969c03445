-- ===== src/Node/Calls.antt =====
-- What the calls of the program's own thread do to the node.
use psar_dsm.Prelude.{
  ℕ, ◌≡◌, refl, inl, inr, ◌⊎◌, true, false, List, [], ◌∷◌, map, if◌then◌else◌, ok, arith,
  Bool-cases,
}
use psar_dsm.Memory.{Page, may_read, may_write}
use psar_dsm.Message.{givepage, terminate_msg, Event, sent, Surroundings, up}
use psar_dsm.Core.{satisfy_request, giveup_localpage}
use psar_dsm.Core.Queues.{send_up}
use psar_dsm.Node.{Node}
use psar_dsm.Node.Api.{give_back, terminate}

-- The page after a slave has left: given up if it was held for writing.
abbrev pub returned : (master_sockfd : ℕ) → Page → Page
returned master p = if may_write p.protection then giveup_localpage p master else p

-- The trace after each page that is held for writing has been sent to the master.
abbrev pub handed_in : (master_sockfd : ℕ) → List Page → List Event → List Event
handed_in master [] t = t
handed_in master (p ∷ ps) t =
    handed_in master ps
      (if may_write p.protection then sent master (givepage p.page_id 3 p.bytes) ∷ t else t)

-- What is held for writing can be read.
abbrev pub WritableRead : List Page → Type 0
WritableRead [] = Unit {0}
WritableRead (p ∷ ps) =
    ((may_write p.protection ≡ false) ⊎ (may_read p.mapped ≡ true)) × WritableRead ps

-- No page of the list is held for writing.
abbrev pub NoneWritable : List Page → Type 0
NoneWritable [] = Unit {0}
NoneWritable (p ∷ ps) = (may_write p.protection ≡ false) × NoneWritable ps

returned-NoneWritable : (master : ℕ) (ps : List Page) → NoneWritable (map (returned master) ps)
unfolding giveup_localpage
returned-NoneWritable master [] = tt
returned-NoneWritable master (p ∷ ps) = (ground arith, returned-NoneWritable master ps)

module _ (env : Surroundings) where
  give_back-returned :
      (master : ℕ) (ps : List Page) (t : List Event)
      → env.link master ≡ up
      → WritableRead ps
      → give_back env master ps t ≡ ok (map (returned master) ps, handed_in master ps t)
  unfolding give_back satisfy_request
  give_back-returned master [] t works r = refl
  give_back-returned master (p ∷ ps) t works r = elim (Bool-cases (may_write p.protection)) [
    | inl write ↦
        let readable : may_read p.mapped ≡ true = ground (arith, r.0) in
        rw
          (
            write,
            readable,
            send_up env master (givepage p.page_id 3 p.bytes) t works,
            give_back-returned master ps (sent master (givepage p.page_id 3 p.bytes) ∷ t) works r.1,
          )
          refl
    | inr not_write ↦ rw (not_write, give_back-returned master ps t works r.1) refl
  ]

  -- A slave that leaves sends each page that it holds for writing to the master, with its bytes and
  -- in the order of the pages, then TERMINATE; it gives those pages up and keeps the others as they
  -- are, so that it holds none for writing. (The socket to the master works, and what is held for
  -- writing can be read.)
  pub terminate-returned :
      (n : Node)
      → n.is_master ≡ false
      → env.link n.master_sockfd ≡ up
      → WritableRead n.mem.pages
      → (terminate env n
          ≡ ok (record n {
            mem = record (n.mem) { pages = map (returned n.master_sockfd) n.mem.pages };
            trace =
                sent n.master_sockfd terminate_msg ∷ handed_in n.master_sockfd n.mem.pages n.trace;
          }))
        × NoneWritable (map (returned n.master_sockfd) n.mem.pages)
  unfolding terminate
  terminate-returned n slave works r = (
    rw
        (
          slave,
          give_back-returned n.master_sockfd n.mem.pages n.trace works r,
          send_up env n.master_sockfd terminate_msg (handed_in n.master_sockfd n.mem.pages n.trace)
              works,
        )
        refl,
    returned-NoneWritable n.master_sockfd n.mem.pages,
  )
