-- ===== src/Node/Acquire.antt =====
-- A slave's lock of a page that the master has, from lock_page to the end of its wait: the messages
-- that one side sends are the ones that the other side's handler takes.
use psar_dsm.Prelude.{
  Bool, ℕ, ◌<◌, ◌≡◌, true, false, List, [], ◌∷◌, ◌==◌, Run, ok, blocked, ◌>>=◌, length, take-length,
  if◌then◌else◌,
}
use psar_dsm.Memory.{Page, may_read}
use psar_dsm.Message.{lockpage, givepage, Event, sent, Surroundings, up}
use psar_dsm.Core.Queues.{send_up}
use psar_dsm.Node.{Node}
use psar_dsm.Node.Handlers.{lockpage_page, givepage_page, received}
use psar_dsm.Node.Api.{waiting, lock_page, lock_page_wake}

module _ (env : Surroundings) where
  -- The master's handler on the slave's last message.
  abbrev pub at_master : (fuel from block : ℕ) → Page → List Event → Run (Page × List Event)
  at_master fuel from block q (sent fd (lockpage i r) ∷ t) =
      if i == q.page_id then lockpage_page env fuel from r block q [] else blocked
  at_master fuel from block q _ = blocked

  -- The slave's handler on the master's last message.
  abbrev pub at_slave : (fuel : ℕ) → Node → Page → List Event → Run (Page × List Event)
  at_slave fuel n p (sent fd (givepage i r bytes) ∷ t) =
      if i == p.page_id then givepage_page env fuel n i r bytes p [] else blocked
  at_slave fuel n p _ = blocked

  -- The page of the slave, and that of the master, after the slave has asked for the page and waited
  -- until it came.
  abbrev pub acquire :
      (fuel from block : ℕ) → Node → (rights : ℕ) → (mine theirs : Page) → Run (Page × Page)
  acquire fuel from block n rights mine theirs = do
    (p, l, asked) ← lock_page env n.master_sockfd mine rights []
    (q, answered) ← at_master fuel from block theirs asked
    (p', t) ← at_slave fuel n p answered
    p'' ← lock_page_wake p'
    ok (p'', q)

-- The slave's page once it has come: held, with the master's bytes and the rights asked for.
abbrev pub acquired : Node → (rights : ℕ) → List ℕ → Page → Page
acquired n rights bytes p = record (received n rights bytes p) { bytes = bytes; locked = true }

module _ (env : Surroundings) (works : (fd : ℕ) → env.link fd ≡ up) (keeps : env.keeps_freed ≡ true)
    (n : Node) (slave : n.is_master ≡ false) (mine theirs : Page)
    (same : mine.page_id ≡ theirs.page_id) (inside : theirs.page_id < n.mem.page_count)
    (free : mine.locked ≡ false) (away : mine.uptodate ≡ false) (here : theirs.uptodate ≡ true)
    (readable : may_read theirs.mapped ≡ true) (sized : length theirs.bytes ≡ n.mem.pagesize)
    (k from block : ℕ) (s : Bool) where
  asked :
      (rights : ℕ)
      → lock_page env n.master_sockfd mine rights []
        ≡ ok (mine, waiting, sent n.master_sockfd (lockpage mine.page_id rights) ∷ [])
  unfolding lock_page
  asked rights = simp (
    free,
    away,
    send_up env n.master_sockfd (lockpage mine.page_id rights) [] (works n.master_sockfd),
  )

  woken :
      (rights : ℕ)
      → lock_page_wake (received n rights theirs.bytes mine)
        ≡ ok (acquired n rights theirs.bytes mine)
  unfolding lock_page_wake
  woken rights = simp (free, take-length n.mem.pagesize theirs.bytes sized)
