-- ===== src/Cluster/Quiet.antt =====
-- The system while nothing but requests for writing is under way or waits, and no reader is listed.
use mathlib.Core.Path.{subst}
use mathlib.Core.Option.{some-injective}
use psar_dsm.Prelude.{
  ℕ, ◌≡◌, sym, ap, ◌∙◌, inl, inr, false, some, List, [], ◌∷◌, ◌++◌, arith, Bool, ok, IfOk,
}
use psar_dsm.LinkedList.Queue.{Queue, add, remove}
use psar_dsm.Memory.{Request, Directory, Page, slave_equals}
use psar_dsm.Message.{Message, lockpage, invalidate_ack, givepage, Event, Surroundings, up}
use psar_dsm.Core.{Turn, returns, serve}
use psar_dsm.Core.Serve.{directory}
use psar_dsm.Node.{Node}
use psar_dsm.Node.Handlers.{givepage_page}
use psar_dsm.Cluster.{Cluster, local, takes, round, posted}
use psar_dsm.Cluster.Nodes.{update_cases, changed}
use psar_dsm.Cluster.Preserved.{arrived}
use psar_dsm.Cluster.Asked.{to_write, AllAsk, AllWait, AllAsk-append, add-AllWait, IsPlain}
use psar_dsm.Cluster.Granted.{serve-Grants, Grants}

-- Nothing but requests for writing is under way or waits, and no reader is listed.
pub record WritersOnly (s : Cluster) : Type 0 where
  pub asks : (i : ℕ) → AllAsk (s.up i)
  pub requests : List Request
  pub tail_ok : Bool
  pub invalidate_sent : Bool
  pub is : (s.node 0).directory ≡ some (directory requests tail_ok [] invalidate_sent)
  pub waiting : AllWait requests

-- A step of one node that leaves its directory as it is.
pub local-WritersOnly :
    (s : Cluster) (i : ℕ) (p : Page) (u d : List Message) (b : Bool)
    → p.directory ≡ (s.node i).directory
    → AllAsk u
    → WritersOnly s
    → WritersOnly (local s i p u d b)
local-WritersOnly s i p u d b same asks w = record {
  asks = changed s.up i u (λ j. AllAsk) asks (λ j ne. w.asks j);
  requests = w.requests;
  tail_ok = w.tail_ok;
  invalidate_sent = w.invalidate_sent;
  is = elim (update_cases s.node i p 0) [
    | inl (e, is) ↦
        (let zero : i ≡ 0 = ground arith in
          ap (λ (q : Page). q.directory) is
          ∙ same
          ∙ subst
              (λ k.
                (s.node k).directory ≡ some (directory w.requests w.tail_ok [] w.invalidate_sent))
              (sym zero) w.is)
    | inr (e, is) ↦ ap (λ (q : Page). q.directory) is ∙ w.is
  ];
  waiting = w.waiting;
}

module _ (env : Surroundings) (works : (fd : ℕ) → env.link fd ≡ up) (station : ℕ → Node) where
  pub plain-WritersOnly :
      (s : Cluster) (i : ℕ) (p : Page) (t : List Event) (d : List Message)
      → IsPlain (s.node i) p t
      → WritersOnly s
      → WritersOnly (local s i p (s.up i ++ posted t) d s.serving)
  plain-WritersOnly s i p t d plain w =
      local-WritersOnly s i p (s.up i ++ posted t) d s.serving plain.0
        (AllAsk-append (s.up i) (posted t) (w.asks i) plain.1) w

  pub takes_request-WritersOnly :
      (s : Cluster) (i id rights block : ℕ) (rest : List Message) (d : Directory)
      (q : Queue Request)
      → s.up i ≡ lockpage id rights ∷ rest
      → (s.node 0).directory ≡ some d
      → add d.requests_queue (record { sockfd = i; rights = rights; block = block }) ≡ ok q
      → WritersOnly s
      → WritersOnly (
          takes s i (record (s.node 0) { directory = some (record d { requests_queue = q }) }) rest)
  takes_request-WritersOnly s i id rights block rest d q head at added w =
      let which =
        some-injective d (directory w.requests w.tail_ok [] w.invalidate_sent) (sym at ∙ w.is) in
      let (asked, more) = subst AllAsk head (w.asks i) in
      record {
        asks = changed s.up i rest (λ j. AllAsk) more (λ j ne. w.asks j);
        requests = q.items;
        tail_ok = q.tail_ok;
        invalidate_sent = w.invalidate_sent;
        is = ap (λ (e : Directory). some (record e { requests_queue = q })) which;
        waiting =
            subst (IfOk λ (q' : Queue Request). AllWait q'.items)
              (ap
                  (λ (e : Directory).
                    add e.requests_queue (record { sockfd = i; rights = rights; block = block }))
                  (sym which)
                ∙ added)
              (add-AllWait w.requests w.tail_ok
                (record { sockfd = i; rights = rights; block = block }) w.waiting asked);
      }

  pub takes_ack-WritersOnly :
      (s : Cluster) (i id : ℕ) (rest : List Message) (d : Directory)
      → s.up i ≡ invalidate_ack id ∷ rest
      → (s.node 0).directory ≡ some d
      → WritersOnly s
      → WritersOnly (
          takes s i
            (record (s.node 0) {
              directory = some (record d {
                current_readers_queue = remove slave_equals i d.current_readers_queue;
              });
            })
            rest)
  takes_ack-WritersOnly s i id rest d head at w =
      let which =
        some-injective d (directory w.requests w.tail_ok [] w.invalidate_sent) (sym at ∙ w.is) in
      let more = subst AllAsk head (w.asks i) in
      record {
        asks = changed s.up i rest (λ j. AllAsk) more.1 (λ j ne. w.asks j);
        requests = w.requests;
        tail_ok = w.tail_ok;
        invalidate_sent = w.invalidate_sent;
        is =
            ap
              (λ (e : Directory). some (record e {
                current_readers_queue = remove slave_equals i e.current_readers_queue;
              }))
              which;
        waiting = w.waiting;
      }

  -- The request that the loop stands at is the first of those that wait.
  pub at_head :
      (s : Cluster) (d : Directory) (req : Request) (rest : List Request) (w : WritersOnly s)
      → (s.node 0).directory ≡ some d
      → d.requests_queue.items ≡ req ∷ rest
      → (d ≡ directory (req ∷ rest) w.tail_ok [] w.invalidate_sent)
        × (req.rights ≡ to_write)
        × AllWait rest
  at_head s d req rest w at items =
      let which =
        some-injective d (directory w.requests w.tail_ok [] w.invalidate_sent) (sym at ∙ w.is) in
      let same = sym (ap (λ (e : Directory). e.requests_queue.items) which) ∙ items in
      let (write, more) = subst AllWait same w.waiting in
      (which ∙ ap (λ rs. directory rs w.tail_ok [] w.invalidate_sent) same, write, more)

  -- A round at the first request never goes on to another round.
  pub round-Grants :
      (s : Cluster) (d : Directory) (req : Request) (rest : List Request) (turn : Turn)
      (w : WritersOnly s)
      → d ≡ directory (req ∷ rest) w.tail_ok [] w.invalidate_sent
      → (write : req.rights ≡ to_write) → serve env (s.node 0) d req [] ≡ ok turn
      → Grants env works (s.node 0) req rest w.tail_ok w.invalidate_sent write turn
  round-Grants s d req rest turn w is write run =
      subst (IfOk (Grants env works (s.node 0) req rest w.tail_ok w.invalidate_sent write))
        (ap (λ e. serve env (s.node 0) e req []) (sym is) ∙ run)
        (serve-Grants env works (s.node 0) req rest w.tail_ok w.invalidate_sent write)

  pub grants-WritersOnly :
      (s : Cluster) (d : Directory) (req : Request) (rest : List Request) (p : Page)
      (t : List Event)
      → (s.node 0).directory ≡ some d
      → d.requests_queue.items ≡ req ∷ rest
      → serve env (s.node 0) d req [] ≡ ok (returns p t)
      → WritersOnly s
      → WritersOnly (round s p t false)
  grants-WritersOnly s d req rest p t at items run w =
      let (is, write, more) = at_head s d req rest w at items in
      record {
        asks = w.asks;
        requests = rest;
        tail_ok = w.tail_ok;
        invalidate_sent = false;
        is = round-Grants s d req rest (returns p t) w is write run;
        waiting = more;
      }

  pub page_taken-WritersOnly :
      (s : Cluster) (i fuel id rights : ℕ) (bytes : List ℕ) (rest : List Message) (p : Page)
      (t : List Event)
      → s.up i ≡ givepage id rights bytes ∷ rest
      → givepage_page env fuel
          (record (station 0) { is_master = false })
          id
          rights
          bytes
          (s.node 0)
          []
        ≡ ok (p, t)
      → WritersOnly s
      → WritersOnly (takes s i p rest)
  page_taken-WritersOnly s i fuel id rights bytes rest p t head run w =
      let more = subst AllAsk head (w.asks i) in
      record {
        asks = changed s.up i rest (λ j. AllAsk) more.1 (λ j ne. w.asks j);
        requests = w.requests;
        tail_ok = w.tail_ok;
        invalidate_sent = w.invalidate_sent;
        is =
            ap (λ (q : Page). q.directory)
              (arrived env works station (station 0) (s.node 0) fuel id rights bytes p t run)
            ∙ w.is;
        waiting = w.waiting;
      }
