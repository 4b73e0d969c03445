-- ===== src/Node/Listener.antt =====
-- msg_listener_start of dsm_socket.c: the loop of the listener's thread, over the sockets that select
-- reports in each round.
use psar_dsm.Prelude.{
  ℕ, ◌+◌, ◌%◌, ◌^◌, ◌≡◌, Bool, true, false, ◌&&◌, ◌||◌, not, Option, none, some, List, [], ◌∷◌,
  ◌==◌, if◌then◌else◌, ltb, Run, ok, exit, fault, ◌>>=◌, IfOk, if-IfOk, IfOk-ok, IfOk-chain,
  Option-cases, Bool-cases, inl, inr,
}
use mathlib.Core.Path.{subst}
use psar_dsm.Memory.Init.{IsMemory}
use psar_dsm.Message.{Message, Surroundings}
use psar_dsm.Node.{Node}
use psar_dsm.Node.Handlers.{dsm_dispatch_message}
use psar_dsm.Node.Invariant.{GivesRead, dsm_dispatch_message-IsMemory}

-- A socket with input pending: the socket that accept gives (`none` for an error) if it is the one
-- that the master listens on, and otherwise the message that dsm_receive_msg gives (`none` for -1),
-- with the address of the block that a copy of it gets.
pub record Input : Type 0 where
  pub fd : ℕ
  pub accepts : Option ℕ
  pub receives : Option Message
  pub block : ℕ

-- The node with active_fd_set, and the descriptors that dsm_socket_close has closed and accept has not
-- given again; the rest of the process opens nothing meanwhile.
pub record Listener : Type 0 where
  pub node : Node
  pub active : List ℕ
  pub closed : List ℕ

-- FD_SETSIZE
abbrev pub fd_setsize : ℕ
fd_setsize = 1024

abbrev pub is_set : ℕ → List ℕ → Bool
is_set fd [] = false
is_set fd (x ∷ xs) = fd == x || is_set fd xs

abbrev pub fd_clr : ℕ → List ℕ → List ℕ
fd_clr fd [] = []
fd_clr fd (x ∷ xs) = if fd == x then fd_clr fd xs else x ∷ fd_clr fd xs

abbrev pub fd_set : ℕ → List ℕ → List ℕ
fd_set fd xs = fd ∷ fd_clr fd xs

abbrev pub increment : ℕ → ℕ
increment c = (c + 1) % 2 ^ 32

-- What the system's select does on a set of descriptors, where those of the first list are closed: it
-- returns, or fails (`false`).
abbrev pub Select : Type 0
Select = (closed set : List ℕ) → Bool

module _ (env : Surroundings) (selects : Select) (fuel server : ℕ) where
  -- The body of the inner loop for a socket that is ready. FD_SET writes past the set for a
  -- descriptor from FD_SETSIZE on.
  unfoldable pub service : Listener → Input → Run Listener
  service l i =
      if l.node.is_master && i.fd == server
      then elim i.accepts [
        | none ↦ exit
        | some new ↦
            if ltb new fd_setsize
            then ok (record {
              node = record (l.node) { client_count = increment l.node.client_count };
              active = fd_set new l.active;
              closed = fd_clr new l.closed;
            })
            else fault
      ]
      else elim i.receives [
        | none ↦ ok (record l { active = fd_clr i.fd l.active; closed = fd_set i.fd l.closed })
        | some m ↦
            dsm_dispatch_message env fuel i.block l.node i.fd m >>= λ n. ok (record l { node = n })
      ]

  -- The inner loop; `ready` is the set that select was given, and the other sockets are passed over.
  unfoldable pub services : (ready : List ℕ) → Listener → List Input → Run Listener
  services ready l [] = ok l
  services ready l (i ∷ is) =
      (if is_set i.fd ready then service l i else ok l) >>= λ l'. services ready l' is

  -- The body of the outer loop: the master's socket is put into the set again, and select is called.
  unfoldable pub serve_round : Listener → List Input → Run Listener
  serve_round l round =
      if ltb l.node.master_sockfd fd_setsize
      then if selects l.closed (fd_set l.node.master_sockfd l.active)
        then services (fd_set l.node.master_sockfd l.active)
            (record l { active = fd_set l.node.master_sockfd l.active }) round
        else exit
      else fault

  -- The outer loop, over the sockets that are ready in each round.
  unfoldable pub msg_listener_start : Listener → List (List Input) → Run Listener
  msg_listener_start l [] = ok l
  msg_listener_start l (round ∷ rounds) = serve_round l round >>= λ l'. msg_listener_start l' rounds

  -- The listener's thread. `sock` is what it finds in master->sockfd as it starts; on the master that
  -- field is set after the thread is created, so it may be what malloc left there.
  unfoldable pub dsm_daemon_msg_listener : (sock : ℕ) → Node → List (List Input) → Run Listener
  dsm_daemon_msg_listener sock n rounds =
      if ltb sock fd_setsize && (not n.is_master || ltb server fd_setsize)
      then msg_listener_start
          (record {
            node = n;
            active = if n.is_master then fd_set server (fd_set sock []) else fd_set sock [];
            closed = [];
          })
          rounds
      else fault

-- Every page that arrives comes with the right to read it.
abbrev pub IfGivesRead : Option Message → Type 0
IfGivesRead none = Unit {0}
IfGivesRead (some m) = GivesRead m

abbrev pub AllGiveRead : List Input → Type 0
AllGiveRead [] = Unit {0}
AllGiveRead (i ∷ is) = IfGivesRead i.receives × AllGiveRead is

abbrev pub RoundsGiveRead : List (List Input) → Type 0
RoundsGiveRead [] = Unit {0}
RoundsGiveRead (round ∷ rounds) = AllGiveRead round × RoundsGiveRead rounds

abbrev ListenerMemory : Listener → Type 0
ListenerMemory l = IsMemory l.node.mem

module _ (env : Surroundings) (selects : Select) (fuel server : ℕ) where
  service-IfOk :
      (l : Listener) (i : Input)
      → IfGivesRead i.receives
      → IsMemory l.node.mem
      → IfOk ListenerMemory (service env selects fuel server l i)
  unfolding service
  service-IfOk l i g is = elim (Bool-cases (l.node.is_master && i.fd == server)) [
    | inl asks ↦
        rw (service, asks)
          (elim (Option-cases i.accepts) [
            | inl fails ↦ rw (fails) tt
            | inr (new, gives) ↦
                rw (gives) (if-IfOk ListenerMemory (ltb new fd_setsize) _ fault is tt)
          ])
    | inr talks ↦
        rw (service, talks)
          (elim (Option-cases i.receives) [
            | inl closed ↦ rw (closed) is
            | inr (m, came) ↦ rw (came) (
                IfOk-chain (λ n. IsMemory n.mem) ListenerMemory
                  (dsm_dispatch_message env fuel i.block l.node i.fd m) _
                  (IfOk-ok (λ n. IsMemory n.mem)
                    (dsm_dispatch_message env fuel i.block l.node i.fd m)
                    λ n run.
                      dsm_dispatch_message-IsMemory env fuel i.block l.node n i.fd m
                        (subst IfGivesRead came g) is run)
                  λ n is'. is')
          ])
  ]

  services-IfOk :
      (ready : List ℕ) (l : Listener) (is : List Input)
      → AllGiveRead is
      → IsMemory l.node.mem
      → IfOk ListenerMemory (services env selects fuel server ready l is)
  unfolding services
  services-IfOk ready l [] g m = m
  services-IfOk ready l (i ∷ is) g m =
      IfOk-chain ListenerMemory ListenerMemory _ _ (one (is_set i.fd ready))
        λ l' m'. services-IfOk ready l' is g.1 m'
    where
      one :
          (b : Bool) → IfOk ListenerMemory (if b then service env selects fuel server l i else ok l)
      one true = service-IfOk l i g.0 m
      one false = m

  serve_round-IfOk :
      (l : Listener) (round : List Input)
      → AllGiveRead round
      → IsMemory l.node.mem
      → IfOk ListenerMemory (serve_round env selects fuel server l round)
  unfolding serve_round
  serve_round-IfOk l round g m =
      let ready = fd_set l.node.master_sockfd l.active in
      if-IfOk ListenerMemory (ltb l.node.master_sockfd fd_setsize) _ fault
        (if-IfOk ListenerMemory (selects l.closed ready) _ exit
          (services-IfOk ready (record l { active = ready }) round g m) tt)
        tt

  listener-IfOk :
      (l : Listener) (rounds : List (List Input))
      → RoundsGiveRead rounds
      → IsMemory l.node.mem
      → IfOk ListenerMemory (msg_listener_start env selects fuel server l rounds)
  unfolding msg_listener_start
  listener-IfOk l [] g m = m
  listener-IfOk l (round ∷ rounds) g m =
      IfOk-chain ListenerMemory ListenerMemory (serve_round env selects fuel server l round) _
        (serve_round-IfOk l round g.0 m) λ l' m'. listener-IfOk l' rounds g.1 m'

  -- Whatever sockets are ready in whatever rounds, and whatever connections, messages and ends of
  -- connections they bring, the listener keeps the node's memory consistent, as long as each GIVEPAGE
  -- comes with the right to read.
  pub msg_listener_start-IsMemory :
      (l l' : Listener) (rounds : List (List Input))
      → RoundsGiveRead rounds
      → IsMemory l.node.mem
      → msg_listener_start env selects fuel server l rounds ≡ ok l'
      → IsMemory l'.node.mem
  msg_listener_start-IsMemory l l' rounds g m run =
      subst (IfOk ListenerMemory) run (listener-IfOk l rounds g m)
