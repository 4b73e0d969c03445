-- ===== src/Node/Clients.antt =====
-- How many clients the master counts under the listener's loop of dsm_socket.c, and how long it waits for
-- them in terminate.
use psar_dsm.Prelude.{
  ℕ, ◌+◌, ◌^◌, ◌<◌, ◌≤◌, ltb, ◌≡◌, refl, ap, ◌∙◌, Bool, true, false, ◌&&◌, none, some, List, [],
  ◌∷◌, ◌==◌, if◌then◌else◌, ok, exit, fault, IfOk, if-IfOk, IfOk-chain, Bool-cases, Option-cases,
  IfOk-mono, inl, inr, arith,
}
use mathlib.Core.Path.{subst}
use psar_dsm.Message.{Surroundings}
use psar_dsm.Node.{Node}
use psar_dsm.Node.Handlers.{dsm_dispatch_message}
use psar_dsm.Node.Api.{master_waits}
use psar_dsm.Node.Listener.{
  Input, Listener, Select, fd_setsize, is_set, fd_set, fd_clr, service, services, serve_round,
  msg_listener_start,
}
use psar_dsm.Node.Ledger.{Accounts, then_Accounts, leaves, dispatch-Accounts}

-- What a ready socket brings to the count, and what it does to the set of sockets. The master listens
-- on `server`.
abbrev pub joins_by : (server : ℕ) → Input → ℕ
joins_by server i = if i.fd == server then 1 else 0

abbrev pub leaves_by : (server : ℕ) → Input → ℕ
leaves_by server i = if i.fd == server then 0 else elim i.receives [ none ↦ 0 | some m ↦ leaves m ]

abbrev pub watches : (server : ℕ) → Input → List ℕ → List ℕ
watches server i active =
    if i.fd == server
    then elim i.accepts [ none ↦ active | some new ↦ fd_set new active ]
    else elim i.receives [ none ↦ fd_clr i.fd active | some m ↦ active ]

-- Over a round in which the sockets of `ready` are served.
abbrev pub joined : (server : ℕ) → (ready : List ℕ) → List Input → ℕ
joined server ready [] = 0
joined server ready (i ∷ is) =
    (if is_set i.fd ready then joins_by server i else 0) + joined server ready is

abbrev pub left : (server : ℕ) → (ready : List ℕ) → List Input → ℕ
left server ready [] = 0
left server ready (i ∷ is) =
    (if is_set i.fd ready then leaves_by server i else 0) + left server ready is

abbrev pub watched : (server : ℕ) → (ready : List ℕ) → List Input → List ℕ → List ℕ
watched server ready [] active = active
watched server ready (i ∷ is) active =
    watched server ready is (if is_set i.fd ready then watches server i active else active)

-- Over all rounds; `own` is the master's connection to itself.
abbrev pub all_joined : (server own : ℕ) → List ℕ → List (List Input) → ℕ
all_joined server own active [] = 0
all_joined server own active (round ∷ rounds) =
    let ready = fd_set own active in
    joined server ready round + all_joined server own (watched server ready round ready) rounds

abbrev pub all_left : (server own : ℕ) → List ℕ → List (List Input) → ℕ
all_left server own active [] = 0
all_left server own active (round ∷ rounds) =
    let ready = fd_set own active in
    left server ready round + all_left server own (watched server ready round ready) rounds

waits : (c q j : ℕ) → c + q ≡ j → j < 2 ^ 31 → (true && ltb 0 c && ltb c (2 ^ 31)) ≡ ltb q j
waits c q j e few = ground arith

module _ (env : Surroundings) (selects : Select) (fuel server : ℕ) where
  abbrev Tallies : Node → (joined left : ℕ) → (active : List ℕ) → Listener → Type 0
  Tallies n j q active l = Accounts n j q l.node × (l.active ≡ active)

  still : (n : Node) → n.is_master ≡ true → Accounts n 0 0 n
  still n master = record { master = master; socket = refl; count = refl; small = λ h. h }

  service-Tallies :
      (l : Listener) (i : Input)
      → l.node.is_master ≡ true
      → IfOk
          (Tallies l.node (joins_by server i) (leaves_by server i) (watches server i l.active))
          (service env selects fuel server l i)
  unfolding service
  service-Tallies l i master = elim (Bool-cases (i.fd == server)) [
    | inl asks ↦
        let e : (l.node.is_master && i.fd == server) ≡ true =
          ap (λ b. b && i.fd == server) master ∙ asks in
        rw (service, e, asks)
          (elim (Option-cases i.accepts) [
            | inl fails ↦ rw fails tt
            | inr (new, gives) ↦ rw gives (
                if-IfOk _ (ltb new fd_setsize) _ fault
                  (
                    record {
                      master = master;
                      socket = refl;
                      count = omega arith;
                      small = λ h. omega arith;
                    },
                    refl,
                  )
                  tt)
          ])
    | inr talks ↦
        let e : (l.node.is_master && i.fd == server) ≡ false =
          ap (λ b. b && i.fd == server) master ∙ talks in
        rw (service, e, talks)
          (elim (Option-cases i.receives) [
            | inl closed ↦ rw closed (still l.node master, refl)
            | inr (m, came) ↦ rw came (
                IfOk-chain (Accounts l.node 0 (leaves m)) _
                  (dsm_dispatch_message env fuel i.block l.node i.fd m) _
                  (dispatch-Accounts env l.node master fuel i.block i.fd m) λ n a. (a, refl))
          ])
  ]

  services-Tallies :
      (ready : List ℕ) (l : Listener) (is : List Input)
      → l.node.is_master ≡ true
      → IfOk
          (Tallies l.node
            (joined server ready is)
            (left server ready is)
            (watched server ready is l.active))
          (services env selects fuel server ready l is)
  unfolding services
  services-Tallies ready l [] master = (still l.node master, refl)
  services-Tallies ready l (i ∷ is) master =
      IfOk-chain
        (Tallies l.node (if is_set i.fd ready then joins_by server i else 0)
          (if is_set i.fd ready then leaves_by server i else 0)
          (if is_set i.fd ready then watches server i l.active else l.active))
        _ _ _ (one (is_set i.fd ready))
        λ l' a.
          IfOk-mono
            (Tallies l'.node (joined server ready is) (left server ready is)
              (watched server ready is l'.active))
            (Tallies l.node (joined server ready (i ∷ is)) (left server ready (i ∷ is))
              (watched server ready (i ∷ is) l.active))
            _ (services-Tallies ready l' is a.0.master)
            λ l'' a'. (
              then_Accounts l.node l'.node l''.node _ _ _ _ a.0 a'.0,
              a'.1 ∙ ap (watched server ready is) a.1,
            )
    where
      one :
          (b : Bool)
          → IfOk
              (Tallies l.node
                (if b then joins_by server i else 0)
                (if b then leaves_by server i else 0)
                (if b then watches server i l.active else l.active))
              (if b then service env selects fuel server l i else ok l)
      one true = service-Tallies l i master
      one false = (still l.node master, refl)

  serve_round-Tallies :
      (l : Listener) (round : List Input)
      → l.node.is_master ≡ true
      → IfOk
          (let ready = fd_set l.node.master_sockfd l.active in
            Tallies l.node
              (joined server ready round)
              (left server ready round)
              (watched server ready round ready))
          (serve_round env selects fuel server l round)
  unfolding serve_round
  serve_round-Tallies l round master =
      let ready = fd_set l.node.master_sockfd l.active in
      if-IfOk _ (ltb l.node.master_sockfd fd_setsize) _ fault
        (if-IfOk _ (selects l.closed ready) _ exit
          (services-Tallies ready (record l { active = ready }) round master) tt)
        tt

  listener-Accounts :
      (l : Listener) (rounds : List (List Input))
      → l.node.is_master ≡ true
      → IfOk
          (λ l'.
            Accounts l.node
              (all_joined server l.node.master_sockfd l.active rounds)
              (all_left server l.node.master_sockfd l.active rounds)
              l'.node)
          (msg_listener_start env selects fuel server l rounds)
  unfolding msg_listener_start
  listener-Accounts l [] master = still l.node master
  listener-Accounts l (round ∷ rounds) master =
      let own = l.node.master_sockfd in
      let ready = fd_set own l.active in
      IfOk-chain
        (Tallies l.node (joined server ready round) (left server ready round)
          (watched server ready round ready))
        _ (serve_round env selects fuel server l round) _ (serve_round-Tallies l round master)
        λ l' a.
          IfOk-mono _ _ (msg_listener_start env selects fuel server l' rounds)
            (listener-Accounts l' rounds a.0.master)
            λ l'' a'.
              let from = λ (own' : ℕ) (active : List ℕ).
                Accounts l'.node (all_joined server own' active rounds)
                  (all_left server own' active rounds) l''.node in
              then_Accounts l.node l'.node l''.node _ _ _ _ a.0 (
                subst (λ own'. from own' (watched server ready round ready)) a.0.socket
                  (subst (λ active. from l'.node.master_sockfd active) a.1 a'))

  -- A master that starts with no client waits in terminate exactly as long as more sockets have
  -- connected to it than TERMINATE has come from, whatever else its listener has taken in any rounds, if
  -- fewer than 2^31 have connected and TERMINATE did not come more often than that.
  pub master_waits-left :
      (l l' : Listener) (rounds : List (List Input))
      → l.node.is_master ≡ true
      → l.node.client_count ≡ 0
      → all_joined server l.node.master_sockfd l.active rounds < 2 ^ 31
      → all_left server l.node.master_sockfd l.active rounds
        ≤ all_joined server l.node.master_sockfd l.active rounds
      → msg_listener_start env selects fuel server l rounds ≡ ok l'
      → master_waits l'.node
        ≡ ltb
            (all_left server l.node.master_sockfd l.active rounds)
            (all_joined server l.node.master_sockfd l.active rounds)
  unfolding master_waits
  master_waits-left l l' rounds master empty few fewer run =
      let a =
        subst
          (IfOk λ (l0 : Listener).
            Accounts l.node (all_joined server l.node.master_sockfd l.active rounds)
              (all_left server l.node.master_sockfd l.active rounds) l0.node)
          run (listener-Accounts l rounds master) in
      let small = Accounts.small a (omega arith) in
      let is = Accounts.count a in
      let left_over : l'.node.client_count + all_left server l.node.master_sockfd l.active rounds
          ≡ all_joined server l.node.master_sockfd l.active rounds =
        omega arith in
      ap (λ b. b && ltb 0 l'.node.client_count && ltb l'.node.client_count (2 ^ 31))
        (Accounts.master a)
      ∙ waits l'.node.client_count _ _ left_over few
