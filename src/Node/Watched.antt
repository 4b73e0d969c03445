-- ===== src/Node/Watched.antt =====
-- The sockets that a slave's listener watches (msg_listener_start of dsm_socket.c), and what becomes of
-- it when the connection to the master ends.
use psar_dsm.Prelude.{
  ℕ, ◌<◌, ◌≡◌, refl, sym, ◌∙◌, Bool, true, false, ◌&&◌, ◌||◌, List, [], ◌∷◌, ◌==◌, ltb,
  if◌then◌else◌, ok, exit, fault, IfOk, IfOk-chain, if-IfOk, Bool-cases, Option-cases, inl, inr,
  arith,
}
use mathlib.Core.Path.{subst}
use psar_dsm.Message.{Surroundings}
use psar_dsm.Node.{Node}
use psar_dsm.Node.Handlers.{dsm_dispatch_message}
use psar_dsm.Node.Role.{Stays, dispatch-Stays}
use psar_dsm.Node.Listener.{
  Input, Listener, Select, fd_setsize, is_set, fd_set, service, services, serve_round,
  msg_listener_start, dsm_daemon_msg_listener,
}
use psar_dsm.Node.Descriptors.{
  is_end, ends, ended, Selects, is_set-fd_clr, is_set-fd_set, Watches, or_false, or_assoc,
  passed_over, if_not, next_select,
}

module _ (env : Surroundings) (selects : Select) (fuel server own : ℕ) where
  service-Watches :
      (gone : Bool) (l : Listener) (i : Input)
      → Watches own gone l
      → IfOk
          (Watches own (gone || (i.fd == own && is_end i.receives)))
          (service env selects fuel server l i)
  unfolding service
  service-Watches gone l i w =
      rw (service, w.slave)
        (elim (Option-cases i.receives) [
          | inl closed ↦ rw closed (record {
            slave = w.slave;
            socket = w.socket;
            others = λ fd other active. grind (
              arith,
              is_set-fd_clr fd i.fd l.active,
              is_set-fd_set fd i.fd l.closed,
              w.others fd,
            );
            own_closed = ground (arith, is_set-fd_set own i.fd l.closed, w.own_closed);
          })
          | inr (m, came) ↦ rw came (
              IfOk-chain (Stays l.node) _ (dsm_dispatch_message env fuel i.block l.node i.fd m) _
                (dispatch-Stays env l.node fuel i.block i.fd m)
                λ n stays. record {
                  slave = stays.0 ∙ w.slave;
                  socket = stays.1 ∙ w.socket;
                  others = w.others;
                  own_closed = ground (arith, w.own_closed);
                })
        ])

  services-Watches :
      (ready : List ℕ) (gone : Bool) (l : Listener) (is : List Input)
      → is_set own ready ≡ true
      → Watches own gone l
      → IfOk (Watches own (gone || ends own is)) (services env selects fuel server ready l is)
  unfolding services
  services-Watches ready gone l [] at w = subst (λ b. Watches own b l) (sym (or_false gone)) w
  services-Watches ready gone l (i ∷ is) at w =
      let here = i.fd == own && is_end i.receives in
      IfOk-chain (Watches own (gone || here)) _ _ _ (one (is_set i.fd ready) refl) λ l' w'.
        subst (λ b. IfOk (Watches own b) (services env selects fuel server ready l' is))
          (or_assoc gone here (ends own is)) (services-Watches ready (gone || here) l' is at w')
    where
      one :
          (b : Bool)
          → is_set i.fd ready ≡ b
          → IfOk
              (Watches own (gone || i.fd == own && is_end i.receives))
              (if b then service env selects fuel server l i else ok l)
      one true e = service-Watches gone l i w
      one false e = subst (λ b. Watches own b l) (passed_over own ready gone i at e) w

  serve_round-Watches :
      (gone : Bool) (l : Listener) (round : List Input)
      → Watches own gone l
      → IfOk (Watches own (gone || ends own round)) (serve_round env selects fuel server l round)
  unfolding serve_round
  serve_round-Watches gone l round w =
      let ready = fd_set l.node.master_sockfd l.active in
      if-IfOk _ (ltb l.node.master_sockfd fd_setsize) _ fault
        (if-IfOk _ (selects l.closed ready) _ exit
          (services-Watches ready gone (record l { active = ready }) round
            (ground (arith, is_set-fd_set own l.node.master_sockfd l.active, w.socket))
            (record {
              slave = w.slave;
              socket = w.socket;
              others = λ fd other active.
                  grind (arith, is_set-fd_set fd own l.active, w.others fd, w.socket);
              own_closed = w.own_closed;
            }))
          tt)
        tt

  listener-Watches :
      (gone : Bool) (l : Listener) (rounds : List (List Input))
      → Watches own gone l
      → IfOk
          (Watches own (gone || ended own rounds))
          (msg_listener_start env selects fuel server l rounds)
  unfolding msg_listener_start
  listener-Watches gone l [] w = subst (λ b. Watches own b l) (sym (or_false gone)) w
  listener-Watches gone l (round ∷ rounds) w =
      IfOk-chain (Watches own (gone || ends own round)) _ _ _ (serve_round-Watches gone l round w)
        λ l' w'.
          subst (λ b. IfOk (Watches own b) (msg_listener_start env selects fuel server l' rounds))
            (or_assoc gone (ends own round) (ended own rounds))
            (listener-Watches (gone || ends own round) l' rounds w')

  -- Where the listener of a slave has come to is where its loop has come to.
  loop_of_slave :
      (n : Node) (l' : Listener) (rounds : List (List Input))
      → n.is_master ≡ false
      → dsm_daemon_msg_listener env selects fuel server own n rounds ≡ ok l'
      → (own < fd_setsize)
        × (msg_listener_start env selects fuel server
              (record { node = n; active = fd_set own []; closed = [] })
              rounds
            ≡ ok l')
  unfolding dsm_daemon_msg_listener
  loop_of_slave n l' rounds slave run = elim (Bool-cases (ltb own fd_setsize)) [
    | inl small ↦
        let started : dsm_daemon_msg_listener env selects fuel server own n rounds
            ≡ msg_listener_start env selects fuel server
                (record { node = n; active = fd_set own []; closed = [] }) rounds =
          simp (small, slave) refl in
        (ground arith, sym started ∙ run)
    | inr large ↦ absurd (ground arith)
  ]

  -- Once the connection of a slave to the master has ended, the next round of the slave's listener ends
  -- the process, since select fails on the closed descriptor that is put into the set again. Until
  -- then select never fails, and each round serves the sockets that are ready, whatever other
  -- connections end. (select fails for closed descriptors alone.)
  pub slave_round-ended :
      (n : Node) (l' : Listener) (rounds : List (List Input)) (round : List Input)
      → Selects selects
      → n.is_master ≡ false
      → n.master_sockfd ≡ own
      → dsm_daemon_msg_listener env selects fuel server own n rounds ≡ ok l'
      → serve_round env selects fuel server l' round ≡ (
          if ended own rounds
          then exit
          else services env selects fuel server
              (fd_set own l'.active)
              (record l' { active = fd_set own l'.active })
              round)
  unfolding serve_round
  slave_round-ended n l' rounds round sel slave socket run =
      let (small, loop) = loop_of_slave n l' rounds slave run in
      let w : Watches own (ended own rounds) l' =
        subst (IfOk (Watches own (ended own rounds))) loop (
          listener-Watches false (record { node = n; active = fd_set own []; closed = [] }) rounds
            (record {
              slave = slave;
              socket = socket;
              others = λ fd other active. refl;
              own_closed = refl;
            })) in
      let size : ltb own fd_setsize ≡ true = ground arith in
      simp (w.socket, size, next_select selects own (ended own rounds) l' sel w)
        (if_not (ended own rounds) _ exit)
