-- ===== src/Cluster/Preserved.antt =====
-- Every step of the system keeps the invariant.
use mathlib.Core.Path.{subst}
use mathlib.Core.Option.{some-injective}
use mathlib.Core.List.{nil≢cons}
use psar_dsm.Prelude.{
  ℕ, ◌≡◌, refl, sym, ap, ◌∙◌, ◌⊎◌, inl, inr, true, false, some, List, [], ◌∷◌, ◌++◌, ◌==◌,
  if◌then◌else◌, arith, ok, IfOk,
}
use psar_dsm.LinkedList.Queue.{Queue}
use psar_dsm.Memory.{Request, Directory, Page}
use psar_dsm.Message.{Message, lockpage, invalidate_ack, givepage, Event, Surroundings, up}
use psar_dsm.Core.{again, serve}
use psar_dsm.Node.{Node}
use psar_dsm.Node.Handlers.{givepage_page, received}
use psar_dsm.Node.Api.{Lock}
use psar_dsm.Node.Exclusive.{listed}
use psar_dsm.Cluster.{
  Cluster, local, takes, round, posted, Step, locks, wakes, unlocks_read, unlocks_write, leaves,
  stores, hears_page, hears_invalidate, takes_request, takes_ack, takes_page, serves, grants, rests,
}
use psar_dsm.Cluster.Channel.{IsClean}
use psar_dsm.Cluster.Local.{
  Tame, silent, lock_page-Tame, unlock_write_page-Tame, give_back-Tame, After, AfterAll,
  invalidate_page-Tame, lock_page_wake-Tame, givepage_page-received, received_down,
}
use psar_dsm.Cluster.Invariant.{
  AtWriter, Mode, owned, lent, stuck, Inv, Kept, local-Kept, keep-Owned, keep-Lent,
}
use psar_dsm.Cluster.Moves.{takes_quiet-Kept, takes_page-Kept}
use psar_dsm.Cluster.Turns.{ServedReader, WaitingWriter, TurnIs, serve-TurnIs}
use psar_dsm.Cluster.Rounds.{reader-Kept, writer-Kept, granted-Kept}

module _ (env : Surroundings) (works : (fd : ℕ) → env.link fd ≡ up) (station : ℕ → Node) where
  -- What a step of one node leaves, for a step that does not concern the master's loop.
  Tame-Kept :
      (s : Cluster) (i : ℕ) (p : Page) (u d : List Message)
      → Inv s
      → Tame (s.node i) (s.up i) (s.down i) p u d
      → Kept s (local s i p u d s.serving)
  Tame-Kept s i p u d inv tame = local-Kept s i p u d s.serving tame (λ e. e) inv

  pub arrived :
      (n : Node) (q : Page) (fuel id rights : ℕ) (bytes : List ℕ) (p : Page) (t : List Event)
      → givepage_page env fuel (record n { is_master = false }) id rights bytes q [] ≡ ok (p, t)
      → p ≡ received (record n { is_master = false }) rights bytes q
  arrived n q fuel id rights bytes p t run =
      subst
        (IfOk (λ (r : Page × List Event).
          r.0 ≡ received (record n { is_master = false }) rights bytes q))
        run
        (givepage_page-received env fuel (record n { is_master = false }) id rights bytes q refl)

  hears_page-Kept :
      (s : Cluster) (i fuel id rights : ℕ) (bytes : List ℕ) (rest : List Message) (p : Page)
      (t : List Event)
      → s.down i ≡ givepage id rights bytes ∷ rest
      → givepage_page env fuel
          (record (station i) { is_master = false })
          id
          rights
          bytes
          (s.node i)
          []
        ≡ ok (p, t)
      → Inv s
      → Kept s (local s i p (s.up i) rest (if i == 0 then true else s.serving))
  hears_page-Kept s i fuel id rights bytes rest p t head run inv =
      let n = record (station i) { is_master = false } in
      local-Kept s i p (s.up i) rest (if i == 0 then true else s.serving)
        (rw (arrived (station i) (s.node i) fuel id rights bytes p t run)
          (received_down n (s.node i) id rights bytes rest (s.up i) (s.down i) head))
        (λ e. ground arith) inv

  takes_request-Kept :
      (s : Cluster) (i id rights : ℕ) (rest : List Message) (d : Directory) (q : Queue Request)
      → s.serving ≡ false
      → s.up i ≡ lockpage id rights ∷ rest
      → (s.node 0).directory ≡ some d
      → Inv s
      → Kept s (
          takes s i (record (s.node 0) { directory = some (record d { requests_queue = q }) }) rest)
  takes_request-Kept s i id rights rest d q idle head is inv =
      takes_quiet-Kept s i
        (record (s.node 0) { directory = some (record d { requests_queue = q }) })
        (lockpage id rights) rest head idle
        (record { mirrored = (inv.sound 0).mirrored; gone = λ g. (inv.sound 0).gone g })
        (rw (listed, is) refl) refl refl inv

  -- No acknowledgement is taken: one is under way only while the master's listener is in its loop.
  takes_ack-not :
      (s : Cluster) (i id : ℕ) (rest : List Message)
      → s.serving ≡ false
      → s.up i ≡ invalidate_ack id ∷ rest
      → Mode s
      → ⊥
  takes_ack-not s i id rest idle head (owned o c) = (subst IsClean head (c i).0).0
  takes_ack-not s i id rest idle head (lent l c) = (subst IsClean head (c i).0).0
  takes_ack-not s i id rest idle head (stuck l b w) = ground arith

  page_taken-Kept :
      (s : Cluster) (i fuel id rights : ℕ) (bytes : List ℕ) (rest : List Message) (p : Page)
      (t : List Event)
      → s.serving ≡ false
      → s.up i ≡ givepage id rights bytes ∷ rest
      → givepage_page env fuel
          (record (station 0) { is_master = false })
          id
          rights
          bytes
          (s.node 0)
          []
        ≡ ok (p, t)
      → Inv s
      → Kept s (takes s i p rest)
  page_taken-Kept s i fuel id rights bytes rest p t idle head run inv =
      rw (arrived (station 0) (s.node 0) fuel id rights bytes p t run) (
        takes_page-Kept s i
          (received (record (station 0) { is_master = false }) rights bytes (s.node 0))
          (givepage id rights bytes) rest head idle (record { mirrored = refl; gone = λ e. cc })
          refl refl refl inv)

  serves-Kept :
      (s : Cluster) (d d' : Directory) (req : Request) (rest : List Request) (t : List Event)
      → s.serving ≡ true
      → (s.node 0).directory ≡ some d
      → d.requests_queue.items ≡ req ∷ rest
      → serve env (s.node 0) d req [] ≡ ok (again d' t)
      → Inv s
      → Kept s (round s (record (s.node 0) { directory = some d' }) t true)
  serves-Kept s d d' req rest t serving is at_head run inv =
      let turn : ServedReader (s.node 0) d req d' t ⊎ WaitingWriter d req d' t =
        subst (IfOk (TurnIs (s.node 0) d req)) run (serve-TurnIs env works (s.node 0) d req) in
      elim turn [
        | inl r ↦ reader-Kept s inv serving d req rest is at_head d' t r
        | inr w ↦ writer-Kept s inv serving d req rest is at_head d' t w
      ]

  rests-not :
      (s : Cluster) (d : Directory)
      → (s.node 0).directory ≡ some d
      → d.requests_queue.items ≡ []
      → AtWriter s
      → ⊥
  rests-not s d is none_left (d', req', rest', is', items', other, write) =
      let same_d : d' ≡ d = some-injective d' d (sym is' ∙ is) in
      nil≢cons
        (sym none_left ∙ ap (λ (e : Directory). e.requests_queue.items) (sym same_d) ∙ items')

  rests-Mode :
      (s : Cluster) (d : Directory)
      → (s.node 0).directory ≡ some d
      → d.requests_queue.items ≡ []
      → Mode s
      → Mode (record s { serving = false })
  rests-Mode s d is none_left (owned o c) =
      owned (keep-Owned s (record s { serving = false }) refl (λ j. omega arith) o) c
  rests-Mode s d is none_left (lent l c) =
      lent (keep-Lent s (record s { serving = false }) refl (λ j ne h. h) l) c
  rests-Mode s d is none_left (stuck l b w) = absurd (rests-not s d is none_left w)

  pub Step-Kept : {s s' : Cluster} → Step env station s s' → Inv s → Kept s s'
  Step-Kept {s} (locks i rights {p} {l} {t} run) inv = Tame-Kept s i p _ _ inv (
      subst
        (IfOk (λ (r : Page × Lock × List Event).
          Tame (s.node i) (s.up i) (s.down i) r.0 (s.up i ++ posted r.2) (s.down i)))
        run
        (lock_page-Tame (s.node i) (s.up i) (s.down i) (inv.sound i) env works
          (station i).master_sockfd rights))
  Step-Kept {s} (wakes i {p} run) inv = Tame-Kept s i p _ _ inv (
      subst (IfOk (λ p'. Tame (s.node i) (s.up i) (s.down i) p' (s.up i) (s.down i))) run
        (lock_page_wake-Tame (s.node i) (s.up i) (s.down i) (inv.sound i)))
  Step-Kept {s} (unlocks_read i) inv = Tame-Kept s i _ _ _ inv (
      silent (s.node i) (s.up i) (s.down i) (inv.sound i) (record (s.node i) { locked = false })
        (record { mapped = refl; protection = refl; uptodate = refl; directory = refl }))
  Step-Kept {s} (unlocks_write i {p} {t} run) inv = Tame-Kept s i p _ _ inv (
      subst
        (IfOk
          (After (s.node i) (s.up i) (s.down i) (inv.sound i) env works (station i).master_sockfd))
        run
        (unlock_write_page-Tame (s.node i) (s.up i) (s.down i) (inv.sound i) env works
          (station i).master_sockfd))
  Step-Kept {s} (leaves i {p} {t} slave run) inv = Tame-Kept s i p _ _ inv (
      subst
        (IfOk (
          AfterAll (s.node i) (s.up i) (s.down i) (inv.sound i) env works
            (station i).master_sockfd))
        run
        (give_back-Tame (s.node i) (s.up i) (s.down i) (inv.sound i) env works
          (station i).master_sockfd))
  Step-Kept {s} (stores i bytes can sized) inv = Tame-Kept s i _ _ _ inv (
      silent (s.node i) (s.up i) (s.down i) (inv.sound i) (record (s.node i) { bytes = bytes })
        (record { mapped = refl; protection = refl; uptodate = refl; directory = refl }))
  Step-Kept {s} (hears_page i fuel id rights {bytes} {rest} {p} {t} listens head run) inv =
      hears_page-Kept s i fuel id rights bytes rest p t head run inv
  Step-Kept {s} (hears_invalidate i from id {rest} {p} {t} listens head run) inv =
      Tame-Kept s i p _ _ inv (
        subst
          (IfOk (λ (r : Page × List Event).
            Tame (s.node i) (s.up i) (s.down i) r.0 (s.up i ++ posted r.1) rest))
          run
          (invalidate_page-Tame (s.node i) (s.up i) (s.down i) (inv.sound i) env works
            (station i).master_sockfd (station i).mem.page_count from id id rest (works from) head))
  Step-Kept {s} (takes_request i id rights block {rest} {d} {q} idle head is added) inv =
      takes_request-Kept s i id rights rest d q idle head is inv
  Step-Kept {s} (takes_ack i id {rest} {d} idle head is) inv =
      absurd (takes_ack-not s i id rest idle head inv.mode)
  Step-Kept {s} (takes_page i fuel id rights {bytes} {rest} {p} {t} idle head run) inv =
      page_taken-Kept s i fuel id rights bytes rest p t idle head run inv
  Step-Kept {s} (serves {d} {d'} {req} {rest} {t} serving is at_head run) inv =
      serves-Kept s d d' req rest t serving is at_head run inv
  Step-Kept {s} (grants {d} {req} {rest} {p} {t} serving is at_head run) inv =
      granted-Kept s inv serving d req rest is at_head p t
        (subst (IfOk (TurnIs (s.node 0) d req)) run (serve-TurnIs env works (s.node 0) d req))
  Step-Kept {s} (rests {d} serving is none_left) inv = record {
    inv = record { sound = inv.sound; mode = rests-Mode s d is none_left inv.mode };
    readers = λ r. r;
    stays = λ _ w. absurd (rests-not s d is none_left w.1);
  }
