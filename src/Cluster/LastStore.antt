-- ===== src/Cluster/LastStore.antt =====
-- The bytes that the copies of the page hold are those of the last store.
use mathlib.Core.Path.{subst}
use psar_dsm.Prelude.{
  ℕ, ◌≡◌, refl, sym, ap, ◌∙◌, ◌⊎◌, inl, inr, true, false, some, List, [], ◌++◌, ◌==◌, if◌then◌else◌,
  arith, ok, IfOk, length,
}
use psar_dsm.Memory.{Request, Directory, Page, init_page}
use psar_dsm.Message.{lockpage, invalidate_ack, givepage, Event, Surroundings, up}
use psar_dsm.Core.{again, returns, serve}
use psar_dsm.Node.{Node}
use psar_dsm.Node.Api.{Lock}
use psar_dsm.Node.Exclusive.{listed}
use psar_dsm.Cluster.{
  Cluster, round, posted, posted_to, Step, locks, wakes, unlocks_read, unlocks_write, leaves,
  stores, hears_page, hears_invalidate, takes_request, takes_ack, takes_page, serves, grants, rests,
  Reach, here, next,
}
use psar_dsm.Cluster.Contents.{
  AllCarry, pageless-AllCarry, Shows, lock_page-Shows, unlock_write_page-Shows, AllShow,
  give_back-Shows, invalidate_page-Shows, lock_page_wake-Shows, received_down-Shows,
  received_up-Shows,
}
use psar_dsm.Cluster.Agreement.{
  Agrees, local-Agrees, takes-Agrees, round-Agrees, given-AllCarry, present, store-Agrees,
}
use psar_dsm.Cluster.Preserved.{arrived}
use psar_dsm.Cluster.Invariant.{Inv}
use psar_dsm.Cluster.Coherence.{start, Reach_start-Inv}
use psar_dsm.Cluster.Turns.{ServedReader, WaitingWriter, GrantedWriter, TurnIs, serve-TurnIs}

module _ {env : Surroundings} {station : ℕ → Node} where
  -- The bytes after a step, of which `bs` are those before it.
  abbrev pub stored : {s s' : Cluster} → List ℕ → Step env station s s' → List ℕ
  stored bs (stores i bytes can sized) = bytes
  stored bs _ = bs

  -- The master's program does not store into the page while a reader is listed.
  abbrev pub Considerate : {s s' : Cluster} → Step env station s s' → Type 0
  Considerate {s} (stores i bytes can sized) = i ≡ 0 → listed (s.node 0) ≡ []
  Considerate _ = Unit {0}

  abbrev pub last_stored : {s s' : Cluster} → List ℕ → Reach env station s s' → List ℕ
  last_stored bs here = bs
  last_stored bs (next r st) = stored (last_stored bs r) st

  abbrev pub AllConsiderate : {s s' : Cluster} → Reach env station s s' → Type 0
  AllConsiderate here = Unit {0}
  AllConsiderate (next r st) = AllConsiderate r × Considerate st

module _ (env : Surroundings) (works : (fd : ℕ) → env.link fd ≡ up) (station : ℕ → Node) where
  module _ (bs : List ℕ) (sized : (i : ℕ) → (station i).mem.pagesize ≡ length bs) where
    serves-Agrees :
        (s : Cluster) (d d' : Directory) (req : Request) (t : List Event)
        → serve env (s.node 0) d req [] ≡ ok (again d' t)
        → Inv s
        → Agrees bs s
        → Agrees bs (round s (record (s.node 0) { directory = some d' }) t true)
    serves-Agrees s d d' req t run inv all =
        let turn : ServedReader (s.node 0) d req d' t ⊎ WaitingWriter d req d' t =
          subst (IfOk (TurnIs (s.node 0) d req)) run (serve-TurnIs env works (s.node 0) d req) in
        round-Agrees bs s all (record (s.node 0) { directory = some d' }) t true (all 0).0
          (elim turn [
            | inl r ↦ λ j.
                subst (λ t'. AllCarry bs (posted_to j t')) (sym r.trace)
                  (given-AllCarry bs s all req (inv.sound 0) r.readable j)
            | inr w ↦ λ j. pageless-AllCarry bs (posted_to j t) (w.trace j).0
          ])

    grants-Agrees :
        (s : Cluster) (d : Directory) (req : Request) (p : Page) (t : List Event)
        → serve env (s.node 0) d req [] ≡ ok (returns p t)
        → Inv s
        → Agrees bs s
        → Agrees bs (round s p t false)
    grants-Agrees s d req p t run inv all =
        let g : GrantedWriter (s.node 0) d req p t =
          subst (IfOk (TurnIs (s.node 0) d req)) run (serve-TurnIs env works (s.node 0) d req) in
        round-Agrees bs s all p t false (λ e. absurd (ground (arith, g.gone)))
          λ j.
            subst (λ t'. AllCarry bs (posted_to j t')) (sym g.trace)
              (given-AllCarry bs s all req (inv.sound 0) g.readable j)

    Step-Agrees :
        {s s' : Cluster} (st : Step env station s s')
        → Inv s
        → Considerate st
        → Agrees bs s
        → Agrees (stored bs st) s'
    Step-Agrees {s} (locks i rights {p} {l} {t} run) inv c all =
        local-Agrees bs s all i p _ _ s.serving (
          subst
            (IfOk
              (λ (r : Page × Lock × List Event). Shows bs r.0 (s.up i ++ posted r.2) (s.down i)))
            run
            (lock_page-Shows bs (s.node i) (s.up i) (s.down i) (inv.sound i) (all i) env works
              (station i).master_sockfd rights))
    Step-Agrees {s} (wakes i {p} run) inv c all = local-Agrees bs s all i p _ _ s.serving (
        subst (IfOk (λ p'. Shows bs p' (s.up i) (s.down i))) run
          (lock_page_wake-Shows bs (s.node i) (s.up i) (s.down i) (inv.sound i) (all i)))
    Step-Agrees {s} (unlocks_read i) inv c all = local-Agrees bs s all i _ _ _ s.serving (all i)
    Step-Agrees {s} (unlocks_write i {p} {t} run) inv c all =
        local-Agrees bs s all i p _ _ s.serving (
          subst (IfOk (λ (r : Page × List Event). Shows bs r.0 (s.up i ++ posted r.1) (s.down i)))
            run
            (unlock_write_page-Shows bs (s.node i) (s.up i) (s.down i) (inv.sound i) (all i) env
              works (station i).master_sockfd))
    Step-Agrees {s} (leaves i {p} {t} slave run) inv c all =
        local-Agrees bs s all i p _ _ s.serving (
          subst
            (IfOk (
              AllShow bs (s.node i) (s.up i) (s.down i) (inv.sound i) (all i) env works
                (station i).master_sockfd))
            run
            (give_back-Shows bs (s.node i) (s.up i) (s.down i) (inv.sound i) (all i) env works
              (station i).master_sockfd))
    Step-Agrees {s} (stores i bytes can same) inv c all = store-Agrees s inv i can c bytes
    Step-Agrees {s} (hears_page i fuel id rights {bytes} {rest} {p} {t} listens head run) inv c
          all =
        local-Agrees bs s all i p _ _ (if i == 0 then true else s.serving) (
          subst (λ q. Shows bs q (s.up i) rest)
            (sym (arrived env works station (station i) (s.node i) fuel id rights bytes p t run))
            (received_down-Shows bs (s.node i) (s.up i) (s.down i) (inv.sound i) (all i)
              (record (station i) { is_master = false }) id rights bytes rest (sized i) head))
    Step-Agrees {s} (hears_invalidate i from id {rest} {p} {t} listens head run) inv c all =
        local-Agrees bs s all i p _ _ s.serving (
          subst (IfOk (λ (r : Page × List Event). Shows bs r.0 (s.up i ++ posted r.1) rest)) run (
            invalidate_page-Shows bs (s.node i) (s.up i) (s.down i) (inv.sound i) (all i) env works
              (station i).master_sockfd (station i).mem.page_count from id id rest (works from)
              head))
    Step-Agrees {s} (takes_request i id rights block {rest} {d} {q} idle head is added) inv c all =
        takes-Agrees bs s all i _ (lockpage id rights) rest head (all 0).0
    Step-Agrees {s} (takes_ack i id {rest} {d} idle head is) inv c all =
        takes-Agrees bs s all i _ (invalidate_ack id) rest head (all 0).0
    Step-Agrees {s} (takes_page i fuel id rights {bytes} {rest} {p} {t} idle head run) inv c all =
        takes-Agrees bs s all i p (givepage id rights bytes) rest head (
          subst (λ (q : Page). q.uptodate ≡ true → q.bytes ≡ bs)
            (sym (arrived env works station (station 0) (s.node 0) fuel id rights bytes p t run))
            (received_up-Shows bs (s.node 0) (s.up i) (s.down 0) (inv.sound 0)
              ((all 0).0, ((all i).1.0, (all 0).1.1)) (record (station 0) { is_master = false }) id
              rights bytes rest (sized 0) head).0)
    Step-Agrees {s} (serves {d} {d'} {req} {rest} {t} serving is at_head run) inv c all =
        serves-Agrees s d d' req t run inv all
    Step-Agrees {s} (grants {d} {req} {rest} {p} {t} serving is at_head run) inv c all =
        grants-Agrees s d req p t run inv all
    Step-Agrees {s} (rests {d} serving is none_left) inv c all = all

  length-stored :
      {s s' : Cluster} (bs : List ℕ) (st : Step env station s s')
      → Inv s
      → Considerate st
      → Agrees bs s
      → length (stored bs st) ≡ length bs
  length-stored {s} bs (stores i bytes can same) inv c all =
      same ∙ ap length ((all i).0 (present s inv i can c))
  length-stored bs _ inv c all = refl

  module _ (id : ℕ) (zeros : List ℕ)
      (sized : (i : ℕ) → (station i).mem.pagesize ≡ length zeros) where
    start-Agrees : Agrees zeros (start id zeros)
    unfolding init_page
    start-Agrees j = (λ e. refl, (tt, tt))

    Reach-Agrees :
        {s : Cluster} (r : Reach env station (start id zeros) s)
        → AllConsiderate r
        → Agrees (last_stored zeros r) s × (length (last_stored zeros r) ≡ length zeros)
    Reach-Agrees here c = (start-Agrees, refl)
    Reach-Agrees (next r st) c =
        let (all, same) = Reach-Agrees r c.0 in
        let inv = Reach_start-Inv id zeros env works station r in
        (
          Step-Agrees (last_stored zeros r) (λ i. sized i ∙ sym same) st inv c.1 all,
          length-stored (last_stored zeros r) st inv c.1 all ∙ same,
        )

    -- Where each step is done at once, every copy of the page that is up to date, on any
    -- node, has the bytes of the last store into the page, by whichever node's program it was, if the
    -- master's program does not store into it while a reader is listed. (The page starts as
    -- dsm_memory_init leaves it, all nodes have the page's size, and every socket works.)
    pub reads_last_store :
        {s : Cluster} (r : Reach env station (start id zeros) s)
        → AllConsiderate r
        → (j : ℕ) → (s.node j).uptodate ≡ true
        → (s.node j).bytes ≡ last_stored zeros r
    reads_last_store r c j present_here = ((Reach-Agrees r c).0 j).0 present_here
