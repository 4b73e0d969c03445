-- ===== src/Cluster/Writers.antt =====
-- Runs in which the programs take the page by lock_write only.
use mathlib.Core.Path.{subst}
use psar_dsm.Prelude.{
  ℕ, ◌≡◌, refl, sym, ap, ◌∙◌, true, false, some, List, [], ◌∷◌, ◌==◌, Bool, if◌then◌else◌, IfOk,
}
use psar_dsm.Memory.{Request, Page, may_read, init_page}
use psar_dsm.Message.{Event, Surroundings, up}
use psar_dsm.Core.{again}
use psar_dsm.Core.Serve.{directory}
use psar_dsm.Node.{Node}
use psar_dsm.Node.Api.{Lock, lock_page}
use psar_dsm.Cluster.{
  Cluster, Step, locks, wakes, unlocks_read, unlocks_write, leaves, stores, hears_page,
  hears_invalidate, takes_request, takes_ack, takes_page, serves, grants, rests, Reach, here, next,
}
use psar_dsm.Cluster.Preserved.{arrived}
use psar_dsm.Cluster.Coherence.{start}
use psar_dsm.Cluster.Asked.{
  to_write, AllWait, IsPlain, OnePlain, lock_page-IsPlain, unlock_write_page-IsPlain,
  give_back-IsPlain, invalidate_page-IsPlain, lock_page_wake-directory,
}
use psar_dsm.Cluster.Granted.{serve-granted}
use psar_dsm.Cluster.Quiet.{
  WritersOnly, local-WritersOnly, plain-WritersOnly, takes_request-WritersOnly,
  takes_ack-WritersOnly, at_head, round-Grants, grants-WritersOnly, page_taken-WritersOnly,
}

module _ (env : Surroundings) (works : (fd : ℕ) → env.link fd ≡ up) (station : ℕ → Node) where
  -- Every lock that the programs take in a step is for writing.
  abbrev ForWriting : {s s' : Cluster} → Step env station s s' → Type 0
  ForWriting (locks i rights run) = rights ≡ to_write
  ForWriting _ = Unit {0}

  Step-WritersOnly :
      {s s' : Cluster} (st : Step env station s s') → ForWriting st → WritersOnly s → WritersOnly s'
  Step-WritersOnly {s} (locks i rights {p} {l} {t} run) e w =
      plain-WritersOnly env works station s i p t (s.down i)
        (subst (IfOk (λ (r : Page × Lock × List Event). IsPlain (s.node i) r.0 r.2))
          (ap (λ k. lock_page env (station i).master_sockfd (s.node i) k []) (sym e) ∙ run)
          (lock_page-IsPlain env works (s.node i) (station i).master_sockfd))
        w
  Step-WritersOnly {s} (wakes i {p} run) e w =
      local-WritersOnly s i p (s.up i) (s.down i) s.serving
        (subst (IfOk (λ (p' : Page). p'.directory ≡ (s.node i).directory)) run
          (lock_page_wake-directory (s.node i)))
        (w.asks i) w
  Step-WritersOnly {s} (unlocks_read i) e w =
      local-WritersOnly s i (record (s.node i) { locked = false }) (s.up i) (s.down i) s.serving
        refl (w.asks i) w
  Step-WritersOnly {s} (unlocks_write i {p} {t} run) e w =
      plain-WritersOnly env works station s i p t (s.down i)
        (subst (IfOk (λ (r : Page × List Event). IsPlain (s.node i) r.0 r.1)) run
          (unlock_write_page-IsPlain env works (s.node i) (station i).master_sockfd))
        w
  Step-WritersOnly {s} (leaves i {p} {t} slave run) e w =
      plain-WritersOnly env works station s i p t (s.down i)
        (subst (IfOk (OnePlain env works (s.node i) (station i).master_sockfd)) run
          (give_back-IsPlain env works (s.node i) (station i).master_sockfd))
        w
  Step-WritersOnly {s} (stores i bytes can sized) e w =
      local-WritersOnly s i (record (s.node i) { bytes = bytes }) (s.up i) (s.down i) s.serving refl
        (w.asks i) w
  Step-WritersOnly {s} (hears_page i fuel id rights {bytes} {rest} {p} {t} listens head run) e w =
      local-WritersOnly s i p (s.up i) rest (if i == 0 then true else s.serving)
        (ap (λ (q : Page). q.directory)
          (arrived env works station (station i) (s.node i) fuel id rights bytes p t run))
        (w.asks i) w
  Step-WritersOnly {s} (hears_invalidate i from id {rest} {p} {t} listens head run) e w =
      plain-WritersOnly env works station s i p t rest
        (subst (IfOk (λ (r : Page × List Event). IsPlain (s.node i) r.0 r.1)) run
          (invalidate_page-IsPlain env works (s.node i) from (station i).mem.page_count id))
        w
  Step-WritersOnly {s} (takes_request i id rights block {rest} {d} {q} idle head at added) e w =
      takes_request-WritersOnly env works station s i id rights block rest d q head at added w
  Step-WritersOnly {s} (takes_ack i id {rest} {d} idle head at) e w =
      takes_ack-WritersOnly env works station s i id rest d head at w
  Step-WritersOnly {s} (takes_page i fuel id rights {bytes} {rest} {p} {t} idle head run) e w =
      page_taken-WritersOnly env works station s i fuel id rights bytes rest p t head run w
  Step-WritersOnly {s} (serves {d} {d'} {req} {rest} {t} serving at items run) e w =
      let (is, write, more) = at_head env works station s d req rest w at items in
      absurd (round-Grants env works station s d req rest (again d' t) w is write run)
  Step-WritersOnly {s} (grants {d} {req} {rest} {p} {t} serving at items run) e w =
      grants-WritersOnly env works station s d req rest p t at items run w
  Step-WritersOnly {s} (rests {d} serving at none_left) e w = record {
    asks = w.asks;
    requests = w.requests;
    tail_ok = w.tail_ok;
    invalidate_sent = w.invalidate_sent;
    is = w.is;
    waiting = w.waiting;
  }

  -- Every lock that the programs take in a run is for writing.
  abbrev pub AllForWriting : {s t : Cluster} → Reach env station s t → Type 0
  AllForWriting here = Unit {0}
  AllForWriting (next r st) = AllForWriting r × ForWriting st

  module _ (id : ℕ) (zeros : List ℕ) where
    Reach-WritersOnly :
        {s : Cluster} (r : Reach env station (start id zeros) s) → AllForWriting r → WritersOnly s
    unfolding init_page
    Reach-WritersOnly here h = record {
      asks = λ i. tt;
      requests = [];
      tail_ok = true;
      invalidate_sent = false;
      is = refl;
      waiting = tt;
    }
    Reach-WritersOnly (next r st) h = Step-WritersOnly st h.1 (Reach-WritersOnly r h.0)

    leaves_loop :
        (s : Cluster) (requests : List Request) (b sent_before : Bool)
        → (s.node 0).directory ≡ some (directory requests b [] sent_before)
        → AllWait requests
        → s.serving ≡ true
        → may_read (s.node 0).mapped ≡ true
        → (s' : Cluster) × Step env station s s' × (s'.serving ≡ false)
    leaves_loop s [] b sent_before at h serving reads = (_, rests serving at refl, refl)
    leaves_loop s (req ∷ rest) b sent_before at h serving reads = (
      _,
      grants serving at refl (serve-granted env works (s.node 0) req rest b sent_before h.0 reads),
      refl,
    )

    -- In a run in which the programs take the page only for writing, wherever the master's listener is
    -- in the loop of process_list_requests and the master can read the page, the next round ends the
    -- loop. (The page starts as dsm_memory_init leaves it, and every socket works.)
    pub writers_leave_loop :
        {s : Cluster} (r : Reach env station (start id zeros) s)
        → AllForWriting r
        → s.serving ≡ true
        → may_read (s.node 0).mapped ≡ true
        → (s' : Cluster) × Step env station s s' × (s'.serving ≡ false)
    writers_leave_loop {s} r h serving reads =
        let w = Reach-WritersOnly r h in
        leaves_loop s w.requests w.tail_ok w.invalidate_sent w.is w.waiting serving reads
