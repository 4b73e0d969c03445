-- ===== src/Cluster/Starvation.antt =====
-- What follows from the loop that does not end at a writer while readers are listed.
use mathlib.Core.List.{nil≢cons}
use psar_dsm.Prelude.{ℕ, ◌≡◌, ◌≢◌, sym, ◌∙◌, true, false, List, arith}
use psar_dsm.Memory.{may_write}
use psar_dsm.Message.{Surroundings, up}
use psar_dsm.Node.{Node}
use psar_dsm.Cluster.{Cluster, Reach, here, next}
use psar_dsm.Cluster.Invariant.{Lent, Mode, owned, lent, stuck, Inv, HasReader, IsStuck}
use psar_dsm.Cluster.Preserved.{Step-Kept}
use psar_dsm.Cluster.Coherence.{start, Reach-Inv, Reach_start-Inv}

with_reader : (s : Cluster) → HasReader s → Mode s → Lent s
with_reader s (fd, fds, e) (owned o c) = absurd (nil≢cons (sym o.none_listed ∙ e))
with_reader s r (lent l c) = l
with_reader s r (stuck l b w) = l

module _ (env : Surroundings) (works : (fd : ℕ) → env.link fd ≡ up) (station : ℕ → Node) where
  Reach-HasReader : {s t : Cluster} → Inv s → HasReader s → Reach env station s t → HasReader t
  Reach-HasReader inv r here = r
  Reach-HasReader inv r (next {t} run st) =
      (Step-Kept env works station st (Reach-Inv env works station inv run)).readers
        (Reach-HasReader inv r run)

  Reach-IsStuck :
      {s t : Cluster} → Inv s → HasReader s → IsStuck s → Reach env station s t → IsStuck t
  Reach-IsStuck inv r w here = w
  Reach-IsStuck inv r w (next {t} run st) =
      (Step-Kept env works station st (Reach-Inv env works station inv run)).stays
        (Reach-HasReader inv r run) (Reach-IsStuck inv r w run)

  module _ (id : ℕ) (zeros : List ℕ) {s t : Cluster} (r : Reach env station (start id zeros) s)
      (reader : HasReader s) (later : Reach env station s t) where
    -- Where each step is done at once and a reader of a page is listed, the list is never empty again, and no slave ever has the
    -- right to write the page, whatever is asked for, released or acknowledged. (The page starts as
    -- dsm_memory_init leaves it, and every socket works.)
    pub reader_for_ever : (i : ℕ) → i ≢ 0 → HasReader t × (may_write (t.node i).mapped ≡ false)
    reader_for_ever i slave =
        let inv = Reach_start-Inv id zeros env works station r in
        let listed_on = Reach-HasReader inv reader later in
        let l = with_reader t listed_on (Reach-Inv env works station inv later).mode in
        (listed_on, (l.reading i (ground arith)).0)

    -- Once the loop of process_list_requests stands at a writer while a reader is listed, the master's
    -- listener never leaves the loop, so it never takes another message. (The page starts as
    -- dsm_memory_init leaves it, and every socket works.)
    pub listener_stays : IsStuck s → t.serving ≡ true
    listener_stays w =
        (Reach-IsStuck (Reach_start-Inv id zeros env works station r) reader w later).0
