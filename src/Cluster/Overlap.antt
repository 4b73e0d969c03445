-- ===== src/Cluster/Overlap.antt =====
-- Steps that overlap. unlock_write, terminate and process_list_requests send the page first and give
-- it up, or list the reader, afterwards (dsm.c, dsm_core.c): other nodes act in between.
use psar_dsm.Prelude.{
  ℕ, ◌≡◌, ◌≢◌, refl, sym, ◌∙◌, ap, true, false, Option, some, none, List, length,
}
use psar_dsm.Memory.{Page, may_write}
use psar_dsm.Message.{Surroundings, up}
use psar_dsm.Node.{Node}
use psar_dsm.Cluster.{
  Cluster, update, Step, locks, wakes, unlocks_read, unlocks_write, leaves, stores, hears_page,
  hears_invalidate, Reach, here, next,
}
use psar_dsm.Cluster.Invariant.{HasReader}
use psar_dsm.Cluster.Coherence.{start, slave_writes_alone}
use psar_dsm.Cluster.LastStore.{last_stored, AllConsiderate, reads_last_store}
use psar_dsm.Cluster.Starvation.{reader_for_ever}

-- `cluster` is the state with the changes done that threads still have to make to their own page after
-- their messages are out, and `late i` the page of node `i` as it still is in that time.
pub record Overlapped : Type 0 where
  pub cluster : Cluster
  pub late : ℕ → Option Page

-- The page as node `i` has it at the moment.
abbrev pub held : Overlapped → ℕ → Page
held x i = elim (x.late i) [ none ↦ x.cluster.node i | some p ↦ p ]

abbrev pub at_rest : Cluster → Overlapped
at_rest s = record { cluster = s; late = λ i. none }

module _ {env : Surroundings} {station : ℕ → Node} where
  -- The node whose page a step reads and changes.
  abbrev pub actor : {s s' : Cluster} → Step env station s s' → ℕ
  actor (locks i rights run) = i
  actor (wakes i run) = i
  actor (unlocks_read i) = i
  actor (unlocks_write i run) = i
  actor (leaves i slave run) = i
  actor (stores i bytes can sized) = i
  actor (hears_page i fuel id rights listens head run) = i
  actor (hears_invalidate i from id listens head run) = i
  actor _ = 0

module _ (env : Surroundings) (station : ℕ → Node) where
  -- A step begins: it takes and sends its messages, and its node still has the old page. It ends: the
  -- page is changed. In between the other nodes act, on what was sent too; at the node itself no other
  -- step that reads or changes the page begins.
  pub data Move (x : Overlapped) : Overlapped → Type 0 where
    begins :
        {s' : Cluster} (st : Step env station x.cluster s')
        → x.late (actor st) ≡ none
        → Move x (record {
          cluster = s';
          late = update x.late (actor st) (some (x.cluster.node (actor st)));
        })
    ends : (i : ℕ) → Move x (record x { late = update x.late i none })

  pub data Moves (x : Overlapped) : Overlapped → Type 0 where
    idle : Moves x x
    goes : {y z : Overlapped} → Moves x y → Move y z → Moves x z

module _ {env : Surroundings} {station : ℕ → Node} where
  -- The steps of the run in the order in which they began.
  abbrev pub begun :
      {x y : Overlapped} → Moves env station x y → Reach env station x.cluster y.cluster
  begun idle = here
  begun (goes r (begins st free)) = next (begun r) st
  begun (goes r (ends i)) = begun r

-- A node that is not inside of a step has the page as the run has left it.
held_lem : (x : Overlapped) (i : ℕ) → x.late i ≡ none → held x i ≡ x.cluster.node i
held_lem x i free = rw (held, free) refl

module _ (env : Surroundings) (works : (fd : ℕ) → env.link fd ≡ up) (station : ℕ → Node) where
  -- While a slave has the right to write a page, no other node, the master included, has any right to
  -- it, where neither of the two is inside of a step of its own: a node that has sent the page may
  -- still have its rights while the receiver already writes, until the mprotect that follows the send.
  -- (Steps of different nodes overlap in any way, a node's own on the page do not; the page starts as
  -- dsm_memory_init leaves it, and every socket works.)
  pub writes_alone :
      (id : ℕ) (zeros : List ℕ) {x : Overlapped}
      → Moves env station (at_rest (start id zeros)) x
      → (i : ℕ) → i ≢ 0
      → x.late i ≡ none
      → may_write (held x i).mapped ≡ true
      → (j : ℕ) → j ≢ i
      → x.late j ≡ none
      → (held x j).mapped ≡ 0
  writes_alone id zeros {x} r i slave free writes j other free' =
      ap (λ (p : Page). p.mapped) (held_lem x j free')
      ∙ slave_writes_alone env works station id zeros (begun r) i slave
          (ap (λ (p : Page). may_write p.mapped) (sym (held_lem x i free)) ∙ writes) j other

  module _ (id : ℕ) (zeros : List ℕ)
      (sized : (i : ℕ) → (station i).mem.pagesize ≡ length zeros) where
    -- Every copy of the page that is up to date, on any node that is not inside of a step of its own,
    -- has the bytes of the last store into the page, by whichever node's program it was, if the
    -- master's program does not store into it while a reader is listed, and no program while another
    -- thread of its node is between a send of the page and what it does to the page afterwards.
    -- (Steps of different nodes overlap in any way, a node's own on the page do not; the page starts
    -- as dsm_memory_init leaves it, all nodes have the page's size, and every socket works.)
    pub reads_last :
        {x : Overlapped} (r : Moves env station (at_rest (start id zeros)) x)
        → AllConsiderate (begun r)
        → (j : ℕ) → x.late j ≡ none
        → (held x j).uptodate ≡ true
        → (held x j).bytes ≡ last_stored zeros (begun r)
    reads_last {x} r c j free present =
        let same = held_lem x j free in
        ap (λ (p : Page). p.bytes) same
        ∙ reads_last_store env works station id zeros sized (begun r) c j
            (ap (λ (p : Page). p.uptodate) (sym same) ∙ present)

  module _ (id : ℕ) (zeros : List ℕ) {x y : Overlapped}
      (r : Moves env station (at_rest (start id zeros)) x) (reader : HasReader x.cluster)
      (later : Moves env station x y) where
    -- Once a reader of a page is listed, the list is never empty again, and no slave that is not inside
    -- of a step of its own has the right to write the page, whatever is asked for, released or
    -- acknowledged. (Steps of different nodes overlap in any way, a node's own on the page do not; the
    -- page starts as dsm_memory_init leaves it, and every socket works.)
    pub reader_stays :
        (i : ℕ)
        → i ≢ 0
        → y.late i ≡ none
        → HasReader y.cluster × (may_write (held y i).mapped ≡ false)
    reader_stays i slave free =
        let (listed_on, off) =
          reader_for_ever env works station id zeros (begun r) reader (begun later) i slave in
        (listed_on, ap (λ (p : Page). may_write p.mapped) (held_lem y i free) ∙ off)
