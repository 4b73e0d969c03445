-- ===== src/Cluster/OverlapTests.antt =====
-- A run of a page of two bytes in which a node acts on a page that its sender has not given up yet.
use psar_dsm.Prelude.{ℕ, ◌≡◌, refl, true, false, ◌==◌, none, [], ◌∷◌, arith}
use psar_dsm.Memory.{may_write, init_page}
use psar_dsm.Message.{Surroundings, up, dsm_send_msg}
use psar_dsm.Core.{giveup_localpage, satisfy_request, serve_reader, serve_writer, serve}
use psar_dsm.Node.{Node}
use psar_dsm.Node.Handlers.{givepage_page}
use psar_dsm.Node.Api.{lock_page, lock_page_wake, unlock_write_page}
use psar_dsm.Cluster.{
  locks, wakes, hears_page, takes_request, takes_page, stores, unlocks_write, serves, grants,
}
use psar_dsm.Cluster.Invariant.{HasReader}
use psar_dsm.Cluster.Coherence.{start}
use psar_dsm.Cluster.Overlap.{
  Overlapped, held, at_rest, begins, ends, Moves, idle, goes, writes_alone, reads_last,
  reader_stays,
}

abbrev calm : Surroundings
calm = record { link = λ fd. up; keeps_freed = true }

abbrev station : ℕ → Node
station i = record {
  mem = record { pagesize = 2; page_count = 1; base_addr = 4096; pages = [] };
  is_master = i == 0;
  master_sockfd = 4;
  sync_barrier_waiters = none;
  client_count = 0;
  trace = [];
}

abbrev fresh : Overlapped
fresh = at_rest (start 0 (0 ∷ 0 ∷ []))

-- A run and the state that it ends in.
record Run : Type 0 where
  last : Overlapped
  moves : Moves calm station fresh last

-- Slave 1 has locked the page for writing and is awake, while the master is between its send and its
-- mprotect.
early : Run
unfolding lock_page init_page dsm_send_msg serve serve_writer satisfy_request givepage_page
    lock_page_wake
early = record {
  last = _;
  moves =
      goes
        (goes
          (goes
            (goes
              (goes
                (goes
                  (goes (goes (goes idle (begins (locks 1 3 refl) refl)) (ends 1))
                    (begins (takes_request 1 0 3 100 refl refl refl refl) refl))
                  (ends 0))
                (begins (grants refl refl refl refl) refl))
              (begins (hears_page 1 0 0 3 (λ e. absurd (ground arith)) refl refl) refl))
            (ends 1))
          (begins (wakes 1 refl) refl))
        (ends 1);
}

both_write :
    (may_write (held early.last 0).mapped ≡ true) × (may_write (held early.last 1).mapped ≡ true)
unfolding early init_page
both_write = (refl, refl)

-- Then the master gives the page up.
written : Run
unfolding early
written = record { last = _; moves = goes early.moves (ends 0) }

-- Slave 1 stores into the page and sends it back, and the master takes it before slave 1 has given it
-- up.
given_back : Run
unfolding written early unlock_write_page satisfy_request giveup_localpage dsm_send_msg
    givepage_page
given_back = record {
  last = _;
  moves =
      goes
        (goes
          (goes (goes (goes written.moves (begins (stores 1 (5 ∷ 6 ∷ []) refl refl) refl)) (ends 1))
            (begins (unlocks_write 1 refl) refl))
          (begins (takes_page 1 0 0 3 refl refl refl) refl))
        (ends 0);
}

writes_alone_example : (held written.last 0).mapped ≡ 0
unfolding written early
writes_alone_example =
    writes_alone calm (λ fd. refl) station 0 (0 ∷ 0 ∷ []) written.moves 1 (omega arith) refl refl 0
      (omega arith) refl

reads_last_example : (held given_back.last 0).bytes ≡ 5 ∷ 6 ∷ []
unfolding given_back written early
reads_last_example =
    reads_last calm (λ fd. refl) station 0 (0 ∷ 0 ∷ []) (λ i. refl) given_back.moves
      ((((((((tt, tt), tt), tt), tt), tt), λ e. absurd (ground arith)), tt), tt) 0 refl refl

-- Slave 1 hears the page that it asked for, for reading, before the master has listed it.
lent_out : Run
unfolding lock_page init_page dsm_send_msg serve serve_reader satisfy_request givepage_page
lent_out = record {
  last = _;
  moves =
      goes
        (goes
          (goes
            (goes
              (goes (goes (goes idle (begins (locks 1 1 refl) refl)) (ends 1))
                (begins (takes_request 1 0 1 100 refl refl refl refl) refl))
              (ends 0))
            (begins (serves refl refl refl refl) refl))
          (begins (hears_page 1 0 0 1 (λ e. absurd (ground arith)) refl refl) refl))
        (ends 1);
}

-- Then slave 2 asks for it for writing.
asked_for : (x : Overlapped) × Moves calm station lent_out.last x
unfolding lent_out lock_page dsm_send_msg init_page
asked_for = (_, goes (goes idle (ends 0)) (begins (locks 2 3 refl) refl))

reader_stays_example :
    HasReader asked_for.0.cluster × (may_write (held asked_for.0 1).mapped ≡ false)
unfolding asked_for lent_out
reader_stays_example =
    reader_stays calm (λ fd. refl) station 0 (0 ∷ 0 ∷ []) lent_out.moves (1, [], refl) asked_for.1 1
      (omega arith) refl
