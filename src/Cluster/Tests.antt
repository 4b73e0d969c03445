-- ===== src/Cluster/Tests.antt =====
-- Runs of a page of two bytes.
use psar_dsm.Prelude.{ℕ, ◌≡◌, ◌≢◌, refl, true, false, ◌==◌, none, [], ◌∷◌, arith, blocked, fault}
use psar_dsm.Memory.{may_write, init_page}
use psar_dsm.Message.{Surroundings, up, dsm_send_msg}
use psar_dsm.Core.{
  giveup_localpage, satisfy_request, invalidate_readers, serve_reader, serve_writer, serve,
}
use psar_dsm.Node.{Node}
use psar_dsm.Node.Handlers.{givepage_page}
use psar_dsm.Node.Api.{lock_page, lock_page_wake, unlock_write_page}
use psar_dsm.Cluster.{
  Cluster, Step, Reach, here, next, locks, wakes, hears_page, takes_request, stores, serves, grants,
  rests,
}
use psar_dsm.Cluster.Coherence.{start}
use psar_dsm.Cluster.Section.{critical_section, relock_blocked, critical_section_alone}
use psar_dsm.Cluster.LockedOut.{IsLockedOut, locked_out}
use psar_dsm.Cluster.Writers.{writers_leave_loop}
use psar_dsm.Cluster.Starvation.{listener_stays}

abbrev calm : Surroundings
calm = record { link = λ fd. up; keeps_freed = true }

abbrev station : ℕ → Node
station i = record {
  mem = record { pagesize = 2; page_count = 1; base_addr = 4096; pages = [] };
  is_master = i == 0;
  master_sockfd = 4;
  sync_barrier_waiters = none;
  client_count = 0;
  trace = [];
}

abbrev fresh : Cluster
fresh = start 0 (0 ∷ 0 ∷ [])

-- A run and the state that it ends in.
record Run : Type 0 where
  last : Cluster
  reach : Reach calm station fresh last

-- Slave 1 locks the page for writing.
written : Run
unfolding lock_page init_page dsm_send_msg serve serve_writer satisfy_request givepage_page
    lock_page_wake
written = record {
  last = _;
  reach =
      next
        (next
          (next (next (next here (locks 1 3 refl)) (takes_request 1 0 3 100 refl refl refl refl))
            (grants refl refl refl refl))
          (hears_page 1 0 0 3 (λ e. absurd (ground arith)) refl refl))
        (wakes 1 refl);
}

-- Slave 1 locks the page for reading; the master may still write it.
lent_out : Run
unfolding lock_page init_page dsm_send_msg serve serve_reader satisfy_request givepage_page
    lock_page_wake
lent_out = record {
  last = _;
  reach =
      next
        (next
          (next
            (next (next (next here (locks 1 1 refl)) (takes_request 1 0 1 100 refl refl refl refl))
              (serves refl refl refl refl))
            (rests refl refl refl))
          (hears_page 1 0 0 1 (λ e. absurd (ground arith)) refl refl))
        (wakes 1 refl);
}

master_writes_too :
    ((lent_out.last.node 1).mapped ≡ 1) × (may_write (lent_out.last.node 0).mapped ≡ true)
unfolding lent_out
master_writes_too = (refl, refl)

-- Then slave 2 asks for it for writing.
asked_for : (s : Cluster) × Reach calm station fresh s
unfolding lent_out
asked_for =
    (_, next (next lent_out.reach (locks 2 3 refl)) (takes_request 2 0 3 200 refl refl refl refl))

-- INVALIDATE goes out to slave 1.
invalidated : (s : Cluster) × Reach calm station asked_for.0 s
unfolding asked_for serve_writer invalidate_readers
invalidated = (_, next here (serves refl refl refl refl))

listener_stays_example : invalidated.0.serving ≡ true
unfolding asked_for
listener_stays_example =
    listener_stays calm (λ fd. refl) station 0 (0 ∷ 0 ∷ []) asked_for.1 (1, [], refl) invalidated.1
      (refl, (_, _, _, refl, refl, refl, refl))

-- Slave 1 stores into the page that it has locked, and slave 2 asks for it.
inside : (s : Cluster) × Reach calm station written.last s
unfolding written lock_page dsm_send_msg init_page
inside = (_, next (next here (stores 1 (5 ∷ 6 ∷ []) refl refl)) (locks 2 3 refl))

critical_section_example : inside.0.node 1 ≡ record (written.last.node 1) { bytes = 5 ∷ 6 ∷ [] }
unfolding inside written
critical_section_example =
    critical_section calm station 1 (omega arith) inside.1 refl ((tt, tt), tt)

relock_blocked_example : lock_page calm 4 (inside.0.node 1) 1 [] ≡ blocked
unfolding inside written
relock_blocked_example =
    relock_blocked calm station 1 (omega arith) inside.1 4 1 refl ((tt, tt), tt)

critical_section_alone_example :
    (may_write (inside.0.node 1).mapped ≡ true) × ((j : ℕ) → j ≢ 1 → (inside.0.node j).mapped ≡ 0)
unfolding inside written
critical_section_alone_example =
    critical_section_alone calm station 1 (omega arith) (λ fd. refl) 0 (0 ∷ 0 ∷ []) written.reach
      inside.1 refl refl ((tt, tt), tt)

-- The master's listener has taken the request of slave 1 for writing.
at_writer : Run
unfolding lock_page init_page dsm_send_msg
at_writer = record {
  last = _;
  reach = next (next here (locks 1 3 refl)) (takes_request 1 0 3 100 refl refl refl refl);
}

writers_leave_loop_example :
    (s' : Cluster) × Step calm station at_writer.last s' × (s'.serving ≡ false)
unfolding at_writer
writers_leave_loop_example =
    writers_leave_loop calm (λ fd. refl) station 0 (0 ∷ 0 ∷ []) at_writer.reach ((tt, refl), tt)
      refl refl

-- The master's program has locked the page and slave 1 is given it.
taken_away : Run
unfolding at_writer lock_page init_page dsm_send_msg serve serve_writer satisfy_request
taken_away = record {
  last = _;
  reach =
      next
        (next (next (next here (locks 0 3 refl)) (locks 1 3 refl))
          (takes_request 1 0 3 100 refl refl refl refl))
        (grants refl refl refl refl);
}

-- Slave 1 has the page.
gone : (s : Cluster) × Reach calm station taken_away.last s
unfolding taken_away givepage_page
gone = (_, next here (hears_page 1 0 0 3 (λ e. absurd (ground arith)) refl refl))

locked_out_example :
    IsLockedOut (gone.0.node 0) × ((fd : ℕ) → unlock_write_page calm fd (gone.0.node 0) [] ≡ fault)
unfolding gone taken_away giveup_localpage
locked_out_example =
    locked_out calm (λ fd. refl) station gone.1 (tt, tt)
      (record { locked = refl; away = refl; mapped = refl })
