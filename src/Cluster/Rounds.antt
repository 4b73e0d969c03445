-- ===== src/Cluster/Rounds.antt =====
-- A round of the master's loop keeps the invariant.
use mathlib.Core.Path.{subst}
use mathlib.Core.Option.{some-injective}
use mathlib.Core.List.{head-eq_of_cons-eq, nil≢cons}
use psar_dsm.Prelude.{
  ℕ, ◌+◌, ◌≤◌, ◌≡◌, refl, sym, ap, ◌∙◌, inl, inr, true, false, some, List, [], ◌∷◌, ◌++◌, ◌==◌,
  if◌then◌else◌, arith, Bool-cases,
}
use psar_dsm.Memory.{Request, Directory, Page, prot_read, may_read, may_write}
use psar_dsm.Message.{Message, givepage, Event}
use psar_dsm.Node.Exclusive.{listed}
use psar_dsm.Cluster.{Cluster, round, posted_to}
use psar_dsm.Cluster.Channel.{
  pages, gives, IsRead, OnlyReads, IsClean, pages-append, OnlyReads-append, IsClean-append,
}
use psar_dsm.Cluster.Local.{Reads, IsSound, bit}
use psar_dsm.Cluster.Invariant.{
  weight_at, AllClean, Owned, Lent, AtWriter, Mode, owned, lent, stuck, Inv, Kept, HasReader,
}
use psar_dsm.Cluster.Turns.{given, ServedReader, WaitingWriter, GrantedWriter}

pages-OnlyReads : (ms : List Message) → pages ms ≡ 0 → OnlyReads ms
pages-OnlyReads [] e = tt
pages-OnlyReads (m ∷ ms) e = (one m (omega arith), pages-OnlyReads ms (omega arith))
  where
    one : (m : Message) → gives m ≡ 0 → IsRead m
    one (givepage i r bytes) e = absurd (omega arith)
    one _ e = tt

snoc_cons : (xs : List ℕ) (x : ℕ) → (y : ℕ) × (ys : List ℕ) × (xs ++ x ∷ [] ≡ y ∷ ys)
snoc_cons [] x = (x, [], refl)
snoc_cons (y ∷ xs) x = (y, xs ++ x ∷ [], refl)

module _ (p : Page) (req : Request) (j : ℕ) where
  given_pages : pages (posted_to j (given p req)) ≡ (if req.sockfd == j then 1 else 0)
  given_pages = elim (Bool-cases (req.sockfd == j)) [ inl e ↦ rw e refl | inr e ↦ rw e refl ]

  given_reads : (req.rights == prot_read) ≡ true → OnlyReads (posted_to j (given p req))
  given_reads read = elim (Bool-cases (req.sockfd == j)) [
    | inl e ↦ rw e (ground arith, tt)
    | inr e ↦ rw e tt
  ]

  given-IsClean : IsClean (posted_to j (given p req))
  given-IsClean = elim (Bool-cases (req.sockfd == j)) [ inl e ↦ rw e (tt, tt) | inr e ↦ rw e tt ]

-- A round at request `req` with directory `d`.
module _ (s : Cluster) (inv : Inv s) (serving : s.serving ≡ true) (d : Directory) (req : Request)
    (rest : List Request) (is : (s.node 0).directory ≡ some d)
    (at_head : d.requests_queue.items ≡ req ∷ rest) where
  listed_is : listed (s.node 0) ≡ d.current_readers_queue.items
  listed_is = rw (listed, is) refl

  -- Whoever can read the master's page finds it there.
  master_here : may_read (s.node 0).mapped ≡ true → (s.node 0).uptodate ≡ true
  master_here r = ground (arith, (inv.sound 0).gone)

  master_has : may_read (s.node 0).mapped ≡ true → 1 ≤ weight_at s 0
  master_has r = omega (arith, ap bit (master_here r))

  -- Then no slave has anything, if no reader is listed.
  master_owns : may_read (s.node 0).mapped ≡ true → (o : Owned s) → o.owner ≡ 0
  master_owns r o = elim (Bool-cases (0 == o.owner)) [
    | inl e ↦ ground arith
    | inr e ↦ absurd (omega (arith, master_has r, o.alone 0 e))
  ]

  empty_slave :
      may_read (s.node 0).mapped ≡ true → Owned s → (j : ℕ) → (j == 0) ≡ false → weight_at s j ≡ 0
  empty_slave r o j ne =
      let no_owner : (j == o.owner) ≡ false = rw (master_owns r o) ne in o.alone j no_owner

  Reads-nothing : (j : ℕ) → weight_at s j ≡ 0 → Reads (s.node j) (s.up j) (s.down j)
  Reads-nothing j e =
      let away : (s.node j).uptodate ≡ false = ground arith in
      let gone = (inv.sound j).gone away in
      (
        rw gone refl,
        pages-OnlyReads (s.up j) (omega arith),
        pages-OnlyReads (s.down j) (omega arith),
      )

  -- The writer at which the loop stands is this request.
  same_head : AtWriter s → ((req.rights == prot_read) ≡ false) × (may_write req.rights ≡ true)
  same_head (d', req', rest', is', items', other, write) =
      let same_d : d' ≡ d = some-injective d' d (sym is' ∙ is) in
      let same_items : req' ∷ rest' ≡ req ∷ rest =
        sym items' ∙ ap (λ (e : Directory). e.requests_queue.items) same_d ∙ at_head in
      let same : req' ≡ req = head-eq_of_cons-eq same_items in
      subst (λ r. ((r.rights == prot_read) ≡ false) × (may_write r.rights ≡ true)) same
        (other, write)

  module _ (d' : Directory) (t : List Event) where
    abbrev served : Cluster
    served = round s (record (s.node 0) { directory = some d' }) t true

    served-IsSound : (j : ℕ) → IsSound (served.node j)
    served-IsSound j = elim (Bool-cases (j == 0)) [
      | inl e ↦
          rw e (record { mirrored = (inv.sound 0).mirrored; gone = λ g. (inv.sound 0).gone g })
      | inr e ↦ rw e (inv.sound j)
    ]

    -- The slaves' rights stay as they were if nothing under way to them is a page for writing.
    served-Reads :
        (j : ℕ)
        → (j == 0) ≡ false
        → OnlyReads (posted_to j t)
        → Reads (s.node j) (s.up j) (s.down j)
        → Reads (served.node j) (served.up j) (served.down j)
    served-Reads j ne o (w, u, v) = rw ne (w, u, OnlyReads-append (s.down j) (posted_to j t) v o)

    reader-Lent :
        ServedReader (s.node 0) d req d' t
        → ((j : ℕ) → (j == 0) ≡ false → Reads (s.node j) (s.up j) (s.down j))
        → Lent served
    reader-Lent r reads =
        let (y, ys, e) = snoc_cons d.current_readers_queue.items req.sockfd in
        record {
          first = y;
          others = ys;
          readers = r.listed_now ∙ e;
          reading = λ j ne.
              let only : OnlyReads (posted_to j t) =
                rw (r.trace) (given_reads (s.node 0) req j r.read) in
              served-Reads j ne only (reads j ne);
        }

    reader_clean : ServedReader (s.node 0) d req d' t → AllClean s → AllClean served
    reader_clean r c j =
        let clean : IsClean (posted_to j t) = rw (r.trace) (given-IsClean (s.node 0) req j) in
        ((c j).0, IsClean-append (s.down j) (posted_to j t) (c j).1 clean)

    reader_mode : ServedReader (s.node 0) d req d' t → Mode s → Mode served
    reader_mode r (owned o c) =
        lent (reader-Lent r (λ j ne. Reads-nothing j (empty_slave r.readable o j ne)))
          (reader_clean r c)
    reader_mode r (lent l c) = lent (reader-Lent r l.reading) (reader_clean r c)
    reader_mode r (stuck l b w) = absurd (ground (arith, same_head w, r.read))

    pub reader-Kept : ServedReader (s.node 0) d req d' t → Kept s served
    reader-Kept r = record {
      inv = record { sound = served-IsSound; mode = reader_mode r inv.mode };
      readers = λ _.
          let (y, ys, e) = snoc_cons d.current_readers_queue.items req.sockfd in
          (y, ys, r.listed_now ∙ e);
      stays = λ _ w. absurd (ground (arith, same_head w.1, r.read));
    }

    at_writer : WaitingWriter d req d' t → AtWriter served
    at_writer w = (d', req, rest, refl, w.same_requests ∙ at_head, w.other, w.write)

    waiting :
        WaitingWriter d req d' t
        → ((j : ℕ) → (j == 0) ≡ false → Reads (s.node j) (s.up j) (s.down j))
        → Mode served
    waiting w reads =
        stuck
          (record {
            first = w.first;
            others = w.others;
            readers = w.same_readers ∙ w.readers;
            reading = λ j ne. served-Reads j ne (w.trace j).1 (reads j ne);
          })
          refl (at_writer w)

    writer_mode : WaitingWriter d req d' t → Mode s → Mode served
    writer_mode w (owned o c) = absurd (nil≢cons (sym o.none_listed ∙ listed_is ∙ w.readers))
    writer_mode w (lent l c) = waiting w l.reading
    writer_mode w (stuck l b at) = waiting w l.reading

    pub writer-Kept : WaitingWriter d req d' t → Kept s served
    writer-Kept w = record {
      inv = record { sound = served-IsSound; mode = writer_mode w inv.mode };
      readers = λ _. (w.first, w.others, w.same_readers ∙ w.readers);
      stays = λ _ _. (refl, at_writer w);
    }

  module _ (p' : Page) (t : List Event) (g : GrantedWriter (s.node 0) d req p' t) where
    abbrev granted : Cluster
    granted = round s p' t false

    granted-IsSound : (j : ℕ) → IsSound (granted.node j)
    granted-IsSound j = elim (Bool-cases (j == 0)) [
      | inl e ↦ rw e (record { mirrored = g.mapped ∙ sym g.protection; gone = λ _. g.mapped })
      | inr e ↦ rw e (inv.sound j)
    ]

    no_reader : Lent s → ⊥
    no_reader l = nil≢cons (sym g.none_listed ∙ sym listed_is ∙ l.readers)

    pages_down :
        (j : ℕ) → pages (granted.down j) ≡ pages (s.down j) + (if req.sockfd == j then 1 else 0)
    pages_down j =
        let sends : pages (posted_to j t) ≡ (if req.sockfd == j then 1 else 0) =
          rw (g.trace) (given_pages (s.node 0) req j) in
        omega (arith, pages-append (s.down j) (posted_to j t), sends)

    -- What is left of the page at each node but the one that it goes to.
    granted_weight :
        (o : Owned s) → (j : ℕ) → weight_at granted j ≡ (if req.sockfd == j then 1 else 0)
    granted_weight o j = elim (Bool-cases (j == 0)) [
      | inl e ↦
          let zero : 0 ≡ j = ground arith in
          let most : weight_at s 0 ≤ 1 =
            subst (λ k. weight_at s k ≤ 1) (master_owns g.readable o) o.once in
          subst (λ k. weight_at granted k ≡ (if req.sockfd == k then 1 else 0)) zero
            (omega (arith, pages_down 0, most, ap bit (master_here g.readable), ap bit g.gone))
      | inr e ↦ rw e (omega (arith, pages_down j, empty_slave g.readable o j e))
    ]

    granted-Owned : Owned s → Owned granted
    granted-Owned o = record {
      none_listed = g.none_after;
      owner = req.sockfd;
      alone = λ j ne.
          let other : (req.sockfd == j) ≡ false = ground arith in
          let here = ◌≡◌ {A = ℕ} (if req.sockfd == j then 1 else 0) 0 in
          let none_here : here = rw other refl in granted_weight o j ∙ none_here;
      once = ground (arith, granted_weight o req.sockfd);
    }

    granted_clean : AllClean s → AllClean granted
    granted_clean c j =
        let clean : IsClean (posted_to j t) = rw (g.trace) (given-IsClean (s.node 0) req j) in
        ((c j).0, IsClean-append (s.down j) (posted_to j t) (c j).1 clean)

    granted_mode : Mode s → Mode granted
    granted_mode (owned o c) = owned (granted-Owned o) (granted_clean c)
    granted_mode (lent l c) = absurd (no_reader l)
    granted_mode (stuck l b w) = absurd (no_reader l)

    no_reader_listed : HasReader s → ⊥
    no_reader_listed r = nil≢cons (sym g.none_listed ∙ sym listed_is ∙ r.2)

    pub granted-Kept : Kept s granted
    granted-Kept = record {
      inv = record { sound = granted-IsSound; mode = granted_mode inv.mode };
      readers = λ r. absurd (no_reader_listed r);
      stays = λ r _. absurd (no_reader_listed r);
    }
