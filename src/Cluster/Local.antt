-- ===== src/Cluster/Local.antt =====
-- A step of one node: what it may change so that no right to the page comes from nowhere.
use psar_dsm.Prelude.{
  ℕ, ◌+◌, ◌≤◌, ◌≡◌, refl, ap, sym, ◌∙◌, inl, inr, Bool, true, false, List, [], ◌∷◌, ◌++◌, arith,
  Bool-cases, IfOk, ltb,
}
use psar_dsm.Memory.{Page, may_read, may_write}
use psar_dsm.Message.{
  Message, lockpage, invalidate, invalidate_ack, givepage, Event, Surroundings, up,
}
use psar_dsm.Core.{satisfy_request, giveup_localpage}
use psar_dsm.Core.Queues.{send_up}
use psar_dsm.Node.{Node}
use psar_dsm.Node.Handlers.{givepage_page, invalidate_page, received}
use psar_dsm.Node.Api.{Lock, lock_page, lock_page_wake, unlock_write_page, give_back}
use psar_dsm.Cluster.{posted}
use psar_dsm.Cluster.Channel.{
  pages, OnlyReads, IsClean, pages-append, OnlyReads-append, IsClean-append,
}

abbrev pub bit : Bool → ℕ
bit true = 1
bit false = 0

-- The copies of the page that a node has or that are under way between it and the master.
abbrev pub weight : Page → (up down : List Message) → ℕ
weight p u d = pages u + pages d + bit p.uptodate

-- Neither the node nor its channels have the right to write.
abbrev pub Reads : Page → (up down : List Message) → Type 0
Reads p u d = (may_write p.mapped ≡ false) × OnlyReads u × OnlyReads d

abbrev pub Clean : (up down : List Message) → Type 0
Clean u d = IsClean u × IsClean d

-- The record says the right that the hardware enforces, and there is none without the page.
pub record IsSound (p : Page) : Type 0 where
  pub mirrored : p.mapped ≡ p.protection
  pub gone : p.uptodate ≡ false → p.mapped ≡ 0

-- A step of a node that makes no new copy, no new right to write and no invalidation out of
-- nothing, and leaves the directory alone.
pub record Tame (p : Page) (u d : List Message) (p' : Page) (u' d' : List Message) : Type 0 where
  pub sound : IsSound p'
  pub lighter : weight p' u' d' ≤ weight p u d
  pub reads : Reads p u d → Reads p' u' d'
  pub clean : Clean u d → Clean u' d'
  pub directory : p'.directory ≡ p.directory

pub readable_here : (p : Page) → IsSound p → may_read p.mapped ≡ true → p.uptodate ≡ true
readable_here p s r = ground (arith, s.gone)

-- The page's rights stay as they are.
pub record SameRights (p p' : Page) : Type 0 where
  pub mapped : p'.mapped ≡ p.mapped
  pub protection : p'.protection ≡ p.protection
  pub uptodate : p'.uptodate ≡ p.uptodate
  pub directory : p'.directory ≡ p.directory

module _ (p : Page) (u d : List Message) (s : IsSound p) where
  quiet :
      (p' : Page) (ms : List Message)
      → SameRights p p'
      → pages ms ≡ 0
      → OnlyReads ms
      → IsClean ms
      → Tame p u d p' (u ++ ms) d
  quiet p' ms same none reads clean = record {
    sound = record { mirrored = cc; gone = λ e. same.mapped ∙ s.gone (sym same.uptodate ∙ e) };
    lighter = omega (arith, pages-append u ms, ap bit same.uptodate);
    reads = λ h. (rw (same.mapped) (h.0), OnlyReads-append u ms h.1 reads, h.2);
    clean = λ c. (IsClean-append u ms c.0 clean, c.1);
    directory = same.directory;
  }

  pub silent : (p' : Page) → SameRights p p' → Tame p u d p' u d
  silent p' same = record {
    sound = record { mirrored = cc; gone = λ e. same.mapped ∙ s.gone (sym same.uptodate ∙ e) };
    lighter = omega (arith, ap bit same.uptodate);
    reads = λ h. (rw (same.mapped) (h.0), h.1, h.2);
    clean = λ c. c;
    directory = same.directory;
  }

  -- A page that can be read is sent to the master, and no right is left.
  returns_page :
      (p' : Page) (rights : ℕ)
      → may_read p.mapped ≡ true
      → (may_write p.mapped ≡ false → may_write rights ≡ false)
      → p'.mapped ≡ 0
      → p'.protection ≡ 0
      → p'.uptodate ≡ false
      → p'.directory ≡ p.directory
      → Tame p u d p' (u ++ givepage p.page_id rights p.bytes ∷ []) d
  returns_page p' rights r no_more m0 p0 gone dir = record {
    sound = record { mirrored = cc; gone = λ e. m0 };
    lighter = omega (
      arith,
      pages-append u (givepage p.page_id rights p.bytes ∷ []),
      ap bit (readable_here p s r),
      ap bit gone,
    );
    reads = λ h. (rw m0 refl, OnlyReads-append u _ h.1 (no_more h.0, tt), h.2);
    clean = λ c. (IsClean-append u _ c.0 (tt, tt), c.1);
    directory = dir;
  }

  module _ (env : Surroundings) (works : (fd : ℕ) → env.link fd ≡ up) (fd : ℕ) where
    abbrev pub After : Page × List Event → Type 0
    After r = Tame p u d r.0 (u ++ posted r.1) d

    abbrev pub AfterAll : List Page × List Event → Type 0
    AfterAll ([], t) = Unit {0}
    AfterAll (p' ∷ ps, t) = After (p', t)

    pub lock_page-Tame :
        (rights : ℕ)
        → IfOk
            (λ (r : Page × Lock × List Event). Tame p u d r.0 (u ++ posted r.2) d)
            (lock_page env fd p rights [])
    unfolding lock_page
    lock_page-Tame rights = elim (Bool-cases p.locked) [
      | inl busy ↦ simp busy tt
      | inr idle ↦ elim (Bool-cases p.uptodate) [
        | inl here ↦
            simp (idle, here)
              (quiet (record p { locked = true; uptodate = true }) []
                (record { mapped = refl; protection = refl; uptodate = sym here; directory = refl })
                refl tt tt)
        | inr away ↦
            simp (idle, away, send_up env fd (lockpage p.page_id rights) [] (works fd))
              (quiet p (lockpage p.page_id rights ∷ [])
                (record { mapped = refl; protection = refl; uptodate = refl; directory = refl })
                refl (tt, tt) (tt, tt))
      ]
    ]

    pub unlock_write_page-Tame : IfOk After (unlock_write_page env fd p [])
    unfolding unlock_write_page satisfy_request giveup_localpage
    unlock_write_page-Tame = elim (Bool-cases (may_read p.mapped)) [
      | inl reads ↦
          simp (reads, send_up env fd (givepage p.page_id p.protection p.bytes) [] (works fd))
            (returns_page (record (giveup_localpage p fd) { locked = false }) p.protection reads
              (λ e. rw (← s.mirrored) e) refl refl refl refl)
      | inr cannot ↦ simp cannot tt
    ]

    pub give_back-Tame : IfOk AfterAll (give_back env fd (p ∷ []) [])
    unfolding give_back satisfy_request giveup_localpage
    give_back-Tame = elim (Bool-cases (may_write p.protection)) [
      | inr keeps ↦ simp keeps (
          quiet p []
            (record { mapped = refl; protection = refl; uptodate = refl; directory = refl }) refl tt
            tt)
      | inl writes ↦ elim (Bool-cases (may_read p.mapped)) [
        | inl reads ↦
            simp (writes, reads, send_up env fd (givepage p.page_id 3 p.bytes) [] (works fd))
              (returns_page (giveup_localpage p fd) 3 reads
                (λ e. absurd (ground (arith, s.mirrored))) refl refl refl refl)
        | inr cannot ↦ simp (writes, cannot) tt
      ]
    ]

    pub invalidate_page-Tame :
        (count from id i : ℕ) (rest : List Message)
        → env.link from ≡ up
        → d ≡ invalidate i ∷ rest
        → IfOk
            (λ (r : Page × List Event). Tame p u d r.0 (u ++ posted r.1) rest)
            (invalidate_page env count from id p [])
    unfolding invalidate_page
    invalidate_page-Tame count from id i rest link e = elim (Bool-cases p.locked) [
      | inl busy ↦ simp busy tt
      | inr idle ↦ elim (Bool-cases (ltb id count)) [
        | inl inside ↦
            simp (idle, inside, send_up env from (invalidate_ack id) [] link)
              (rw e (record {
                sound = record { mirrored = refl; gone = λ _. refl };
                lighter = omega (arith, pages-append u (invalidate_ack id ∷ []));
                reads = λ h. (refl, OnlyReads-append u _ h.1 (tt, tt), h.2.1);
                clean = λ c. absurd c.1.0;
                directory = refl;
              }))
        | inr outside ↦ simp (idle, outside) tt
      ]
    ]

  pub lock_page_wake-Tame : IfOk (λ p'. Tame p u d p' u d) (lock_page_wake p)
  unfolding lock_page_wake
  lock_page_wake-Tame = elim (Bool-cases p.locked) [
    | inl busy ↦ simp busy tt
    | inr idle ↦ elim (Bool-cases p.uptodate) [
      | inl here ↦
          simp (idle, here)
            (silent (record p { locked = true; uptodate = true })
              (record { mapped = refl; protection = refl; uptodate = sym here; directory = refl }))
      | inr away ↦ simp (idle, away) tt
    ]
  ]

-- The page that a GIVEPAGE brings, up to process_list_requests.
pub givepage_page-received :
    (env : Surroundings) (fuel : ℕ) (n : Node) (id rights : ℕ) (bytes : List ℕ) (p : Page)
    → n.is_master ≡ false
    → IfOk
        (λ (r : Page × List Event). r.0 ≡ received n rights bytes p)
        (givepage_page env fuel n id rights bytes p [])
unfolding givepage_page
givepage_page-received env fuel n id rights bytes p slave = ground arith

module _ (n : Node) (p : Page) (id rights : ℕ) (bytes : List ℕ) (rest : List Message) where
  pub received_down :
      (u d : List Message)
      → d ≡ givepage id rights bytes ∷ rest
      → Tame p u d (received n rights bytes p) u rest
  received_down u d e = rw e (record {
    sound = record { mirrored = refl; gone = λ q. cc };
    lighter = omega arith;
    reads = λ h. (h.2.0, h.1, h.2.1);
    clean = λ c. (c.0, c.1.1);
    directory = refl;
  })

  pub received_up :
      (u d : List Message)
      → u ≡ givepage id rights bytes ∷ rest
      → Tame p u d (received n rights bytes p) rest d
  received_up u d e = rw e (record {
    sound = record { mirrored = refl; gone = λ q. cc };
    lighter = omega arith;
    reads = λ h. (h.1.0, h.1.1, h.2);
    clean = λ c. (c.0.1, c.1);
    directory = refl;
  })
