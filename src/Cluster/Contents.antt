-- ===== src/Cluster/Contents.antt =====
-- What the copies of the page hold: a step of one node shows no other bytes than before.
use mathlib.Core.Path.{subst}
use psar_dsm.Prelude.{
  ℕ, ◌≡◌, refl, ap, ◌∙◌, inl, inr, true, false, List, [], ◌∷◌, ◌++◌, arith, Bool-cases, IfOk, ltb,
  take, take-length, length,
}
use psar_dsm.Memory.{Page, may_read, may_write}
use psar_dsm.Message.{
  Message, lockpage, invalidate, invalidate_ack, givepage, Event, Surroundings, up,
}
use psar_dsm.Core.{satisfy_request, giveup_localpage}
use psar_dsm.Core.Queues.{send_up}
use psar_dsm.Node.{Node}
use psar_dsm.Node.Handlers.{invalidate_page, received}
use psar_dsm.Node.Api.{Lock, lock_page, lock_page_wake, unlock_write_page, give_back}
use psar_dsm.Cluster.{posted}
use psar_dsm.Cluster.Channel.{pages}
use psar_dsm.Cluster.Local.{IsSound, readable_here}

abbrev pub Carries : List ℕ → Message → Type 0
Carries bs (givepage i r bytes) = bytes ≡ bs
Carries bs _ = Unit {0}

abbrev pub AllCarry : List ℕ → List Message → Type 0
AllCarry bs [] = Unit {0}
AllCarry bs (m ∷ ms) = Carries bs m × AllCarry bs ms

pub AllCarry-append :
    (bs : List ℕ) (xs ys : List Message) → AllCarry bs xs → AllCarry bs ys → AllCarry bs (xs ++ ys)
AllCarry-append bs [] ys hx hy = hy
AllCarry-append bs (m ∷ xs) ys hx hy = (hx.0, AllCarry-append bs xs ys hx.1 hy)

pub pageless-AllCarry : (bs : List ℕ) (ms : List Message) → pages ms ≡ 0 → AllCarry bs ms
pageless-AllCarry bs [] e = tt
pageless-AllCarry bs (m ∷ ms) e = (one m (omega arith), pageless-AllCarry bs ms (omega arith))
  where
    one : (m : Message) → pages (m ∷ []) ≡ 0 → Carries bs m
    one (givepage i r bytes) e = absurd (omega arith)
    one _ e = tt

-- A node's copy, if it is up to date, and the copies under way between it and the master.
abbrev pub Shows : List ℕ → Page → (up down : List Message) → Type 0
Shows bs p u d = (p.uptodate ≡ true → p.bytes ≡ bs) × (AllCarry bs u × AllCarry bs d)

received_bytes :
    {bs : List ℕ} (n : Node) (bytes : List ℕ)
    → n.mem.pagesize ≡ length bs
    → bytes ≡ bs
    → take n.mem.pagesize bytes ≡ bs
received_bytes {bs} n bytes sized same =
    ap (λ k. take k bytes) sized ∙ ap (take (length bs)) same ∙ take-length (length bs) bs refl

module _ (bs : List ℕ) (p : Page) (u d : List Message) (s : IsSound p) (h : Shows bs p u d) where
  sends :
      (p' : Page) (ms : List Message)
      → (p'.uptodate ≡ true → p'.bytes ≡ bs)
      → AllCarry bs ms
      → Shows bs p' (u ++ ms) d
  sends p' ms here carry = (here, (AllCarry-append bs u ms h.1.0 carry, h.1.1))

  module _ (env : Surroundings) (works : (fd : ℕ) → env.link fd ≡ up) (fd : ℕ) where
    pub lock_page-Shows :
        (rights : ℕ)
        → IfOk
            (λ (r : Page × Lock × List Event). Shows bs r.0 (u ++ posted r.2) d)
            (lock_page env fd p rights [])
    unfolding lock_page
    lock_page-Shows rights = elim (Bool-cases p.locked) [
      | inl busy ↦ simp busy tt
      | inr idle ↦ elim (Bool-cases p.uptodate) [
        | inl here ↦
            simp (idle, here)
              (sends (record p { locked = true; uptodate = true }) [] (λ _. h.0 here) tt)
        | inr away ↦
            simp (idle, away, send_up env fd (lockpage p.page_id rights) [] (works fd))
              (sends (record p { uptodate = false }) (lockpage p.page_id rights ∷ []) (λ e. cc)
                (tt, tt))
      ]
    ]

    pub unlock_write_page-Shows :
        IfOk
          (λ (r : Page × List Event). Shows bs r.0 (u ++ posted r.1) d)
          (unlock_write_page env fd p [])
    unfolding unlock_write_page satisfy_request giveup_localpage
    unlock_write_page-Shows = elim (Bool-cases (may_read p.mapped)) [
      | inl reads ↦
          simp (reads, send_up env fd (givepage p.page_id p.protection p.bytes) [] (works fd))
            (sends (record (giveup_localpage p fd) { locked = false })
              (givepage p.page_id p.protection p.bytes ∷ []) (λ e. cc)
              (h.0 (readable_here p s reads), tt))
      | inr cannot ↦ simp cannot tt
    ]

    abbrev pub AllShow : List Page × List Event → Type 0
    AllShow ([], t) = Unit {0}
    AllShow (p' ∷ ps, t) = Shows bs p' (u ++ posted t) d

    pub give_back-Shows : IfOk AllShow (give_back env fd (p ∷ []) [])
    unfolding give_back satisfy_request giveup_localpage
    give_back-Shows = elim (Bool-cases (may_write p.protection)) [
      | inr keeps ↦ simp keeps (sends p [] h.0 tt)
      | inl writes ↦ elim (Bool-cases (may_read p.mapped)) [
        | inl reads ↦
            simp (writes, reads, send_up env fd (givepage p.page_id 3 p.bytes) [] (works fd))
              (sends (giveup_localpage p fd) (givepage p.page_id 3 p.bytes ∷ []) (λ e. cc)
                (h.0 (readable_here p s reads), tt))
        | inr cannot ↦ simp (writes, cannot) tt
      ]
    ]

    pub invalidate_page-Shows :
        (count from id i : ℕ) (rest : List Message)
        → env.link from ≡ up
        → d ≡ invalidate i ∷ rest
        → IfOk
            (λ (r : Page × List Event). Shows bs r.0 (u ++ posted r.1) rest)
            (invalidate_page env count from id p [])
    unfolding invalidate_page
    invalidate_page-Shows count from id i rest link e = elim (Bool-cases p.locked) [
      | inl busy ↦ simp busy tt
      | inr idle ↦ elim (Bool-cases (ltb id count)) [
        | inl inside ↦
            simp (idle, inside, send_up env from (invalidate_ack id) [] link)
              (
                λ e. cc,
                (
                  AllCarry-append bs u (invalidate_ack id ∷ []) h.1.0 (tt, tt),
                  (subst (AllCarry bs) e h.1.1).1,
                ),
              )
        | inr outside ↦ simp (idle, outside) tt
      ]
    ]

  pub lock_page_wake-Shows : IfOk (λ p'. Shows bs p' u d) (lock_page_wake p)
  unfolding lock_page_wake
  lock_page_wake-Shows = elim (Bool-cases p.locked) [
    | inl busy ↦ simp busy tt
    | inr idle ↦ elim (Bool-cases p.uptodate) [
      | inl here ↦ simp (idle, here) (λ _. h.0 here, h.1)
      | inr away ↦ simp (idle, away) tt
    ]
  ]

  pub received_down-Shows :
      (n : Node) (id rights : ℕ) (bytes : List ℕ) (rest : List Message)
      → n.mem.pagesize ≡ length bs
      → d ≡ givepage id rights bytes ∷ rest
      → Shows bs (received n rights bytes p) u rest
  received_down-Shows n id rights bytes rest sized e =
      let (same, carry) = subst (AllCarry bs) e h.1.1 in
      (λ _. received_bytes n bytes sized same, (h.1.0, carry))

  pub received_up-Shows :
      (n : Node) (id rights : ℕ) (bytes : List ℕ) (rest : List Message)
      → n.mem.pagesize ≡ length bs
      → u ≡ givepage id rights bytes ∷ rest
      → Shows bs (received n rights bytes p) rest d
  received_up-Shows n id rights bytes rest sized e =
      let (same, carry) = subst (AllCarry bs) e h.1.0 in
      (λ _. received_bytes n bytes sized same, (carry, h.1.1))
