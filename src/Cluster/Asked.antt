-- ===== src/Cluster/Asked.antt =====
-- What a step of one node sends to the master when its program locks only for writing.
use psar_dsm.Prelude.{
  ℕ, ◌+◌, ◌≡◌, refl, inl, inr, true, false, List, [], ◌∷◌, ◌++◌, arith, Bool, Bool-cases, IfOk, ltb,
}
use psar_dsm.LinkedList.Queue.{Queue, add_items}
use psar_dsm.Memory.{Request, Page, may_read, may_write, prot_read, prot_write}
use psar_dsm.Message.{Message, lockpage, invalidate_ack, givepage, Event, Surroundings, up}
use psar_dsm.Core.{satisfy_request, giveup_localpage}
use psar_dsm.Core.Queues.{send_up}
use psar_dsm.Node.Handlers.{invalidate_page}
use psar_dsm.Node.Api.{Lock, lock_page, lock_page_wake, unlock_write_page, give_back}
use psar_dsm.Cluster.{posted}

-- The rights that lock_write asks for.
abbrev pub to_write : ℕ
to_write = prot_read + prot_write

abbrev pub Asks : Message → Type 0
Asks (lockpage id rights) = rights ≡ to_write
Asks _ = Unit {0}

abbrev pub AllAsk : List Message → Type 0
AllAsk [] = Unit {0}
AllAsk (m ∷ ms) = Asks m × AllAsk ms

abbrev pub AllWait : List Request → Type 0
AllWait [] = Unit {0}
AllWait (r ∷ rs) = (r.rights ≡ to_write) × AllWait rs

pub AllAsk-append : (xs ys : List Message) → AllAsk xs → AllAsk ys → AllAsk (xs ++ ys)
AllAsk-append [] ys hx hy = hy
AllAsk-append (m ∷ xs) ys hx hy = (hx.0, AllAsk-append xs ys hx.1 hy)

AllWait-append : (xs ys : List Request) → AllWait xs → AllWait ys → AllWait (xs ++ ys)
AllWait-append [] ys hx hy = hy
AllWait-append (m ∷ xs) ys hx hy = (hx.0, AllWait-append xs ys hx.1 hy)

pub add-AllWait :
    (xs : List Request) (b : Bool) (r : Request)
    → AllWait xs
    → r.rights ≡ to_write
    → IfOk (λ (q : Queue Request). AllWait q.items) (add_items xs b r)
add-AllWait [] b r h e = (e, tt)
add-AllWait (x ∷ xs) false r h e = tt
add-AllWait (x ∷ xs) true r h e = (h.0, AllWait-append xs (r ∷ []) h.1 (e, tt))

-- What a step of one node leaves of its page, and what it sends to the master.
abbrev pub IsPlain : Page → Page → List Event → Type 0
IsPlain p p' t = (p'.directory ≡ p.directory) × AllAsk (posted t)

module _ (env : Surroundings) (works : (fd : ℕ) → env.link fd ≡ up) (p : Page) (fd : ℕ) where
  pub lock_page-IsPlain :
      IfOk (λ (r : Page × Lock × List Event). IsPlain p r.0 r.2) (lock_page env fd p to_write [])
  unfolding lock_page
  lock_page-IsPlain = elim (Bool-cases p.locked) [
    | inl busy ↦ simp busy tt
    | inr idle ↦ elim (Bool-cases p.uptodate) [
      | inl at_hand ↦ simp (idle, at_hand) (refl, tt)
      | inr away ↦
          simp (idle, away, send_up env fd (lockpage p.page_id to_write) [] (works fd))
            (refl, (refl, tt))
    ]
  ]

  pub unlock_write_page-IsPlain :
      IfOk (λ (r : Page × List Event). IsPlain p r.0 r.1) (unlock_write_page env fd p [])
  unfolding unlock_write_page satisfy_request giveup_localpage
  unlock_write_page-IsPlain = elim (Bool-cases (may_read p.mapped)) [
    | inl reads ↦
        simp (reads, send_up env fd (givepage p.page_id p.protection p.bytes) [] (works fd))
          (refl, (tt, tt))
    | inr cannot ↦ simp cannot tt
  ]

  -- A slave that leaves gives back one page here.
  abbrev pub OnePlain : List Page × List Event → Type 0
  OnePlain ([], t) = Unit {0}
  OnePlain (p' ∷ ps, t) = IsPlain p p' t

  pub give_back-IsPlain : IfOk OnePlain (give_back env fd (p ∷ []) [])
  unfolding give_back satisfy_request giveup_localpage
  give_back-IsPlain = elim (Bool-cases (may_write p.protection)) [
    | inr keeps ↦ simp keeps (refl, tt)
    | inl writes ↦ elim (Bool-cases (may_read p.mapped)) [
      | inl reads ↦
          simp (writes, reads, send_up env fd (givepage p.page_id 3 p.bytes) [] (works fd))
            (refl, (tt, tt))
      | inr cannot ↦ simp (writes, cannot) tt
    ]
  ]

  pub invalidate_page-IsPlain :
      (count id : ℕ)
      → IfOk (λ (r : Page × List Event). IsPlain p r.0 r.1) (invalidate_page env count fd id p [])
  unfolding invalidate_page
  invalidate_page-IsPlain count id = elim (Bool-cases p.locked) [
    | inl busy ↦ simp busy tt
    | inr idle ↦ elim (Bool-cases (ltb id count)) [
      | inl inside ↦
          simp (idle, inside, send_up env fd (invalidate_ack id) [] (works fd)) (refl, (tt, tt))
      | inr outside ↦ simp (idle, outside) tt
    ]
  ]

pub lock_page_wake-directory :
    (p : Page) → IfOk (λ (p' : Page). p'.directory ≡ p.directory) (lock_page_wake p)
unfolding lock_page_wake
lock_page_wake-directory p = ground arith
