-- ===== src/Cluster/Channel.antt =====
-- What a channel holds: how many pages, whether only pages for reading, whether an invalidation.
use psar_dsm.Prelude.{ℕ, ◌+◌, ◌≡◌, false, List, [], ◌∷◌, ◌++◌, arith}
use psar_dsm.Memory.{may_write}
use psar_dsm.Message.{Message, invalidate, invalidate_ack, givepage}

abbrev pub gives : Message → ℕ
gives (givepage i r bytes) = 1
gives _ = 0

-- How many pages are under way.
abbrev pub pages : List Message → ℕ
pages [] = 0
pages (m ∷ ms) = gives m + pages ms

abbrev pub IsRead : Message → Type 0
IsRead (givepage i r bytes) = may_write r ≡ false
IsRead _ = Unit {0}

-- No page under way comes with the right to write.
abbrev pub OnlyReads : List Message → Type 0
OnlyReads [] = Unit {0}
OnlyReads (m ∷ ms) = IsRead m × OnlyReads ms

abbrev pub Invalidates : Message → Type 0
Invalidates (invalidate i) = ⊥
Invalidates (invalidate_ack i) = ⊥
Invalidates _ = Unit {0}

-- No invalidation and no acknowledgement of one is under way.
abbrev pub IsClean : List Message → Type 0
IsClean [] = Unit {0}
IsClean (m ∷ ms) = Invalidates m × IsClean ms

pub pages-append : (xs ys : List Message) → pages (xs ++ ys) ≡ pages xs + pages ys
pages-append [] ys = omega arith
pages-append (m ∷ xs) ys = omega (arith, pages-append xs ys)

pub OnlyReads-append : (xs ys : List Message) → OnlyReads xs → OnlyReads ys → OnlyReads (xs ++ ys)
OnlyReads-append [] ys hx hy = hy
OnlyReads-append (m ∷ xs) ys hx hy = (hx.0, OnlyReads-append xs ys hx.1 hy)

pub IsClean-append : (xs ys : List Message) → IsClean xs → IsClean ys → IsClean (xs ++ ys)
IsClean-append [] ys hx hy = hy
IsClean-append (m ∷ xs) ys hx hy = (hx.0, IsClean-append xs ys hx.1 hy)
