-- ===== src/Program/Discipline.antt =====
-- A check of a program before it runs: it uses a page only between a lock and an unlock of it.
use psar_dsm.Prelude.{
  ℕ, zero, suc, ◌+◌, ◌≡◌, Bool, true, false, ◌&&◌, not, Option, none, some, List, [], ◌∷◌, ltb,
  length,
}
use psar_dsm.Memory.{Memory, may_read, may_write, get_page_from_addr}
use psar_dsm.Message.{Message, givepage, Surroundings}
use psar_dsm.Cluster.{update}
use psar_dsm.Node.CallInvariant.{
  locks_read, locks_write, unlocks_read, unlocks_write, waits_barrier, terminates,
}
use psar_dsm.Program.{
  Statement, calls, stores, prints_int, prints_text, Thread, Step, hears, Reach, here, next,
  int_size,
}

-- Which pages the program holds, by their index.
abbrev pub Held : Type 0
Held = ℕ → Bool

abbrev pub nothing_held : Held
nothing_held i = false

-- The page of an address, where there is one, passes a test.
abbrev pub within : (page_count : ℕ) → Option ℕ → (ℕ → Bool) → Bool
within page_count none test = false
within page_count (some i) test = ltb i page_count && test i

abbrev pub on_page : Memory → (addr : ℕ) → (ℕ → Bool) → Bool
on_page m addr test = within m.page_count (get_page_from_addr m addr) test

abbrev pub all_on_pages : Memory → (addr count : ℕ) → (ℕ → Bool) → Bool
all_on_pages m addr zero test = true
all_on_pages m addr (suc k) test = on_page m addr test && all_on_pages m (addr + 1) k test

abbrev pub set_in : Option ℕ → Bool → Held → Held
set_in none b held = held
set_in (some i) b held = update held i b

abbrev pub set_at : Memory → (addr : ℕ) → Bool → Held → Held
set_at m addr b held = set_in (get_page_from_addr m addr) b held

abbrev pub is_nil : List Statement → Bool
is_nil [] = true
is_nil (c ∷ cs) = false

-- `writes` says whether the program may store. A text that a printf reads is not followed.
unfoldable pub checks : (writes : Bool) → Memory → Held → List Statement → Bool
checks writes m held [] = true
checks writes m held (calls (locks_read addr) ∷ rest) =
    on_page m addr (λ i. not (held i)) && checks writes m (set_at m addr true held) rest
checks writes m held (calls (locks_write addr) ∷ rest) =
    on_page m addr (λ i. not (held i)) && checks writes m (set_at m addr true held) rest
checks writes m held (calls (unlocks_read addr) ∷ rest) =
    on_page m addr held && checks writes m (set_at m addr false held) rest
checks writes m held (calls (unlocks_write addr) ∷ rest) =
    on_page m addr held && checks writes m (set_at m addr false held) rest
checks writes m held (calls (waits_barrier k) ∷ rest) = checks writes m held rest
checks writes m held (calls terminates ∷ rest) = is_nil rest
checks writes m held (stores addr bytes ∷ rest) =
    (writes && all_on_pages m addr (length bytes) held) && checks writes m held rest
checks writes m held (prints_int addr ∷ rest) =
    all_on_pages m addr int_size held && checks writes m held rest
checks writes m held (prints_text addr ∷ rest) = checks writes m held rest

abbrev pub is_text : Statement → Bool
is_text (prints_text addr) = true
is_text _ = false

-- A page comes with the right to read it, and to write it if the program may store.
abbrev pub Gives : (writes : Bool) → Message → Type 0
Gives writes (givepage i rights bytes) =
    (may_read rights ≡ true) × (writes ≡ true → may_write rights ≡ true)
Gives writes _ = Unit {0}

module _ {env : Surroundings} where
  abbrev pub StepGives : (writes : Bool) → {s t : Thread} → Step env s t → Type 0
  StepGives writes (hears fuel block from m run) = Gives writes m
  StepGives writes _ = Unit {0}

  -- Each page that the listener hears comes so.
  abbrev pub AllGive : (writes : Bool) → {s t : Thread} → Reach env s t → Type 0
  AllGive writes here = Unit {0}
  AllGive writes (next r step) = AllGive writes r × StepGives writes step
