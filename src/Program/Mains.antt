-- ===== src/Program/Mains.antt =====
-- The function main of each demo, and of each test program that locks a page, from the return of
-- InitMaster or InitSlave with base_addr. The line that prints base_addr is left out. QuitDSM is
-- terminate here, and what follows it is in Node/Quit.antt.
use psar_dsm.Prelude.{ℕ, zero, suc, ◌+◌, List, [], ◌∷◌, ◌++◌}
use psar_dsm.Node.CallInvariant.{
  locks_read, locks_write, unlocks_read, unlocks_write, waits_barrier, terminates,
}
use psar_dsm.Program.{Statement, calls, stores, prints_int, prints_text, int_size}

-- The int 42, least significant byte first.
abbrev pub forty_two : List ℕ
forty_two = 42 ∷ 0 ∷ 0 ∷ 0 ∷ []

-- "Hello world!" as strcpy copies it.
abbrev pub hello : List ℕ
hello = b'H' ∷ b'e' ∷ b'l' ∷ b'l' ∷ b'o' ∷ b' ' ∷ b'w' ∷ b'o' ∷ b'r' ∷ b'l' ∷ b'd' ∷ b'!' ∷ 0 ∷ []

unfoldable pub demo_master_writer : (base_addr : ℕ) → List Statement
demo_master_writer base_addr =
    calls (locks_write base_addr)
    ∷ calls (waits_barrier 3)
    ∷ stores base_addr forty_two
    ∷ prints_int base_addr
    ∷ calls (unlocks_write base_addr)
    ∷ calls (waits_barrier 3)
    ∷ calls terminates
    ∷ []

-- A round of the loop of demo_slave_reader.
abbrev pub lecture : (base_addr : ℕ) → List Statement
lecture base_addr =
    calls (locks_read base_addr)
    ∷ prints_int base_addr
    ∷ prints_text (base_addr + int_size)
    ∷ calls (unlocks_read base_addr)
    ∷ []

unfoldable pub lectures : (nb_lecture base_addr : ℕ) → List Statement
lectures zero base_addr = []
lectures (suc k) base_addr = lecture base_addr ++ lectures k base_addr

unfoldable pub demo_slave_reader : (base_addr : ℕ) → List Statement
demo_slave_reader base_addr =
    calls (waits_barrier 3) ∷ calls (locks_read base_addr) ∷ lectures 10 base_addr
    ++ calls (waits_barrier 3) ∷ calls terminates ∷ []

unfoldable pub demo_slave_writer_reader : (base_addr : ℕ) → List Statement
demo_slave_writer_reader base_addr =
    calls (locks_write base_addr)
    ∷ calls (waits_barrier 3)
    ∷ stores (base_addr + int_size) hello
    ∷ prints_text (base_addr + int_size)
    ∷ calls (unlocks_write base_addr)
    ∷ calls (waits_barrier 3)
    ∷ calls terminates
    ∷ []

unfoldable pub test_dsm_lock_read : (base_addr : ℕ) → List Statement
test_dsm_lock_read base_addr =
    calls (waits_barrier 3)
    ∷ calls (locks_read base_addr)
    ∷ prints_text base_addr
    ∷ calls (unlocks_read base_addr)
    ∷ calls terminates
    ∷ []

-- The same on a slave.
unfoldable pub test_dsm_lock_read2 : (base_addr : ℕ) → List Statement
test_dsm_lock_read2 base_addr =
    calls (waits_barrier 3)
    ∷ calls (locks_read base_addr)
    ∷ prints_text base_addr
    ∷ calls (unlocks_read base_addr)
    ∷ calls terminates
    ∷ []

unfoldable pub test_dsm_lock_write : (base_addr : ℕ) → List Statement
test_dsm_lock_write base_addr =
    calls (locks_write base_addr)
    ∷ calls (waits_barrier 3)
    ∷ stores base_addr hello
    ∷ prints_text base_addr
    ∷ calls (unlocks_write base_addr)
    ∷ calls terminates
    ∷ []
