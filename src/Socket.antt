-- ===== src/Socket.antt =====
-- dsm_socket.c: dsm_send and dsm_receive, a message of bytes behind its length, and the listener.
-- The system's send and recv are parameters: how many bytes a send takes, and the bytes that arrive.
pub mod Frames
pub mod Short
mod Tests
use psar_dsm.Prelude.{
  ℕ, ◌+◌, ◌*◌, ◌/◌, ◌%◌, ◌^◌, Bool, true, false, Option, none, some, List, [], ◌∷◌, ◌++◌, ◌==◌, ltb,
  if◌then◌else◌, Run, ok, exit, ◌>>=◌, length, take, drop,
}

-- MIN_BUFFERSIZE of dsm_socket.h
abbrev pub min_buffersize : ℕ
min_buffersize = 512

-- `htonl` of a number of 32 bits, as the four bytes that it has in memory.
unfoldable pub htonl : ℕ → List ℕ
htonl v = v / 2 ^ 24 % 2 ^ 8 ∷ v / 2 ^ 16 % 2 ^ 8 ∷ v / 2 ^ 8 % 2 ^ 8 ∷ v % 2 ^ 8 ∷ []

-- `ntohl` of four bytes.
unfoldable pub ntohl : List ℕ → ℕ
ntohl (a ∷ b ∷ c ∷ d ∷ []) = a * 2 ^ 24 + b * 2 ^ 16 + c * 2 ^ 8 + d
ntohl _ = 0

-- What the system's send does with some bytes: takes a number of them, or fails (`none`).
module _ (sends : List ℕ → Option ℕ) where
  -- 0 (`true`) or -1 (`false`), with the bytes that went to the socket. A send that takes some of
  -- the message's bytes counts as success.
  unfoldable pub dsm_send : (buffer : List ℕ) → Run (Bool × List ℕ)
  dsm_send buffer =
      let head = htonl (length buffer % 2 ^ 32) in
      elim (sends head) [
        | none ↦ exit
        | some n ↦
            if n == 4
            then elim (sends buffer) [
              | none ↦ exit
              | some k ↦ if k == 0 then ok (false, head) else ok (true, head ++ take k buffer)
            ]
            else exit
      ]

-- The bytes that arrive on a socket until its peer closes it or, if `broken`, until it fails.
pub record Incoming : Type 0 where
  pub bytes : List ℕ
  pub broken : Bool

-- recv with MSG_WAITALL, which gives fewer bytes than asked for only at the end.
unfoldable pub recv : ℕ → Incoming → Run (List ℕ × Incoming)
recv n s =
    if length s.bytes == 0
    then if s.broken then exit else ok ([], s)
    else ok (take n s.bytes, record s { bytes = drop n s.bytes })

-- The size of the buffer that dsm_receive_msg allocates; `none` before dsm_g->mem is set.
abbrev pub buffersize : (pagesize : Option ℕ) → ℕ
buffersize none = min_buffersize
buffersize (some s) = min_buffersize + s

-- The part of dsm_receive behind the test of the size. A message of no bytes counts as closed.
unfoldable pub receive_body : (msg_size : ℕ) → Incoming → Run (Option (List ℕ) × Incoming)
receive_body msg_size s = do
  (body, s') ← recv msg_size s
  if length body == 0
      then ok (none, s')
      else if length body == msg_size
      then ok (some body, s')
      else ok (none, s')

-- The bytes written into the buffer; `none` for -1. The size is read in four bytes, and a message
-- that would not fit into the buffer ends the process.
unfoldable pub dsm_receive : (pagesize : Option ℕ) → Incoming → Run (Option (List ℕ) × Incoming)
dsm_receive pagesize s = do
  (head, s') ← recv 4 s
  if length head == 4
      then if ltb (buffersize pagesize) (ntohl head) then exit else receive_body (ntohl head) s'
      else ok (none, s')
