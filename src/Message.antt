-- ===== src/Message.antt =====
-- dsm_protocol.h: the messages, and what a handler does that its caller can see.
use psar_dsm.Prelude.{ℕ, List, ◌∷◌, Bool, true, false, Run, ok, exit}

-- dsm_message_t: the tag of dsm_msg_type with its member of the union. `unknown` is a tag outside
-- of the enumeration, which an int32 from the network can be.
pub data Message : Type 0 where
  connect : (bitness pagesize : ℕ) → Message
  connect_ack : (bitness_ok pagesize_ok page_count : ℕ) → Message
  lockpage : (page_id access_rights : ℕ) → Message
  invalidate : (page_id : ℕ) → Message
  invalidate_ack : (page_id : ℕ) → Message
  givepage : (page_id access_rights : ℕ) → (bytes : List ℕ) → Message
  sync_barrier : (slave_to_wait : ℕ) → Message
  barrier_ack : Message
  terminate_msg : Message
  unknown : (type : ℕ) → Message

-- A message sent to a socket, and the signal of a condition variable.
pub data Event : Type 0 where
  sent : (sockfd : ℕ) → Message → Event
  signal_uptodate : (page_id : ℕ) → Event
  signal_barrier : Event
  signal_master_end : Event

-- What the system's send does on a socket: takes the bytes, returns 0, or fails.
pub data Link : Type 0 where
  up closed broken : Link

-- The surroundings of a call: the sockets, and whether the memory of a node that was freed still
-- reads as it did (C leaves that read undefined).
pub record Surroundings : Type 0 where
  pub link : ℕ → Link
  pub keeps_freed : Bool

-- dsm_send_msg as its callers see it: 0 (`true`) after the message is sent, -1 (`false`) where
-- send returns 0, and the end of the process where send fails. Newest event first.
unfoldable pub dsm_send_msg : Surroundings → ℕ → Message → List Event → Run (Bool × List Event)
dsm_send_msg env fd m t = elim (env.link fd) [
  | up ↦ ok (true, sent fd m ∷ t)
  | closed ↦ ok (false, t)
  | broken ↦ exit
]
