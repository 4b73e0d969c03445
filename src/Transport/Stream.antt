-- ===== src/Transport/Stream.antt =====
-- Messages that one node sends on a connection, as the other node receives them.
use psar_dsm.Prelude.{
  ℕ, zero, suc, ◌+◌, ◌^◌, ◌≤◌, ◌<◌, ◌≡◌, refl, Bool, true, false, Option, none, some, List, [], ◌∷◌,
  ◌++◌, map, Run, ok, ◌>>=◌, out_of_fuel, arith, length, take,
}
use psar_dsm.Message.{
  Message, connect, connect_ack, lockpage, invalidate, invalidate_ack, givepage, sync_barrier,
  barrier_ack, terminate_msg, unknown,
}
use psar_dsm.Protocol.{Key, Field, message_fields}
use psar_dsm.Protocol.RoundTrip.{Fits, read_message-message_fields}
use psar_dsm.Socket.{Incoming, recv, dsm_receive}
use psar_dsm.Socket.Frames.{frame, dsm_receive-frame, sent_whole}
use psar_dsm.Transport.{Wire, binn, blob_size, IsWire, after_free, send_msg, receive_msg}

-- dsm_send_msg sends something of the message.
abbrev pub IsKnown : Message → Type 0
IsKnown (unknown type) = ⊥
IsKnown _ = Unit {0}

length-take-le : (n : ℕ) (xs : List ℕ) → length (take n xs) ≤ n
length-take-le zero xs = omega arith
length-take-le (suc n) [] = omega arith
length-take-le (suc n) (x ∷ xs) = omega (arith, length-take-le n xs)

-- The object of a message is small besides a page.
fields_size :
    (s : ℕ) (m : Message)
    → IsKnown m
    → (fs : List (Key × Field)) × (message_fields s m ≡ some fs)
      × (length fs ≤ 4)
      × (blob_size fs ≤ s)
unfolding message_fields
fields_size s (connect a b) h = (_, refl, omega arith, omega arith)
fields_size s (connect_ack a b c) h = (_, refl, omega arith, omega arith)
fields_size s (lockpage i r) h = (_, refl, omega arith, omega arith)
fields_size s (invalidate i) h = (_, refl, omega arith, omega arith)
fields_size s (invalidate_ack i) h = (_, refl, omega arith, omega arith)
fields_size s (givepage i r bytes) h = (_, refl, omega arith, omega (arith, length-take-le s bytes))
fields_size s (sync_barrier k) h = (_, refl, omega arith, omega arith)
fields_size s barrier_ack h = (_, refl, omega arith, omega arith)
fields_size s terminate_msg h = (_, refl, omega arith, omega arith)
fields_size s (unknown type) h = absurd h

abbrev pub AllCarried : (s : ℕ) → List Message → Type 0
AllCarried s [] = Unit {0}
AllCarried s (m ∷ ms) = IsKnown m × Fits s m × AllCarried s ms

module _ (w : Wire) (s : ℕ) where
  -- dsm_send_msg for each of some messages; the bytes that go to the socket.
  abbrev pub send_all : (sends : List ℕ → Option ℕ) → List Message → Run (List ℕ)
  send_all sends [] = ok []
  send_all sends (m ∷ ms) =
      send_msg w sends s m >>= λ (status, bytes). send_all sends ms >>= λ rest. ok (bytes ++ rest)

  -- dsm_receive_msg until it returns -1; on fuel.
  abbrev pub receive_msgs : (freed : List ℕ → List ℕ) → ℕ → Incoming → Run (List Message)
  receive_msgs freed zero i = out_of_fuel
  receive_msgs freed (suc k) i = receive_msg w freed true (some s) i >>= λ (received, i').
      elim received [ none ↦ ok [] | some m ↦ receive_msgs freed k i' >>= λ ms. ok (m ∷ ms) ]

module _ (w : Wire) (laws : IsWire w) (sends : List ℕ → Option ℕ)
    (takes : (xs : List ℕ) → sends xs ≡ some (length xs)) (freed : List ℕ → List ℕ) (s : ℕ)
    (small : s + 64 < 2 ^ 32) where
  -- What dsm_send_msg writes for a message is what one call of dsm_receive_msg reads.
  exchanged :
      (m : Message)
      → IsKnown m
      → Fits s m
      → (bytes : List ℕ) × (send_msg w sends s m ≡ ok (true, bytes))
        × ((rest : List ℕ) (b : Bool)
            → receive_msg w freed true (some s) (record { bytes = bytes ++ rest; broken = b })
              ≡ ok (some (after_free freed m), record { bytes = rest; broken = b }))
  unfolding send_msg receive_msg
  exchanged m known fits =
      let (fs, is, few, blobs) = fields_size s m known in
      let size = laws.overhead fs few in
      (
        frame (w.ptr fs),
        rw (is, send_msg) (sent_whole sends (w.ptr fs) takes (laws.some_bytes fs) (omega arith)),
        λ rest b.
            rw
              (
                dsm_receive-frame (some s) (w.ptr fs) rest b (laws.some_bytes fs) (omega arith)
                    (omega arith),
                read_message-message_fields (binn w) laws.reads s m fs is fits,
              )
              refl,
      )

  closed :
      (k : ℕ) → 0 < k → receive_msgs w s freed k (record { bytes = []; broken = false }) ≡ ok []
  unfolding receive_msg dsm_receive recv
  closed zero h = absurd (omega arith)
  closed (suc k) h = refl

  sent_stream :
      (ms : List Message)
      → AllCarried s ms
      → (stream : List ℕ) × (send_all w s sends ms ≡ ok stream)
        × ((k : ℕ)
            → length ms < k
            → receive_msgs w s freed k (record { bytes = stream; broken = false })
              ≡ ok (map (after_free freed) ms))
  sent_stream [] h = ([], refl, closed)
  sent_stream (m ∷ ms) (known, fits, h) =
      let (bytes, sent, received) = exchanged m known fits in
      let (stream, all_sent, all_received) = sent_stream ms h in
      (bytes ++ stream, rw (sent, all_sent) refl, next bytes stream received all_received)
    where
      next :
          (bytes stream : List ℕ)
          → ((rest : List ℕ) (b : Bool)
              → receive_msg w freed true (some s) (record { bytes = bytes ++ rest; broken = b })
                ≡ ok (some (after_free freed m), record { bytes = rest; broken = b }))
          → ((k : ℕ)
              → length ms < k
              → receive_msgs w s freed k (record { bytes = stream; broken = false })
                ≡ ok (map (after_free freed) ms))
          → (k : ℕ) → length (m ∷ ms) < k
          → receive_msgs w s freed k (record { bytes = bytes ++ stream; broken = false })
            ≡ ok (map (after_free freed) (m ∷ ms))
      next bytes stream received later zero fuel = absurd (omega arith)
      next bytes stream received later (suc k) fuel =
          rw (received stream false, later k (omega arith)) refl

  -- Any messages that dsm_send_msg writes one after the other on a socket that is then closed come out
  -- of dsm_receive_msg at the other end in the same order, within a fuel of one call more than their
  -- number, and the same but for the page of a GIVEPAGE, which is what the freed buffer then holds of
  -- the page that was sent; if both ends have the page size `s`, of fewer than 2^32 - 64 bytes, send
  -- takes all that it is given, malloc gives a buffer, the types are known, the numbers fit into what
  -- carries them, each page has its size, and the library of the encoding reads back what was set and
  -- makes objects of at least one byte and of at most 64 besides the page.
  pub receive_msgs-send_all :
      (k : ℕ) (ms : List Message)
      → AllCarried s ms
      → length ms < k
      → (send_all w s sends ms >>= λ stream.
          receive_msgs w s freed k (record { bytes = stream; broken = false }))
        ≡ ok (map (after_free freed) ms)
  receive_msgs-send_all k ms h fuel =
      let (stream, sent, received) = sent_stream ms h in rw sent (received k fuel)
