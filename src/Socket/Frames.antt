-- ===== src/Socket/Frames.antt =====
-- What dsm_receive makes of the bytes that dsm_send has written.
use mathlib.Core.Path.{subst}
use mathlib.Core.List.{append_assoc}
use psar_dsm.Prelude.{
  ℕ, zero, suc, ◌<◌, ◌≤◌, ◌%◌, ◌^◌, ◌≡◌, refl, ap, Bool, true, false, Option, none, some, List, [],
  ◌∷◌, ◌++◌, ◌==◌, ltb, Run, ok, ◌>>=◌, arith, length, take, take-length, drop, IfOk, IfOk-bind,
  out_of_fuel, length-append, ==_self,
}
use psar_dsm.Socket.{htonl, ntohl, receive_body, dsm_send, Incoming, recv, buffersize, dsm_receive}

-- The bytes of a message on the socket.
abbrev pub frame : List ℕ → List ℕ
frame m = htonl (length m) ++ m

ntohl-htonl : (v : ℕ) → v < 2 ^ 32 → ntohl (htonl v) ≡ v
unfolding ntohl htonl
ntohl-htonl v h = omega arith

pub length-htonl : (v : ℕ) → length (htonl v) ≡ 4
unfolding htonl
length-htonl v = refl

pub take_append : (m rest : List ℕ) → take (length m) (m ++ rest) ≡ m
take_append [] rest = refl
take_append (x ∷ m) rest = ap (λ ys. x ∷ ys) (take_append m rest)

pub drop_append : (m rest : List ℕ) → drop (length m) (m ++ rest) ≡ rest
drop_append [] rest = refl
drop_append (x ∷ m) rest = drop_append m rest

-- What a call of dsm_receive writes.
abbrev Written : ℕ → Option (List ℕ) × Incoming → Type 0
Written size r = elim r.0 [ none ↦ Unit {0} | some m ↦ (0 < length m) × (length m ≤ size) ]

body-Written : (size n : ℕ) (s : Incoming) → n ≤ size → IfOk (Written size) (receive_body n s)
unfolding receive_body recv
body-Written size n s h = IfOk-bind (Written size) (recv n s) _ λ r. ground arith

received-Written :
    (pagesize : Option ℕ) (s : Incoming)
    → IfOk (Written (buffersize pagesize)) (dsm_receive pagesize s)
unfolding dsm_receive
received-Written pagesize s =
    IfOk-bind (Written (buffersize pagesize)) (recv 4 s) _
      λ r. ground (arith, body-Written (buffersize pagesize) (ntohl r.0) r.1)

-- Whatever bytes arrive, a message that dsm_receive accepts is not empty and fits into the buffer
-- that dsm_receive_msg has allocated.
pub dsm_receive-bounded :
    (pagesize : Option ℕ) (s s' : Incoming) (m : List ℕ)
    → dsm_receive pagesize s ≡ ok (some m, s')
    → (0 < length m) × (length m ≤ buffersize pagesize)
dsm_receive-bounded pagesize s s' m run =
    subst (IfOk (Written (buffersize pagesize))) run (received-Written pagesize s)

recv_all :
    (m rest : List ℕ) (b : Bool)
    → 0 < length m
    → recv (length m) (record { bytes = m ++ rest; broken = b })
      ≡ ok (m, record { bytes = rest; broken = b })
unfolding recv
recv_all m rest b h =
    let full : (length (m ++ rest) == 0) ≡ false = ground (arith, length-append m rest) in
    rw (full, take_append m rest, drop_append m rest) refl

body_all :
    (m rest : List ℕ) (b : Bool)
    → 0 < length m
    → receive_body (length m) (record { bytes = m ++ rest; broken = b })
      ≡ ok (some m, record { bytes = rest; broken = b })
unfolding receive_body
body_all m rest b h =
    let some_bytes : (length m == 0) ≡ false = ground arith in
    rw (recv_all m rest b h, some_bytes, ==_self (length m)) refl

recv_head :
    (v : ℕ) (rest : List ℕ) (b : Bool)
    → recv 4 (record { bytes = htonl v ++ rest; broken = b })
      ≡ ok (htonl v, record { bytes = rest; broken = b })
recv_head v rest b =
    subst
      (λ n.
        recv n (record { bytes = htonl v ++ rest; broken = b })
        ≡ ok (htonl v, record { bytes = rest; broken = b }))
      (length-htonl v) (recv_all (htonl v) rest b (omega (arith, length-htonl v)))

-- A message of at least one byte that fits into the buffer is received as it was sent, and the
-- bytes behind it stay for the next call.
pub dsm_receive-frame :
    (pagesize : Option ℕ) (m rest : List ℕ) (b : Bool)
    → 0 < length m
    → length m ≤ buffersize pagesize
    → length m < 2 ^ 32
    → dsm_receive pagesize (record { bytes = frame m ++ rest; broken = b })
      ≡ ok (some m, record { bytes = rest; broken = b })
unfolding dsm_receive
dsm_receive-frame pagesize m rest b some_bytes fits small =
    let size = ntohl-htonl (length m) small in
    let inside : ltb (buffersize pagesize) (length m) ≡ false = ground arith in
    rw
      (
        append_assoc (htonl (length m)) m rest,
        recv_head (length m) (m ++ rest) b,
        length-htonl (length m),
        size,
        inside,
      )
      (body_all m rest b some_bytes)

-- The messages of a stream, until dsm_receive returns -1; on fuel.
abbrev pub receive_all : ℕ → (pagesize : Option ℕ) → Incoming → Run (List (List ℕ))
receive_all zero pagesize s = out_of_fuel
receive_all (suc k) pagesize s = dsm_receive pagesize s >>= λ (m, s'). elim m [
  | none ↦ ok []
  | some bytes ↦ receive_all k pagesize s' >>= λ ms. ok (bytes ∷ ms)
]

-- Each message has at least one byte and fits into the buffer.
abbrev pub AllFit : (pagesize : Option ℕ) → List (List ℕ) → Type 0
AllFit pagesize [] = Unit {0}
AllFit pagesize (m ∷ ms) =
    (0 < length m) × (length m ≤ buffersize pagesize) × (length m < 2 ^ 32) × AllFit pagesize ms

abbrev pub frames : List (List ℕ) → List ℕ
frames [] = []
frames (m ∷ ms) = frame m ++ frames ms

-- Messages that were sent one after the other on a socket that is then closed are received one by
-- one, in order, none split, merged or lost, within a fuel of one call more than their number.
-- (Each has at least one byte and fits into the buffer.)
pub receive_all-frames :
    (k : ℕ) (pagesize : Option ℕ) (ms : List (List ℕ))
    → AllFit pagesize ms
    → length ms < k
    → receive_all k pagesize (record { bytes = frames ms; broken = false }) ≡ ok ms
unfolding dsm_receive recv
receive_all-frames zero pagesize ms fit fuel = absurd (omega arith)
receive_all-frames (suc k) pagesize [] fit fuel = refl
receive_all-frames (suc k) pagesize (m ∷ ms) (h, h', h'', fit) fuel =
    rw
      (
        dsm_receive-frame pagesize m (frames ms) false h h' h'',
        receive_all-frames k pagesize ms fit (omega arith),
      )
      refl

pub sent_whole :
    (sends : List ℕ → Option ℕ) (m : List ℕ)
    → ((xs : List ℕ) → sends xs ≡ some (length xs))
    → 0 < length m
    → length m < 2 ^ 32
    → dsm_send sends m ≡ ok (true, frame m)
unfolding dsm_send
sent_whole sends m takes some_bytes small =
    let size : length m % 2 ^ 32 ≡ length m = omega arith in
    let counted : (length m == 0) ≡ false = ground arith in
    rw
      (
        dsm_send,
        takes (htonl (length m % 2 ^ 32)),
        length-htonl (length m % 2 ^ 32),
        takes m,
        counted,
        take-length (length m) m refl,
      )
      (ap (λ n. ok (true, htonl n ++ m)) size)

-- A send that takes everything writes the message as dsm_receive reads it back, whatever its bytes,
-- if it has at least one and fits into the buffer.
pub dsm_receive-dsm_send :
    (pagesize : Option ℕ) (sends : List ℕ → Option ℕ) (m rest : List ℕ) (b : Bool)
    → ((xs : List ℕ) → sends xs ≡ some (length xs))
    → 0 < length m
    → length m ≤ buffersize pagesize
    → length m < 2 ^ 32
    → (dsm_send sends m >>= λ (status, written).
        dsm_receive pagesize (record { bytes = written ++ rest; broken = b }))
      ≡ ok (some m, record { bytes = rest; broken = b })
dsm_receive-dsm_send pagesize sends m rest b takes some_bytes fits small =
    rw (sent_whole sends m takes some_bytes small)
      (dsm_receive-frame pagesize m rest b some_bytes fits small)
