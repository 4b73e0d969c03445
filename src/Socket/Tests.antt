-- ===== src/Socket/Tests.antt =====
-- Frames on a socket.
use psar_dsm.Prelude.{
  ℕ, ◌<◌, ◌≤◌, ◌≡◌, refl, true, false, Option, none, some, List, [], ◌∷◌, ◌++◌, ok, exit, arith,
  length,
}
use psar_dsm.Socket.{dsm_send, buffersize, dsm_receive, htonl, ntohl, recv, receive_body}
use psar_dsm.Socket.Short.{dsm_send-short}
use psar_dsm.Socket.Frames.{frames, receive_all, receive_all-frames, dsm_receive-bounded}

-- A send that takes everything.
abbrev whole : List ℕ → Option ℕ
whole xs = some (length xs)

-- A send that takes at most the four bytes of the length.
abbrev short : List ℕ → Option ℕ
short xs = some 4

-- A message that is cut short is reported as sent.
short_send : dsm_send short (1 ∷ 2 ∷ 3 ∷ 4 ∷ 5 ∷ []) ≡ ok (true, 0 ∷ 0 ∷ 0 ∷ 5 ∷ 1 ∷ 2 ∷ 3 ∷ 4 ∷ [])
unfolding dsm_send htonl
short_send = refl

-- A length above the buffer ends the process.
too_long : dsm_receive none (record { bytes = 0 ∷ 0 ∷ 2 ∷ 1 ∷ 9 ∷ []; broken = false }) ≡ exit
unfolding dsm_receive ntohl recv
too_long = refl

one_message :
    dsm_receive none (record { bytes = 0 ∷ 0 ∷ 0 ∷ 1 ∷ 9 ∷ 8 ∷ []; broken = false })
    ≡ ok (some (9 ∷ []), record { bytes = 8 ∷ []; broken = false })
unfolding dsm_receive ntohl recv receive_body
one_message = refl

dsm_receive-bounded_example : (0 < 1) × (1 ≤ buffersize none)
dsm_receive-bounded_example =
    dsm_receive-bounded none (record { bytes = 0 ∷ 0 ∷ 0 ∷ 1 ∷ 9 ∷ 8 ∷ []; broken = false })
      (record { bytes = 8 ∷ []; broken = false }) (9 ∷ []) one_message

receive_all-frames_example :
    receive_all 3 none (record { bytes = frames ((7 ∷ []) ∷ (5 ∷ 6 ∷ []) ∷ []); broken = false })
    ≡ ok ((7 ∷ []) ∷ (5 ∷ 6 ∷ []) ∷ [])
receive_all-frames_example =
    receive_all-frames 3 none ((7 ∷ []) ∷ (5 ∷ 6 ∷ []) ∷ [])
      (omega arith, omega arith, omega arith, (omega arith, omega arith, omega arith, tt))
      (omega arith)

-- The fifth byte is lost, and the first byte of the next length takes its place.
dsm_send-short_example :
    (written : List ℕ) × (dsm_send short (1 ∷ 2 ∷ 3 ∷ 4 ∷ 5 ∷ []) ≡ ok (true, written))
    × (dsm_receive none (record { bytes = written ++ (0 ∷ 0 ∷ 0 ∷ 2 ∷ 7 ∷ 8 ∷ []); broken = false })
        ≡ ok (
          some (1 ∷ 2 ∷ 3 ∷ 4 ∷ 0 ∷ []),
          record { bytes = 0 ∷ 0 ∷ 2 ∷ 7 ∷ 8 ∷ []; broken = false },
        ))
dsm_send-short_example =
    dsm_send-short none short (1 ∷ 2 ∷ 3 ∷ 4 ∷ 5 ∷ []) (0 ∷ 0 ∷ 0 ∷ 2 ∷ 7 ∷ 8 ∷ []) false 4 refl
      refl (omega arith) (omega arith) (omega arith) (omega arith) (omega arith)
