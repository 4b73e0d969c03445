-- ===== src/Socket/Short.antt =====
-- dsm_send of dsm_socket.c when the system takes a part of the message.
use mathlib.Core.List.{append_assoc}
use psar_dsm.Prelude.{
  ℕ, zero, suc, ◌-◌, ◌≤◌, ◌<◌, ◌^◌, ◌%◌, ◌≡◌, refl, sym, ap, ◌∙◌, Bool, true, false, Option, some,
  List, [], ◌∷◌, ◌++◌, ◌==◌, ok, arith, length, length-append, take, drop, length-take_of_le,
}
use psar_dsm.Socket.{htonl, dsm_send, dsm_receive, buffersize}
use psar_dsm.Socket.Frames.{frame, dsm_receive-frame}

take-drop : (n : ℕ) (xs : List ℕ) → take n xs ++ drop n xs ≡ xs
take-drop zero xs = refl
take-drop (suc n) [] = refl
take-drop (suc n) (x ∷ xs) = ap (λ ys. x ∷ ys) (take-drop n xs)

short_written :
    (sends : List ℕ → Option ℕ) (m : List ℕ) (k : ℕ)
    → sends (htonl (length m % 2 ^ 32)) ≡ some 4
    → sends m ≡ some k
    → 0 < k
    → length m < 2 ^ 32
    → dsm_send sends m ≡ ok (true, htonl (length m) ++ take k m)
unfolding dsm_send
short_written sends m k head body some_taken small =
    let size : length m % 2 ^ 32 ≡ length m = omega arith in
    let counted : (k == 0) ≡ false = ground arith in
    rw (dsm_send, head, body, counted) (ap (λ n. ok (true, htonl n ++ take k m)) size)

-- The message that the other end makes of the part and of what is sent next.
abbrev pub spliced : (k : ℕ) → (m later : List ℕ) → List ℕ
spliced k m later = take k m ++ take (length m - k) later

spliced_stream :
    (m later : List ℕ) (k : ℕ)
    → length (spliced k m later) ≡ length m
    → (htonl (length m) ++ take k m) ++ later
      ≡ frame (spliced k m later) ++ drop (length m - k) later
spliced_stream m later k same =
    let n = length m - k in
    append_assoc (htonl (length m)) (take k m) later
    ∙ ap (λ ys. htonl (length m) ++ (take k m ++ ys)) (sym (take-drop n later))
    ∙ ap (λ ys. htonl (length m) ++ ys)
        (sym (append_assoc (take k m) (take n later) (drop n later)))
    ∙ sym (append_assoc (htonl (length m)) (spliced k m later) (drop n later))
    ∙ ap (λ l. (htonl l ++ spliced k m later) ++ drop n later) (sym same)

-- Where send takes only the first `k` bytes of a message, dsm_send reports it as sent, and dsm_receive
-- at the other end takes the first bytes of what is sent later for the rest of the message, and reads
-- the next length in the middle of a message, if as much is sent later as was lost, and the message
-- fits into the buffer.
pub dsm_send-short :
    (pagesize : Option ℕ) (sends : List ℕ → Option ℕ) (m later : List ℕ) (b : Bool) (k : ℕ)
    → sends (htonl (length m % 2 ^ 32)) ≡ some 4
    → sends m ≡ some k
    → 0 < k
    → k ≤ length m
    → length m - k ≤ length later
    → length m ≤ buffersize pagesize
    → length m < 2 ^ 32
    → (written : List ℕ) × (dsm_send sends m ≡ ok (true, written))
      × (dsm_receive pagesize (record { bytes = written ++ later; broken = b })
          ≡ ok (some (spliced k m later), record { bytes = drop (length m - k) later; broken = b }))
dsm_send-short pagesize sends m later b k head body some_taken part enough fits small =
    let n = length m - k in
    let same : length (spliced k m later) ≡ length m = omega (
      arith,
      length-append (take k m) (take n later),
      length-take_of_le k m part,
      length-take_of_le n later enough,
    ) in
    (
      htonl (length m) ++ take k m,
      short_written sends m k head body some_taken small,
      rw (spliced_stream m later k same) (
          dsm_receive-frame pagesize (spliced k m later) (drop n later) b (omega (arith, same))
            (omega (arith, same)) (omega (arith, same))),
    )
