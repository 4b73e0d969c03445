-- ===== src/Transport/Tests.antt =====
-- A library that puts the number of an object's fields and then the fields one behind the other, and
-- messages through it.
use psar_dsm.Prelude.{
  ℕ, zero, suc, ◌+◌, ◌*◌, ◌≤◌, ◌≡◌, refl, false, Option, none, some, List, [], ◌∷◌, ◌++◌, ◌==◌,
  if◌then◌else◌, arith, length, length-append, take, drop, ok, ◌>>=◌,
}
use psar_dsm.Message.{Message, lockpage, givepage, terminate_msg}
use psar_dsm.Protocol.{Key, Field, int32, int16, blob, number, find}
use psar_dsm.Socket.Frames.{take_append, drop_append}
use psar_dsm.Transport.{Wire, blob_size, IsWire}
use psar_dsm.Transport.Stream.{send_all, receive_msgs, receive_msgs-send_all}

abbrev bits : Option Field → ℕ
bits (some (int32 v)) = v
bits (some (int16 v)) = v
bits _ = 0

abbrev bytes_of : Option Field → Option (List ℕ)
bytes_of (some (blob xs)) = some xs
bytes_of _ = none

abbrev put : List (Key × Field) → List ℕ
put [] = []
put ((k, int32 v) ∷ fs) = number k ∷ 0 ∷ v ∷ put fs
put ((k, int16 v) ∷ fs) = number k ∷ 1 ∷ v ∷ put fs
put ((k, blob bytes) ∷ fs) = number k ∷ 2 ∷ length bytes ∷ (bytes ++ put fs)

abbrev seek : (fields : ℕ) → Key → List ℕ → Option Field
seek zero k xs = none
seek (suc n) k (k' ∷ kind ∷ v ∷ rest) =
    let behind = seek n k (if kind == 2 then drop v rest else rest) in
    if number k == k'
    then if kind == 0
      then some (int32 v)
      else if kind == 1
      then some (int16 v)
      else some (blob (take v rest))
    else behind
seek (suc n) k xs = none

seek-put : (k : Key) (fs : List (Key × Field)) → seek (length fs) k (put fs) ≡ find k fs
seek-put k [] = refl
seek-put k ((k', int32 v) ∷ fs) = rw (seek-put k fs) refl
seek-put k ((k', int16 v) ∷ fs) = rw (seek-put k fs) refl
seek-put k ((k', blob bytes) ∷ fs) =
    rw (drop_append bytes (put fs), take_append bytes (put fs), seek-put k fs) refl

abbrev read : List ℕ → Key → Option Field
read [] k = none
read (n ∷ xs) k = seek n k xs

abbrev pub plain : Wire
plain = record {
  ptr = λ fs. length fs ∷ put fs;
  object_int32 = λ xs k. bits (read xs k);
  object_int16 = λ xs k. bits (read xs k);
  object_blob = λ xs k. bytes_of (read xs k);
}

put_size : (fs : List (Key × Field)) → length (put fs) ≤ 3 * length fs + blob_size fs
put_size [] = omega arith
put_size ((k, int32 v) ∷ fs) = omega (arith, put_size fs)
put_size ((k, int16 v) ∷ fs) = omega (arith, put_size fs)
put_size ((k, blob bytes) ∷ fs) = omega (arith, put_size fs, length-append bytes (put fs))

pub plain-IsWire : IsWire plain
plain-IsWire = record {
  reads = record {
    int32_back = λ fs k v small e. rw (seek-put k fs, e) refl;
    int16_back = λ fs k v small e. rw (seek-put k fs, e) refl;
    blob_back = λ fs k bytes e. rw (seek-put k fs, e) refl;
  };
  some_bytes = λ fs. omega arith;
  overhead = λ fs few. omega (arith, put_size fs);
}

abbrev takes_all : List ℕ → Option ℕ
takes_all xs = some (length xs)

abbrev said : List Message
said = lockpage 9 3 ∷ givepage 9 3 (1 ∷ 2 ∷ []) ∷ terminate_msg ∷ []

-- free writes over the first byte.
abbrev blot : List ℕ → List ℕ
blot [] = []
blot (x ∷ xs) = 0 ∷ xs

receive_msgs-send_all_example :
    (send_all plain 2 takes_all said >>= λ stream.
    receive_msgs plain 2 blot 4 (record { bytes = stream; broken = false }))
    ≡ ok (lockpage 9 3 ∷ givepage 9 3 (0 ∷ 2 ∷ []) ∷ terminate_msg ∷ [])
receive_msgs-send_all_example =
    receive_msgs-send_all plain plain-IsWire takes_all (λ xs. refl) blot 2 (omega arith) 4 said
      (omega arith) (omega arith)
