-- ===== src/Protocol/Tests.antt =====
-- A library that keeps the fields as they are, and messages through it.
use psar_dsm.Prelude.{ℕ, ◌+◌, ◌^◌, ◌≡◌, refl, Option, none, some, List, [], ◌∷◌}
use psar_dsm.Message.{givepage}
use psar_dsm.Protocol.{
  Key, Field, int32, int16, blob, key_type, key_pageid, key_rights, key_data, find, Binn, IsBinn,
  message_fields, read_message,
}
use psar_dsm.Protocol.RoundTrip.{carried, read_message-carried}

abbrev bits : Option Field → ℕ
bits (some (int32 v)) = v
bits (some (int16 v)) = v
bits _ = 0

abbrev bytes_of : Option Field → Option (List ℕ)
bytes_of (some (blob xs)) = some xs
bytes_of _ = none

abbrev plain : Binn
plain = record {
  Buffer = List (Key × Field);
  ptr = λ fs. fs;
  object_int32 = λ fs k. bits (find k fs);
  object_int16 = λ fs k. bits (find k fs);
  object_blob = λ fs k. bytes_of (find k fs);
}

plain-IsBinn : IsBinn plain
plain-IsBinn = record {
  int32_back = λ fs k v lt e. rw e refl;
  int16_back = λ fs k v lt e. rw e refl;
  blob_back = λ fs k xs e. rw e refl;
}

-- Page number 2^32 + 2^31, of a page that is cut to one byte.
abbrev far_fields : List (Key × Field)
far_fields =
    (key_type, int32 5)
    ∷ (key_pageid, int32 (2 ^ 31))
    ∷ (key_rights, int16 3)
    ∷ (key_data, blob (1 ∷ []))
    ∷ []

far_sent : message_fields 1 (givepage (2 ^ 32 + 2 ^ 31) 3 (1 ∷ 2 ∷ [])) ≡ some far_fields
unfolding message_fields
far_sent = refl

read_message-carried_example :
    read_message plain far_fields ≡ some (carried 1 (givepage (2 ^ 32 + 2 ^ 31) 3 (1 ∷ 2 ∷ [])))
read_message-carried_example =
    read_message-carried plain plain-IsBinn 1 (givepage (2 ^ 32 + 2 ^ 31) 3 (1 ∷ 2 ∷ [])) far_fields
      far_sent
