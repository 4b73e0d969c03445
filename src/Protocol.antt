-- ===== src/Protocol.antt =====
-- dsm_protocol.c: how a message is put into an object of the library binn (dsm_send_msg) and read
-- back from a received buffer (dsm_receive_msg). binn is a parameter.
pub mod RoundTrip
mod Tests
use psar_dsm.Prelude.{
  ℕ, ◌+◌, ◌-◌, ◌<◌, ◌%◌, ◌^◌, ◌≡◌, Bool, Option, none, some, List, [], ◌∷◌, ◌==◌, ltb,
  if◌then◌else◌, take,
}
use psar_dsm.Message.{
  Message, connect, connect_ack, lockpage, invalidate, invalidate_ack, givepage, sync_barrier,
  barrier_ack, terminate_msg, unknown,
}

-- The keys DSM_MSG_KEY_... of dsm_protocol.h.
pub data Key : Type 0 where
  key_type key_bitness key_pagesize key_pagecount key_pageid key_rights key_data key_barrier : Key

-- A field of an object: the bit pattern of an int or a short, or a blob.
pub data Field : Type 0 where
  int32 int16 : (bits : ℕ) → Field
  blob : (bytes : List ℕ) → Field

abbrev pub number : Key → ℕ
number key_type = 0
number key_bitness = 1
number key_pagesize = 2
number key_pagecount = 3
number key_pageid = 4
number key_rights = 5
number key_data = 6
number key_barrier = 7

-- The field that was set first under a key.
abbrev pub find : Key → List (Key × Field) → Option Field
find k [] = none
find k ((k', f) ∷ fs) = if number k == number k' then some f else find k fs

-- What the code uses of binn: the buffer of an object whose fields were set in order, and the
-- readers of a buffer, as bit patterns. A blob that is missing is NULL.
pub record Binn : Type 1 where
  pub Buffer : Type 0
  pub ptr : List (Key × Field) → Buffer
  pub object_int32 : Buffer → Key → ℕ
  pub object_int16 : Buffer → Key → ℕ
  pub object_blob : Buffer → Key → Option (List ℕ)

-- A field that was set is read back under its key, with its type.
pub record IsBinn (b : Binn) : Type 0 where
  pub int32_back :
      (fs : List (Key × Field)) (k : Key) (v : ℕ)
      → v < 2 ^ 32
      → find k fs ≡ some (int32 v)
      → b.object_int32 (b.ptr fs) k ≡ v
  pub int16_back :
      (fs : List (Key × Field)) (k : Key) (v : ℕ)
      → v < 2 ^ 16
      → find k fs ≡ some (int16 v)
      → b.object_int16 (b.ptr fs) k ≡ v
  pub blob_back :
      (fs : List (Key × Field)) (k : Key) (bytes : List ℕ)
      → find k fs ≡ some (blob bytes)
      → b.object_blob (b.ptr fs) k ≡ some bytes

-- The conversion of an `unsigned long` to the int of binn_object_set_int32.
abbrev pub to_int : ℕ → ℕ
to_int v = v % 2 ^ 32

-- The conversion of an int to an `unsigned long`, which extends the sign.
abbrev pub to_long : ℕ → ℕ
to_long v = if ltb v (2 ^ 31) then v else v + (2 ^ 64 - 2 ^ 32)

abbrev pub to_short : ℕ → ℕ
to_short v = v % 2 ^ 16

-- The fields that dsm_send_msg sets, in order; `none` for a type that is not of the enumeration, of
-- which nothing is sent.
unfoldable pub message_fields : (pagesize : ℕ) → Message → Option (List (Key × Field))
message_fields s (connect bitness pagesize) = some (
    (key_type, int32 0)
    ∷ (key_bitness, int32 (to_int bitness))
    ∷ (key_pagesize, int32 (to_int pagesize))
    ∷ [])
message_fields s (connect_ack bitness_ok pagesize_ok page_count) = some (
    (key_type, int32 1)
    ∷ (key_bitness, int16 (to_short bitness_ok))
    ∷ (key_pagesize, int16 (to_short pagesize_ok))
    ∷ (key_pagecount, int32 (to_int page_count))
    ∷ [])
message_fields s (lockpage page_id access_rights) = some (
    (key_type, int32 2)
    ∷ (key_pageid, int32 (to_int page_id))
    ∷ (key_rights, int16 (to_short access_rights))
    ∷ [])
message_fields s (invalidate page_id) =
    some ((key_type, int32 3) ∷ (key_pageid, int32 (to_int page_id)) ∷ [])
message_fields s (invalidate_ack page_id) =
    some ((key_type, int32 4) ∷ (key_pageid, int32 (to_int page_id)) ∷ [])
message_fields s (givepage page_id access_rights bytes) = some (
    (key_type, int32 5)
    ∷ (key_pageid, int32 (to_int page_id))
    ∷ (key_rights, int16 (to_short access_rights))
    ∷ (key_data, blob (take s bytes))
    ∷ [])
message_fields s (sync_barrier slave_to_wait) =
    some ((key_type, int32 6) ∷ (key_barrier, int16 (to_short slave_to_wait)) ∷ [])
message_fields s barrier_ack = some ((key_type, int32 7) ∷ [])
message_fields s terminate_msg = some ((key_type, int32 8) ∷ [])
message_fields s (unknown type) = none

module _ (b : Binn) where
  abbrev pub int_at : b.Buffer → Key → ℕ
  int_at buf k = to_long (b.object_int32 buf k)

  -- The pointer that binn_object_blob gives, NULL being an empty blob.
  abbrev pub data_at : b.Buffer → List ℕ
  data_at buf = elim (b.object_blob buf key_data) [ none ↦ [] | some bytes ↦ bytes ]

  -- The switch of dsm_receive_msg on the type; `none` for an unknown type, which makes it return -1.
  unfoldable pub read_as : b.Buffer → (type : ℕ) → Option Message
  read_as buf type =
      if type == 0
      then some (connect (int_at buf key_bitness) (int_at buf key_pagesize))
      else if type == 1
      then some (
          connect_ack (b.object_int16 buf key_bitness) (b.object_int16 buf key_pagesize)
            (int_at buf key_pagecount))
      else if type == 2
      then some (lockpage (int_at buf key_pageid) (b.object_int16 buf key_rights))
      else if type == 3
      then some (invalidate (int_at buf key_pageid))
      else if type == 4
      then some (invalidate_ack (int_at buf key_pageid))
      else if type == 5
      then some (givepage (int_at buf key_pageid) (b.object_int16 buf key_rights) (data_at buf))
      else if type == 6
      then some (sync_barrier (b.object_int16 buf key_barrier))
      else if type == 7
      then some barrier_ack
      else if type == 8
      then some terminate_msg
      else none

  unfoldable pub read_message : b.Buffer → Option Message
  read_message buf = read_as buf (b.object_int32 buf key_type)
