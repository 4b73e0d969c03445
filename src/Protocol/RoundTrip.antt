-- ===== src/Protocol/RoundTrip.antt =====
-- What dsm_receive_msg makes of a message that dsm_send_msg has put into an object.
use psar_dsm.Prelude.{
  ℕ, ◌<◌, ◌^◌, ◌≡◌, refl, sym, ap, ◌∙◌, Option, none, some, List, arith, take, take-length, length,
}
use psar_dsm.Message.{
  Message, connect, connect_ack, lockpage, invalidate, invalidate_ack, givepage, sync_barrier,
  barrier_ack, terminate_msg, unknown,
}
use psar_dsm.Protocol.{
  Key, Field, int32, int16, key_type, key_bitness, key_pagesize, key_pagecount, key_pageid,
  key_rights, key_data, key_barrier, find, Binn, IsBinn, to_int, to_long, to_short, message_fields,
  data_at, read_as, read_message,
}

-- The message that arrives: a number that is sent as an int loses its bits from 32 on and has its
-- sign extended; a page is cut to its size.
abbrev pub carried : (pagesize : ℕ) → Message → Message
carried s (connect a b) = connect (to_long (to_int a)) (to_long (to_int b))
carried s (connect_ack a b c) = connect_ack (to_short a) (to_short b) (to_long (to_int c))
carried s (lockpage i r) = lockpage (to_long (to_int i)) (to_short r)
carried s (invalidate i) = invalidate (to_long (to_int i))
carried s (invalidate_ack i) = invalidate_ack (to_long (to_int i))
carried s (givepage i r bytes) = givepage (to_long (to_int i)) (to_short r) (take s bytes)
carried s (sync_barrier k) = sync_barrier (to_short k)
carried s barrier_ack = barrier_ack
carried s terminate_msg = terminate_msg
carried s (unknown type) = unknown type

-- The numbers fit into the signed ints and the shorts, and a page has its size.
abbrev pub Fits : (pagesize : ℕ) → Message → Type 0
Fits s (connect a b) = (a < 2 ^ 31) × (b < 2 ^ 31)
Fits s (connect_ack a b c) = (a < 2 ^ 16) × (b < 2 ^ 16) × (c < 2 ^ 31)
Fits s (lockpage i r) = (i < 2 ^ 31) × (r < 2 ^ 16)
Fits s (invalidate i) = i < 2 ^ 31
Fits s (invalidate_ack i) = i < 2 ^ 31
Fits s (givepage i r bytes) = (i < 2 ^ 31) × (r < 2 ^ 16) × (length bytes ≡ s)
Fits s (sync_barrier k) = k < 2 ^ 16
Fits s _ = Unit {0}

int_fits : (v : ℕ) → v < 2 ^ 31 → to_long (to_int v) ≡ v
int_fits v h = ground arith

short_fits : (v : ℕ) → v < 2 ^ 16 → to_short v ≡ v
short_fits v h = omega arith

carried-Fits : (s : ℕ) (m : Message) → Fits s m → carried s m ≡ m
carried-Fits s (connect a b) (ha, hb) = rw (int_fits a ha, int_fits b hb) refl
carried-Fits s (connect_ack a b c) (ha, hb, hc) =
    rw (short_fits a ha, short_fits b hb, int_fits c hc) refl
carried-Fits s (lockpage i r) (hi, hr) = rw (int_fits i hi, short_fits r hr) refl
carried-Fits s (invalidate i) hi = rw (int_fits i hi) refl
carried-Fits s (invalidate_ack i) hi = rw (int_fits i hi) refl
carried-Fits s (givepage i r bytes) (hi, hr, hs) =
    rw (int_fits i hi, short_fits r hr, take-length s bytes hs) refl
carried-Fits s (sync_barrier k) hk = rw (short_fits k hk) refl
carried-Fits s barrier_ack h = refl
carried-Fits s terminate_msg h = refl
carried-Fits s (unknown type) h = refl

abbrev find_in : Key → Option (List (Key × Field)) → Option Field
find_in k none = none
find_in k (some fs) = find k fs

module _ (b : Binn) (laws : IsBinn b) (s : ℕ) where
  -- The object holds what dsm_send_msg sets for `m`.
  abbrev Object : Message → List (Key × Field) → Type 0
  Object m fs = message_fields s m ≡ some fs

  int_back :
      (m : Message) (fs : List (Key × Field)) (k : Key) (v : ℕ)
      → Object m fs
      → find_in k (message_fields s m) ≡ some (int32 (to_int v))
      → b.object_int32 (b.ptr fs) k ≡ to_int v
  int_back m fs k v e h = laws.int32_back fs k (to_int v) (omega arith) (ap (find_in k) (sym e) ∙ h)

  short_back :
      (m : Message) (fs : List (Key × Field)) (k : Key) (v : ℕ)
      → Object m fs
      → find_in k (message_fields s m) ≡ some (int16 (to_short v))
      → b.object_int16 (b.ptr fs) k ≡ to_short v
  short_back m fs k v e h =
      laws.int16_back fs k (to_short v) (omega arith) (ap (find_in k) (sym e) ∙ h)

  data_back :
      (i r : ℕ) (bytes : List ℕ) (fs : List (Key × Field))
      → Object (givepage i r bytes) fs
      → b.object_blob (b.ptr fs) key_data ≡ some (take s bytes)
  unfolding message_fields
  data_back i r bytes fs e =
      laws.blob_back fs key_data (take s bytes) (ap (find_in key_data) (sym e))

  -- Of any message that dsm_send_msg puts into an object, dsm_receive_msg reads the same type, each
  -- number cut to 32 or 16 bits, those of 32 extended by their sign, and the page cut to its size.
  pub read_message-carried :
      (m : Message) (fs : List (Key × Field))
      → Object m fs
      → read_message b (b.ptr fs) ≡ some (carried s m)
  unfolding message_fields read_message read_as
  read_message-carried (connect x y) fs e =
      rw
        (
          int_back (connect x y) fs key_type 0 e refl,
          int_back (connect x y) fs key_bitness x e refl,
          int_back (connect x y) fs key_pagesize y e refl,
        )
        refl
  read_message-carried (connect_ack x y z) fs e =
      rw
        (
          int_back (connect_ack x y z) fs key_type 1 e refl,
          short_back (connect_ack x y z) fs key_bitness x e refl,
          short_back (connect_ack x y z) fs key_pagesize y e refl,
          int_back (connect_ack x y z) fs key_pagecount z e refl,
        )
        refl
  read_message-carried (lockpage i r) fs e =
      rw
        (
          int_back (lockpage i r) fs key_type 2 e refl,
          int_back (lockpage i r) fs key_pageid i e refl,
          short_back (lockpage i r) fs key_rights r e refl,
        )
        refl
  read_message-carried (invalidate i) fs e =
      rw
        (
          int_back (invalidate i) fs key_type 3 e refl,
          int_back (invalidate i) fs key_pageid i e refl,
        )
        refl
  read_message-carried (invalidate_ack i) fs e =
      rw
        (
          int_back (invalidate_ack i) fs key_type 4 e refl,
          int_back (invalidate_ack i) fs key_pageid i e refl,
        )
        refl
  read_message-carried (givepage i r bytes) fs e =
      rw
        (
          int_back (givepage i r bytes) fs key_type 5 e refl,
          int_back (givepage i r bytes) fs key_pageid i e refl,
          short_back (givepage i r bytes) fs key_rights r e refl,
          data_at,
          data_back i r bytes fs e,
        )
        refl
  read_message-carried (sync_barrier k) fs e =
      rw
        (
          int_back (sync_barrier k) fs key_type 6 e refl,
          short_back (sync_barrier k) fs key_barrier k e refl,
        )
        refl
  read_message-carried barrier_ack fs e = rw (int_back barrier_ack fs key_type 7 e refl) refl
  read_message-carried terminate_msg fs e = rw (int_back terminate_msg fs key_type 8 e refl) refl
  read_message-carried (unknown type) fs e = absurd (ground arith)

  -- A message whose numbers are below 2^31 or 2^16 and whose page has its size, put into an object
  -- by dsm_send_msg, is read back the same by dsm_receive_msg.
  pub read_message-message_fields :
      (m : Message) (fs : List (Key × Field))
      → message_fields s m ≡ some fs
      → Fits s m
      → read_message b (b.ptr fs) ≡ some m
  read_message-message_fields m fs e fits =
      read_message-carried m fs e ∙ ap some (carried-Fits s m fits)
