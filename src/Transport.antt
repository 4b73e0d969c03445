-- ===== src/Transport.antt =====
-- dsm_send_msg and dsm_receive_msg of dsm_protocol.c as a whole: a message, through an object of binn
-- and the socket of dsm_socket.c, to the other node.
mod Stream
pub mod Tests
use psar_dsm.Prelude.{
  ℕ, ◌+◌, ◌≤◌, ◌<◌, Bool, false, Option, none, some, List, [], ◌∷◌, if◌then◌else◌, Run, ok, exit,
  ◌>>=◌, length,
}
use psar_dsm.Message.{Message, givepage}
use psar_dsm.Protocol.{Key, Field, blob, Binn, IsBinn, message_fields, read_message}
use psar_dsm.Socket.{dsm_send, Incoming, dsm_receive}

-- binn on bytes: the binn_size bytes at binn_ptr of an object, and the readers of a buffer that
-- binn_open was given, which go by the size that the buffer begins with.
pub record Wire : Type 0 where
  pub ptr : List (Key × Field) → List ℕ
  pub object_int32 : List ℕ → Key → ℕ
  pub object_int16 : List ℕ → Key → ℕ
  pub object_blob : List ℕ → Key → Option (List ℕ)

abbrev pub binn : Wire → Binn
binn w = record {
  Buffer = List ℕ;
  ptr = w.ptr;
  object_int32 = w.object_int32;
  object_int16 = w.object_int16;
  object_blob = w.object_blob;
}

-- The bytes of the blobs among some fields.
abbrev pub blob_size : List (Key × Field) → ℕ
blob_size [] = 0
blob_size ((k, blob bytes) ∷ fs) = length bytes + blob_size fs
blob_size (_ ∷ fs) = blob_size fs

-- What was set is read back, and an object of at most four fields has at least one byte and at most
-- 64 besides its blobs: a head of at most 9, and at most 9 for the key, the type and the size of
-- each field with the bits of a number.
pub record IsWire (w : Wire) : Type 0 where
  pub reads : IsBinn (binn w)
  pub some_bytes : (fs : List (Key × Field)) → 0 < length (w.ptr fs)
  pub overhead : (fs : List (Key × Field)) → length fs ≤ 4 → length (w.ptr fs) ≤ 64 + blob_size fs

-- A message as it is read after free(buffer).
abbrev pub after_free : (freed : List ℕ → List ℕ) → Message → Message
after_free freed (givepage page_id access_rights bytes) =
    givepage page_id access_rights (freed bytes)
after_free freed m = m

module _ (w : Wire) where
  -- 0 (`true`) or -1 (`false`), with the bytes that went to the socket. `s` is dsm_g->mem->pagesize.
  unfoldable pub send_msg : (sends : List ℕ → Option ℕ) → (s : ℕ) → Message → Run (Bool × List ℕ)
  send_msg sends s m = elim (message_fields s m) [
    | none ↦ ok (false, [])
    | some fs ↦ dsm_send sends (w.ptr fs)
  ]

  -- `none` for -1: the socket is closed, or the type is unknown. The page of a GIVEPAGE is a pointer
  -- into the buffer, which is freed before the return: the caller reads what `freed` makes of it.
  unfoldable pub receive_msg :
      (freed : List ℕ → List ℕ)
      → (allocates : Bool) → (pagesize : Option ℕ) → Incoming
      → Run (Option Message × Incoming)
  receive_msg freed allocates pagesize s =
      if allocates
      then (dsm_receive pagesize s >>= λ (received, s'). ok (
        elim received [
          | none ↦ none
          | some buffer ↦ elim (read_message (binn w) buffer) [
            | none ↦ none
            | some m ↦ some (after_free freed m)
          ]
        ],
        s',
      ))
      else exit
