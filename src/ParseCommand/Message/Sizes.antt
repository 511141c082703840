-- ===== src/ParseCommand/Message/Sizes.antt =====
-- The sizes that `createClientMessage` allocates, and what it writes.
use push_server.Base.{
  ℕ, ◌+◌, ◌*◌, ◌≤◌, Bool-cases, inl, inr, List, [], ◌∷◌, Bytes, length, length-append, le32, ◌==◌,
  if◌then◌else◌, ◌≡◌, arith,
}
use push_server.SendList.{ListLibrary, drain-len}
use push_server.Util.{get_file_name}
use push_server.ParseCommand.Message.{
  field16, fields16, recipients, Draft, content_length, content_bytes, create_client_message,
}
use push_server.MessageStorage.{message_type_txt}

-- MAX_DRIVCEID_LENGTH
abbrev pub max_drivceid_length : ℕ
max_drivceid_length = 64

abbrev pub AllShort : List Bytes → Type 0
AllShort [] = Unit
AllShort (x ∷ xs) = (length x ≤ max_drivceid_length) × AllShort xs

length-fields16 : (xs : List Bytes) → AllShort xs → length (fields16 xs) ≤ 66 * length xs
length-fields16 [] h = omega arith
length-fields16 (x ∷ xs) h =
    omega (arith, length-fields16 xs h.1, length-append (field16 x) (fields16 xs))

-- The buffer of the recipients is large enough if no id is longer than 64 bytes.
pub recipients-fit :
    (S : ListLibrary) (sendto : S.Handle)
    → AllShort (S.values sendto)
    → length (recipients S sendto).bytes ≤ (recipients S sendto).allocated
unfolding recipients
recipients-fit S sendto h =
    rw (drain-len S sendto)
      (omega (arith, length-fields16 (S.values sendto) h, S.len-values sendto))

content-length :
    (m : Draft)
    → length (content_bytes m)
      ≡ content_length m + (if m.messagetype == message_type_txt then 0 else 2)
unfolding content_length content_bytes
content-length m = elim (Bool-cases (m.messagetype == message_type_txt)) [
  | inl e ↦ rw (e, content_bytes) (omega arith)
  | inr e ↦
      rw (e, content_bytes)
        (omega (arith, length-append (get_file_name m.content_or_file_name) (le32 m.filesize)))
]

-- The buffer of the whole message: a text fills it, and a file's message is two bytes longer than
-- the buffer, since the four bytes of the file's size are counted as two.
pub create_client_message-allocated :
    (S : ListLibrary) (m : Draft) (sendto : S.Handle)
    → length (create_client_message S m sendto).bytes
      ≡ (create_client_message S m sendto).allocated
        + (if m.messagetype == message_type_txt then 0 else 2)
unfolding create_client_message
create_client_message-allocated S m sendto =
    omega (arith, content-length m, length-append (recipients S sendto).bytes (content_bytes m))
