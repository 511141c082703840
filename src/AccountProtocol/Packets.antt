-- ===== src/AccountProtocol/Packets.antt =====
-- What a packet of server/extended_protocol.c holds for the one who reads it.
use push_server.Base.{
  ℕ, ◌<◌, [], ◌++◌, some, Bytes, text, length, read16, drop, read16-be16, ◌≡◌, refl, ap, sym, ◌∙◌,
  append-nil,
}
use push_server.Json.{JsonLibrary}
use push_server.ParseCommand.Header.{parse_client_header, parse_server_header}
use push_server.ParseCommand.Helo.{copied, copied-append}
use push_server.ParseCommand.Message.{field16}
use push_server.Redis.{Redis}
use push_server.Redis.Conn.{M, Conn}
use push_server.AccountProtocol.Requests.{Handled, with_username}
use push_server.AccountProtocol.{Heap, client_packet, server_packet, read_json, string_item, named}

-- Whoever sent it, behind the header there is the text with its length in front.
pub server_reads-client_packet :
    (pad messagetype clienttype : ℕ) (str : Bytes)
    → (parse_client_header (client_packet pad messagetype clienttype str)).1 ≡ field16 str
unfolding client_packet parse_client_header
server_reads-client_packet pad messagetype clienttype str = refl

pub client_reads-client_packet :
    (pad messagetype clienttype : ℕ) (str : Bytes)
    → (parse_server_header (client_packet pad messagetype clienttype str)).1 ≡ field16 str
unfolding client_packet parse_server_header
client_reads-client_packet pad messagetype clienttype str = refl

pub client_reads-server_packet :
    (serverid messagetype : ℕ) (str : Bytes)
    → (parse_server_header (server_packet serverid messagetype str)).1 ≡ field16 str
unfolding server_packet parse_server_header
client_reads-server_packet serverid messagetype str = refl

copied-field16 :
    (str : Bytes) → length str < 65536 → copied (read16 (field16 str)) (drop 2 (field16 str)) ≡ str
copied-field16 str h =
    ap (λ n. copied n str) (read16-be16 (length str) str h)
    ∙ ap (copied (length str)) (sym (append-nil str))
    ∙ copied-append str []

module _ (J : JsonLibrary) where
  pub read_json-object :
      (o : J.Object) (after_text : Bytes)
      → length (J.print (J.of_object o)) < 65536
      → read_json J after_text (field16 (J.print (J.of_object o))) ≡ some (J.of_object o)
  unfolding read_json
  read_json-object o after_text h =
      ap (λ t. J.parse (t ++ after_text)) (copied-field16 (J.print (J.of_object o)) h)
      ∙ J.parse-print_object o after_text

  pub read_json-array :
      (a : J.Array) (after_text : Bytes)
      → length (J.print (J.of_array a)) < 65536
      → read_json J after_text (field16 (J.print (J.of_array a))) ≡ some (J.of_array a)
  unfolding read_json
  read_json-array a after_text h =
      ap (λ t. J.parse (t ++ after_text)) (copied-field16 (J.print (J.of_array a)) h)
      ∙ J.parse-print_array a after_text

  pub string_item-named :
      (username : Bytes)
      → string_item J (J.of_object (named J username)) (text "username") ≡ some username
  unfolding string_item
  string_item-named username =
      simp (J.get_object_item-add, J.get_object_item-create_object, J.valuestring-create_string)

module _ {R : Redis} (J : JsonLibrary) (h : Heap) (wrong_type : Bytes) (serverid : ℕ) where
  -- A handler goes on with the name that the request holds.
  pub with_username-read :
      (buf : Bytes) (k : J.Json → Bytes → M R Handled) (s : Conn R) (json : J.Json) (name : Bytes)
      → read_json J h.after_text buf ≡ some json
      → string_item J json (text "username") ≡ some name
      → with_username J h wrong_type serverid buf k s ≡ k json (name ++ h.after_name) s
  with_username-read buf k s json name e f = rw e (rw f refl)

  -- That is so for a packet of a client, if its text is short enough for its length.
  pub with_username-packet :
      (pad messagetype clienttype : ℕ) (o : J.Object) (k : J.Json → Bytes → M R Handled)
      (s : Conn R) (name : Bytes)
      → length (J.print (J.of_object o)) < 65536
      → string_item J (J.of_object o) (text "username") ≡ some name
      → with_username J h wrong_type serverid
          (parse_client_header
            (client_packet pad messagetype clienttype (J.print (J.of_object o)))).1
          k
          s
        ≡ k (J.of_object o) (name ++ h.after_name) s
  with_username-packet pad messagetype clienttype o k s name short f =
      with_username-read
        (parse_client_header (client_packet pad messagetype clienttype (J.print (J.of_object o)))).1
        k s (J.of_object o) name
        (ap (read_json J h.after_text)
            (server_reads-client_packet pad messagetype clienttype (J.print (J.of_object o)))
          ∙ read_json-object J o h.after_text short)
        f
