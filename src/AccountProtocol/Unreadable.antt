-- ===== src/AccountProtocol/Unreadable.antt =====
-- Replies of server/extended_protocol.c whose reader looks for a field that the writer does not
-- write: the client takes the text of NULL.
use push_server.Base.{
  ℕ, ◌<◌, List, [], ◌∷◌, ◌++◌, append_assoc, append-nil, map, Option, none, some, Bytes, text,
  length, ◌≡◌, refl, sym, ap, ◌∙◌,
}
use push_server.Json.{JsonLibrary}
use push_server.ParseCommand.Header.{parse_server_header}
use push_server.Accounts.{UserInfo}
use push_server.AccountProtocol.{
  Heap, add_string, add_number, read_json, int_item, message_type_user_login,
  message_type_user_get_friend,
}
use push_server.AccountProtocol.Replies.{
  crashed, parsed, and_then, read_found, read_friends, user_fields, user_object, with_drivces,
  add_users, create_server_user_find_user, create_server_user_get_friends,
  parse_server_user_find_user, parse_server_user_get_user,
}
use push_server.AccountProtocol.Packets.{
  client_reads-client_packet, read_json-object, read_json-array,
}

module _ (J : JsonLibrary) where
  abbrev pub login_fields : Bytes → J.Object
  login_fields username =
      add_string J (add_number J J.create_object (text "result") 1) (text "username") username

  result-user_object :
      (u : Option UserInfo)
      → int_item J (J.of_object (user_object J (text "driveces") u)) (text "result") ≡ none
  unfolding int_item
  result-user_object none = simp (J.get_object_item-add, J.get_object_item-create_object)
  result-user_object (some u) = simp (J.get_object_item-add, J.get_object_item-create_object)

  abbrev friend_object : UserInfo → J.Json
  friend_object u = J.of_object (with_drivces J (user_fields J u) (text "drivces") u.drivces)

  children-add_users :
      (a : J.Array) (us : List UserInfo)
      → J.children (J.of_array (add_users J a us))
        ≡ J.children (J.of_array a) ++ map friend_object us
  children-add_users a [] = sym (append-nil (J.children (J.of_array a)))
  children-add_users a (u ∷ us) =
      children-add_users (J.add_item_to_array a (friend_object u)) us
      ∙ ap (λ vs. vs ++ map friend_object us) (J.children-add a (friend_object u))
      ∙ append_assoc (J.children (J.of_array a)) (friend_object u ∷ []) (map friend_object us)

module _ (J : JsonLibrary) (h : Heap) where
  -- The client crashes on the reply to a search for a user, whether one was found or not, and on
  -- a list of friends that is not empty. The texts of the replies are shorter than 65536 bytes.
  pub parse_server_user_find_user-crashed :
      (pad serverid : ℕ) (found : Option UserInfo) (u : UserInfo) (us : List UserInfo)
      → length (J.print (J.of_object (user_object J (text "driveces") found))) < 65536
      → length (J.print (J.of_array (add_users J J.create_array (u ∷ us)))) < 65536
      → (parse_server_user_find_user J h
            (parse_server_header (create_server_user_find_user J pad serverid found)).1
          ≡ crashed)
        × (parse_server_user_get_user J h
              (parse_server_header (create_server_user_get_friends J pad serverid (u ∷ us))).1
            ≡ crashed)
  unfolding parse_server_user_find_user create_server_user_find_user parse_server_user_get_user
      create_server_user_get_friends
  parse_server_user_find_user-crashed pad serverid found u us short short' = (
    ap
          (λ buf.
            parsed (read_json J h.after_text buf)
              λ json. and_then (int_item J json (text "result")) (read_found J h json))
          (client_reads-client_packet pad message_type_user_login serverid
            (J.print (J.of_object (user_object J (text "driveces") found))))
        ∙ rw (read_json-object J (user_object J (text "driveces") found) h.after_text short)
            (rw (result-user_object J found) refl),
    ap
          (λ buf.
            parsed (read_json J h.after_text buf)
              λ json. read_friends J h json (J.children json) [])
          (client_reads-client_packet pad message_type_user_get_friend serverid
            (J.print (J.of_array (add_users J J.create_array (u ∷ us)))))
        ∙ rw (read_json-array J (add_users J J.create_array (u ∷ us)) h.after_text short') (
            rw (children-add_users J J.create_array (u ∷ us)) (
              rw J.children-create_array (
                rw (J.get_object_item-array (add_users J J.create_array (u ∷ us)) (text "username"))
                  refl))),
  )
