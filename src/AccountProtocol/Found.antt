-- ===== src/AccountProtocol/Found.antt =====
-- The texts of a request to add a friend and of its reply, as their readers find them.
use push_server.Base.{
  ℕ, suc, lt→ltb, ◌+◌, ◌<◌, List, [], ◌∷◌, ◌++◌, map, append_assoc, append-nil, some, Bytes, text,
  length, replicate, ◌≡◌, refl, sym, ap, ◌∙◌, arith,
}
use push_server.Json.{JsonLibrary}
use push_server.ParseCommand.Header.{parse_server_header}
use push_server.Accounts.{UserInfo}
use push_server.AccountProtocol.{
  Heap, named, add_string, add_strings, read_json, string_item, int_item,
  message_type_user_add_friend,
}
use push_server.AccountProtocol.Replies.{
  received, parsed, and_then, read_drivces, drivces_at, read_added, user_object,
  create_server_user_add_user, parse_server_user_add_user,
}
use push_server.AccountProtocol.Packets.{client_reads-client_packet, read_json-object}

module _ (J : JsonLibrary) where
  abbrev pub friend_request : Bytes → Bytes → J.Object
  friend_request username friendname =
      add_string J (named J username) (text "friendname") friendname

  pub username-friend_request :
      (username friendname : Bytes)
      → string_item J (J.of_object (friend_request username friendname)) (text "username")
        ≡ some username
  unfolding string_item
  username-friend_request username friendname =
      simp (J.get_object_item-add, J.get_object_item-create_object, J.valuestring-create_string)

  pub friendname-friend_request :
      (username friendname : Bytes)
      → string_item J (J.of_object (friend_request username friendname)) (text "friendname")
        ≡ some friendname
  unfolding string_item
  friendname-friend_request username friendname =
      simp (J.get_object_item-add, J.get_object_item-create_object, J.valuestring-create_string)

  children-add_strings :
      (a : J.Array) (ss : List Bytes)
      → J.children (J.of_array (add_strings J a ss))
        ≡ J.children (J.of_array a) ++ map J.create_string ss
  children-add_strings a [] = sym (append-nil (J.children (J.of_array a)))
  children-add_strings a (s ∷ ss) =
      children-add_strings (J.add_item_to_array a (J.create_string s)) ss
      ∙ ap (λ vs. vs ++ map J.create_string ss) (J.children-add a (J.create_string s))
      ∙ append_assoc (J.children (J.of_array a)) (J.create_string s ∷ []) (map J.create_string ss)

  -- As many blank devices as there are texts.
  read_drivces-strings :
      (ss : List Bytes) (n : ℕ)
      → read_drivces J [] (map J.create_string ss) (replicate n [])
        ≡ received (replicate (length ss + n) [])
  read_drivces-strings [] n = ap (λ k. received (replicate k [])) (omega arith)
  read_drivces-strings (s ∷ ss) n =
      rw (J.valuestring-create_string s)
        (read_drivces-strings ss (suc n) ∙ ap (λ k. received (replicate k [])) (omega arith))

module _ (J : JsonLibrary) (u : UserInfo) where
  abbrev pub found : J.Object
  found = user_object J (text "drivces") (some u)

  is_success-found : int_item J (J.of_object found) (text "isSuccess") ≡ some 1
  unfolding int_item
  is_success-found =
      simp (J.get_object_item-add, J.get_object_item-create_object, J.valueint-create_number)

  username-found :
      J.get_object_item (J.of_object found) (text "username") ≡ some (J.create_string u.username)
  username-found = simp (J.get_object_item-add, J.get_object_item-create_object)

  userid-found :
      J.get_object_item (J.of_object found) (text "userid") ≡ some (J.create_string u.userid)
  userid-found = simp (J.get_object_item-add, J.get_object_item-create_object)

  drivces-found :
      J.get_object_item (J.of_object found) (text "drivces")
      ≡ some (J.of_array (add_strings J J.create_array u.drivces))
  drivces-found = simp (J.get_object_item-add, J.get_object_item-create_object)

  drivces_at-found :
      drivces_at J [] (text "drivces") (J.of_object found)
      ≡ received (replicate (length u.drivces) [])
  drivces_at-found = rw drivces-found (
      rw (children-add_strings J J.create_array u.drivces) (
        rw J.children-create_array
          (read_drivces-strings J u.drivces 0 ∙ ap (λ k. received (replicate k [])) (omega arith))))

  -- What the client makes of the reply: every device is there, and is blank.
  pub parse_server_user_add_user-found :
      (h : Heap) (pad serverid : ℕ)
      → length u.username < 64
      → length u.userid < 64
      → length (J.print (J.of_object found)) < 65536
      → parse_server_user_add_user J h
          (parse_server_header (create_server_user_add_user J pad serverid (some u))).1
        ≡ received (
            some (record {
              userid = u.userid ++ h.after_id;
              username = u.username ++ h.after_name;
              drivces = replicate (length u.drivces) [];
            }))
  unfolding parse_server_user_add_user create_server_user_add_user
  parse_server_user_add_user-found h pad serverid fits fits' short =
      ap
        (λ buf.
          parsed (read_json J h.after_text buf)
            λ json. and_then (int_item J json (text "isSuccess")) (read_added J h json))
        (client_reads-client_packet pad message_type_user_add_friend serverid
          (J.print (J.of_object found)))
      ∙ rw (read_json-object J found h.after_text short) (
          rw is_success-found (
            rw (username-found, userid-found)
              (rw drivces_at-found (
                rw (J.valuestring-create_string u.username, J.valuestring-create_string u.userid)
                  (rw (lt→ltb (length u.username) 64 fits, lt→ltb (length u.userid) 64 fits')
                    refl)))))
