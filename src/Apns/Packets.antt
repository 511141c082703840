-- ===== src/Apns/Packets.antt =====
-- The packets of server/ippush.c, when the payload has to be cut.
use push_server.Base.{
  ℕ, zero, suc, ◌+◌, ◌-◌, ◌≤◌, ◌<◌, false, Bool-cases, inl, inr, [], ◌∷◌, ◌++◌, Option, none, some,
  Bytes, length, length-append, length-take, take, take-all, be16, be32, le32, ltb, lt→ltb, ltb→lt,
  text, if◌then◌else◌, ◌≡◌, refl, ap, ◌∙◌, arith,
}
use push_server.Base.Decimal.{dec}
use push_server.Apns.{
  token_size, max_payload_size, str_size, escape_size, escaped, json_escape, quoted_sound,
  with_quotes, payload_sound, payload_bytes, with_room, payload_text, payload, longer, sized,
  build_payload, built, second_try, first_try, fit_payload, packed, with_payload,
  build_output_packet, build_output_packet_2,
}

-- Each byte that is cut from a text takes at least one from the escaped text.
length-escaped-take :
    (n : ℕ) (cs : Bytes) → length (escaped (take n cs)) + (length cs - n) ≤ length (escaped cs)
unfolding escaped
length-escaped-take zero [] = omega arith
length-escaped-take zero (c ∷ cs) = ground (arith, length-escaped-take zero cs)
length-escaped-take (suc n) [] = omega arith
length-escaped-take (suc n) (c ∷ cs) = ground (arith, length-escaped-take n cs)

ltb-false→le : (a b : ℕ) → ltb a b ≡ false → b ≤ a
ltb-false→le a b h = ground arith

le→ltb-false : (a b : ℕ) → a ≤ b → ltb b a ≡ false
le→ltb-false a b h = ground arith

-- A sound that `json_escape` takes.
abbrev pub IsShort : Option Bytes → Type 0
IsShort none = Unit
IsShort (some sound) = length sound < 924

-- The sound, as the payload has it.
abbrev pub tone : Option Bytes → Bytes
tone none = []
tone (some sound) = quoted_sound (escaped sound)

json_escape-short : (cs : Bytes) → length cs < 924 → json_escape cs ≡ some (escaped cs)
unfolding json_escape
json_escape-short cs h = rw (lt→ltb (length cs + 100) escape_size (omega arith)) refl

payload_sound-short :
    (sound : Option Bytes) → IsShort sound → payload_sound sound ≡ some (tone sound)
payload_sound-short none h = refl
payload_sound-short (some sound) h = ap with_quotes (json_escape-short sound h)

module _ (badage : ℕ) (sound : Option Bytes) where
  -- The payload with the whole of a message.
  abbrev pub whole : Bytes → Bytes
  whole msg = payload_bytes (escaped msg) badage (tone sound)

  -- What the payload has besides the message.
  abbrev frame : ℕ
  frame =
      length (text "{\"aps\":{\"alert\":\"")
      + length (text "\",\"badge\":" ++ (dec badage ++ (tone sound ++ text "}}")))

  length-whole : (msg : Bytes) → length (whole msg) ≡ frame + length (escaped msg)
  unfolding payload_bytes
  length-whole msg = omega (
    arith,
    length-append (escaped msg) (text "\",\"badge\":" ++ (dec badage ++ (tone sound ++ text "}}"))),
  )

  payload_text-whole :
      (msg : Bytes)
      → IsShort sound
      → length msg < 924
      → length (whole msg) < str_size
      → payload_text (some msg) badage sound ≡ some (whole msg)
  unfolding payload_text
  payload_text-whole msg s h room =
      ap (λ a. with_room a badage (payload_sound sound)) (json_escape-short msg h)
      ∙ ap (with_room (some (escaped msg)) badage) (payload_sound-short sound s)
      ∙ rw (lt→ltb (length (whole msg)) str_size room) refl

  build_payload-fits :
      (msg : Bytes)
      → IsShort sound
      → length msg < 924
      → length (whole msg) ≤ max_payload_size
      → build_payload max_payload_size (some msg) badage sound ≡ payload (whole msg)
  unfolding build_payload
  build_payload-fits msg s short h =
      ap (sized max_payload_size) (payload_text-whole msg s short (omega arith))
      ∙ rw (le→ltb-false (length (whole msg)) max_payload_size h) refl

  build_payload-longer :
      (msg : Bytes)
      → IsShort sound
      → length msg < 924
      → length (whole msg) < str_size
      → max_payload_size < length (whole msg)
      → build_payload max_payload_size (some msg) badage sound ≡ longer (length (whole msg))
  unfolding build_payload
  build_payload-longer msg s short room h =
      ap (sized max_payload_size) (payload_text-whole msg s short room)
      ∙ rw (lt→ltb max_payload_size (length (whole msg)) h) refl

  -- The message can be cut: what the payload has too much is no more than the message.
  fit_payload-cut :
      (msg : Bytes)
      → IsShort sound
      → length msg < 924
      → max_payload_size < length (whole msg)
      → length (whole msg) ≤ max_payload_size + length msg
      → let k = length msg - (length (whole msg) - max_payload_size) in
        (length (whole (take k msg)) ≤ max_payload_size)
        × (fit_payload msg badage sound ≡ built (whole (take k msg)))
  unfolding fit_payload
  fit_payload-cut msg s short long h =
      let k = length msg - (length (whole msg) - max_payload_size) in
      let fits : length (whole (take k msg)) ≤ max_payload_size =
        omega (arith, length-whole msg, length-whole (take k msg), length-escaped-take k msg) in
      (
        fits,
        ap (first_try msg badage sound) (build_payload-longer msg s short (omega arith) long)
            ∙ rw (le→ltb-false (length (whole msg) - max_payload_size) (length msg) (omega arith)) (
                ap second_try
                  (build_payload-fits (take k msg) s (omega (arith, length-take k msg)) fits)),
      )

  -- The part of the message that the packet has.
  unfoldable pub kept : Bytes → ℕ
  kept msg =
      if ltb max_payload_size (length (whole msg))
      then length msg - (length (whole msg) - max_payload_size)
      else length msg

  abbrev IsFit : Bytes → ℕ → Type 0
  IsFit msg k =
      (length (whole (take k msg)) ≤ max_payload_size)
      × (fit_payload msg badage sound ≡ built (whole (take k msg)))

  IsFit-whole :
      (msg : Bytes)
      → IsShort sound
      → length msg < 924
      → length (whole msg) ≤ max_payload_size
      → IsFit msg (length msg)
  unfolding fit_payload
  IsFit-whole msg s short h =
      rw (take-all (length msg) msg (omega arith))
        (h, ap (first_try msg badage sound) (build_payload-fits msg s short h))

  IsFit-kept :
      (msg : Bytes)
      → IsShort sound
      → length msg < 924
      → length (whole msg) ≤ max_payload_size + length msg
      → IsFit msg (kept msg)
  unfolding kept
  IsFit-kept msg s short h = elim (Bool-cases (ltb max_payload_size (length (whole msg)))) [
    | inl e ↦ rw e (fit_payload-cut msg s short (ltb→lt _ _ e) h)
    | inr e ↦ rw e (IsFit-whole msg s short (ltb-false→le _ _ e))
  ]

  abbrev pub cut_payload : Bytes → Bytes
  cut_payload msg = whole (take (kept msg) msg)

  -- A payload that is too long is cut by as many bytes of the message as it has too many, and then
  -- fits: both packets are built, with the payload of what is kept of the message behind the
  -- token, and this payload has at most 256 bytes, which is what the buffers have room for. The
  -- token has 32 bytes, the message and the sound have less than 924, and what the first payload
  -- has above 256 bytes is no more than the message has.
  pub build_output_packet-fits :
      (messageid expiry : ℕ) (tokenbinary msg : Bytes)
      → length tokenbinary ≡ token_size
      → IsShort sound
      → length msg < 924
      → length (whole msg) ≤ max_payload_size + length msg
      → (build_output_packet tokenbinary msg badage sound
          ≡ packed (
              0 ∷ be16 token_size
              ++ tokenbinary
              ++ (be16 (length (cut_payload msg)) ++ cut_payload msg)))
        × (build_output_packet_2 messageid expiry tokenbinary msg badage sound
            ≡ packed (
                1 ∷ le32 messageid
                ++ (be32 expiry ++ (be16 token_size ++ tokenbinary))
                ++ (be16 (length (cut_payload msg)) ++ cut_payload msg)))
        × (length (cut_payload msg) ≤ max_payload_size)
  unfolding build_output_packet build_output_packet_2
  build_output_packet-fits messageid expiry tokenbinary msg t s short h =
      let (fits, same) = IsFit-kept msg s short h in
      let token = take-all token_size tokenbinary (omega arith) in
      rw (le→ltb-false token_size (length tokenbinary) (omega arith)) (
        rw token (
          ap (with_payload (0 ∷ be16 token_size ++ tokenbinary)) same,
          ap
              (with_payload
                (1 ∷ le32 messageid ++ (be32 expiry ++ (be16 token_size ++ tokenbinary))))
              same,
          fits,
        ))
