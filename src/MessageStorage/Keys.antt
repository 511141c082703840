-- ===== src/MessageStorage/Keys.antt =====
-- The keys that server/messagestorage.c builds with the formats of its Redis commands.
use push_server.Base.{
  ℕ, ◌<◌, Bytes, [], ◌∷◌, text, ◌++◌, ◌≡◌, ◌≢◌, refl, ap, arith, length, length-append, byte_at,
  drop, drop-append_length, append_assoc, sym, ◌∙◌,
}
use mathlib.Core.List.{append_cancel_left, append_cancel_right}
use push_server.Base.Decimal.{dec, dec-snoc, dec-injective}

-- "pushlist%d": the messages that wait for the push threads of a server.
unfoldable pub pushlist : ℕ → Bytes
pushlist serverid = text "pushlist" ++ dec serverid

-- "%s_noread", "%s_read": the messages of a device.
unfoldable pub noread : Bytes → Bytes
noread drivce_id = drivce_id ++ text "_noread"

unfoldable pub read : Bytes → Bytes
read drivce_id = drivce_id ++ text "_read"

-- "%s_content": where a device is connected.
unfoldable pub content : Bytes → Bytes
content drivce_id = drivce_id ++ text "_content"

unfoldable pub dely_pushlist_set : Bytes
dely_pushlist_set = text "dely_pushlist_set"

unfoldable pub userlist : Bytes
userlist = text "userlist"

unfoldable pub userlistonline : Bytes
userlistonline = text "userlistonline"

-- The byte that a string ends in.
unfoldable pub final : ℕ → Bytes → ℕ
final d [] = d
final d (c ∷ cs) = final c cs

pub final-append : (d : ℕ) (xs ys : Bytes) → final d (xs ++ ys) ≡ final (final d xs) ys
unfolding final
final-append d [] ys = refl
final-append d (x ∷ xs) ys = final-append x xs ys

final-pushlist : (s : ℕ) → final 0 (pushlist s) < 58
unfolding pushlist final
final-pushlist s = let (xs, c, e, h) = dec-snoc s in rw e (rw (final-append 116 xs (c ∷ [])) h)

pub final-noread : (d : Bytes) → final 0 (noread d) ≡ 100
unfolding noread final
final-noread d = final-append 0 d (text "_noread")

final-read : (d : Bytes) → final 0 (read d) ≡ 100
unfolding read final
final-read d = final-append 0 d (text "_read")

-- The queue of a server is no device's unread or read list.
pub pushlist-ne-noread : (s : ℕ) (d : Bytes) → pushlist s ≢ noread d
pushlist-ne-noread s d e = absurd (omega (arith, final-pushlist s, final-noread d, ap (final 0) e))

pub pushlist-ne-read : (s : ℕ) (d : Bytes) → pushlist s ≢ read d
pushlist-ne-read s d e = absurd (omega (arith, final-pushlist s, final-read d, ap (final 0) e))

pub pushlist-injective : (s t : ℕ) → pushlist s ≡ pushlist t → s ≡ t
unfolding pushlist
pushlist-injective s t e = dec-injective s t (append_cancel_left (text "pushlist") _ _ e)

pub noread-injective : (c d : Bytes) → noread c ≡ noread d → c ≡ d
unfolding noread
noread-injective c d = append_cancel_right c d (text "_noread")

pub content-injective : (c d : Bytes) → content c ≡ content d → c ≡ d
unfolding content
content-injective c d = append_cancel_right c d (text "_content")

pub noread-ne-read : (d : Bytes) → noread d ≢ read d
unfolding noread read
noread-ne-read d e =
    absurd
      (omega (arith, ap length e, length-append d (text "_noread"), length-append d (text "_read")))

pub content-ne-userlist : (d : Bytes) → content d ≢ userlist
unfolding content userlist
content-ne-userlist [] e = absurd (omega (arith, ap (λ (l : Bytes). byte_at l 0) e))
content-ne-userlist (c ∷ cs) e =
    absurd (omega (arith, ap length e, length-append (c ∷ cs) (text "_content")))

pub final-content : (d : Bytes) → final 0 (content d) ≡ 116
unfolding content final
final-content d = final-append 0 d (text "_content")

-- Where a device is connected is no queue.
pub pushlist-ne-content : (s : ℕ) (d : Bytes) → pushlist s ≢ content d
pushlist-ne-content s d e =
    absurd (omega (arith, final-pushlist s, final-content d, ap (final 0) e))

-- Ends of the same length of one list are the same.
same_end : (xs ys us vs : Bytes) → xs ++ us ≡ ys ++ vs → length us ≡ length vs → us ≡ vs
same_end xs ys us vs e h =
    let l : length xs ≡ length ys =
      omega (arith, ap length e, length-append xs us, length-append ys vs) in
    sym (drop-append_length xs us)
    ∙ ap (drop (length xs)) e
    ∙ ap (λ n. drop n (ys ++ vs)) l
    ∙ drop-append_length ys vs

-- No read list is the unread list of any device.
pub read-ne-noread : (c d : Bytes) → read c ≢ noread d
unfolding read noread
read-ne-noread c d e =
    let f : c ++ text "_read" ≡ (d ++ text "_n") ++ text "oread" =
      e ∙ sym (append_assoc d (text "_n") (text "oread")) in
    absurd (
      omega (
        arith,
        ap (λ (l : Bytes). byte_at l 0)
            (same_end c (d ++ text "_n") (text "_read") (text "oread") f refl),
      ))

-- Nor is it the unread list of a device.
pub noread-ne-content : (c d : Bytes) → noread c ≢ content d
noread-ne-content c d e = absurd (omega (arith, final-noread c, final-content d, ap (final 0) e))

-- Nor is it the list of all devices.
pub userlist-ne-noread : (d : Bytes) → userlist ≢ noread d
unfolding userlist final
userlist-ne-noread d e = absurd (omega (arith, final-noread d, ap (final 0) e))
