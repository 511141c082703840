-- ===== src/ParseCommand/Transfer/Exact.antt =====
-- What the sending loops of server/parse_command.c put on the wire.
use push_server.Base.{
  ℕ, ◌+◌, ◌-◌, ◌*◌, ◌≤◌, ◌<◌, min, List, [], ◌∷◌, ◌++◌, some, Bytes, true, false, Bool-cases, inl,
  inr, length, take, drop, take-all, drop-drop, take-append-drop, length-drop, ltb, ◌==◌, ==_iff,
  ◌≡◌, refl, ◌∙◌, ap, arith,
}
use push_server.ParseCommand.Header.{maxbuf}
use push_server.ParseCommand.Transfer.{
  Sent, sent, failed, accepted, server_send, client_send, AllProgress,
}

-- A call takes at least one byte and no more than is left.
accepted_bounds : (k left : ℕ) → 0 < k → 0 < left → (0 < accepted k left) × (accepted k left ≤ left)
accepted_bounds k left h l = (omega arith, omega arith)

-- The last piece.
piece-last :
    (buf : Bytes) (left : ℕ)
    → left ≤ length buf
    → take left (drop (length buf - left) buf) ≡ drop (length buf - left) buf
piece-last buf left h =
    take-all left (drop (length buf - left) buf)
      (omega (arith, length-drop (length buf - left) buf))

-- A piece that is not the last, and what is behind it.
piece-append :
    (buf : Bytes) (left a : ℕ)
    → left ≤ length buf
    → a ≤ left
    → take a (drop (length buf - left) buf) ++ drop (length buf - (left - a)) buf
      ≡ drop (length buf - left) buf
piece-append buf left a h k =
    let e : length buf - (left - a) ≡ (length buf - left) + a = omega arith in
    rw e (
      rw (← drop-drop (length buf - left) a buf)
        (take-append-drop a (drop (length buf - left) buf)))

ltb-false : (a b : ℕ) → b ≤ a → ltb a b ≡ false
ltb-false a b h = ground arith

not-zero : (a : ℕ) → 0 < a → (a == 0) ≡ false
not-zero a h = ground arith

all-accepted :
    (k left : ℕ)
    → accepted k left ≤ left
    → (left - accepted k left == 0) ≡ true
    → accepted k left ≡ left
all-accepted k left h e = let z : left - accepted k left ≡ 0 = (==_iff _ 0).0 e in omega arith

some-accepted : (k left : ℕ) → (left - accepted k left == 0) ≡ false → 0 < left - accepted k left
some-accepted k left e = ground arith

server_send-drop :
    (buf : Bytes) (os : List Sent) (left : ℕ)
    → AllProgress os
    → 0 < left
    → left ≤ length buf
    → left ≤ length os
    → server_send buf os left ≡ some (drop (length buf - left) buf)
unfolding server_send
server_send-drop buf [] left p z h l = absurd (omega arith)
server_send-drop buf (failed ∷ os) left p z h l = absurd p
server_send-drop buf (sent k ∷ os) left p z h l =
    let (lo, hi) = accepted_bounds k left p.0 z in
    elim (Bool-cases (left - accepted k left == 0)) [
      | inl done ↦
          rw (ltb-false (length buf) left h)
            (rw done (rw (all-accepted k left hi done) (ap some (piece-last buf left h))))
      | inr more ↦ rw (ltb-false (length buf) left h) (
          rw more (
            rw
              (server_send-drop buf os (left - accepted k left) p.1 (some-accepted k left more)
                (omega arith) (omega arith))
              (ap some (piece-append buf left (accepted k left) h hi))))
    ]

-- The loop of `createServerMessage` sends the buffer, each byte once and in order, however `send`
-- splits it: if every call takes at least one byte, it ends after at most as many calls as bytes.
pub server_send-exact :
    (buf : Bytes) (os : List Sent)
    → AllProgress os
    → 0 < length buf
    → length buf ≤ length os
    → server_send buf os (length buf) ≡ some buf
server_send-exact buf os p z l =
    server_send-drop buf os (length buf) p z (omega arith) l
    ∙ ap (λ n. some (drop n buf)) {x = length buf - length buf} {y = 0} (omega arith)

-- The loop of `createClientMessage` is right where one call takes the whole buffer.
client_send-one :
    (buf : Bytes) (k : ℕ) (os : List Sent)
    → length buf ≤ maxbuf
    → length buf ≤ k
    → client_send buf (sent k ∷ os) (length buf) ≡ some buf
unfolding client_send
client_send-one buf k os m h =
    let e : accepted k (length buf) ≡ length buf = omega arith in
    rw (ltb-false (length buf) (min (length buf) maxbuf) (omega arith)) (
      rw e (
        rw ((==_iff (length buf - length buf) 0).1 (omega arith))
          (ap some (take-all (length buf) buf (omega arith)))))

-- Where the message is longer than one call may take, the second call sends the front of the
-- buffer again, although `send` took all that it was given: the bytes behind the first 4096 are
-- never sent.
pub client_send-repeats :
    (buf : Bytes) (k l : ℕ) (os : List Sent)
    → maxbuf < length buf
    → length buf ≤ 2 * maxbuf
    → maxbuf ≤ k
    → maxbuf ≤ l
    → client_send buf (sent k ∷ sent l ∷ os) (length buf)
      ≡ some (take maxbuf buf ++ take (length buf - maxbuf) buf)
unfolding client_send
client_send-repeats buf k l os lo hi hk hl =
    let e : accepted k (length buf) ≡ maxbuf = omega arith in
    let f : accepted l (length buf - maxbuf) ≡ length buf - maxbuf = omega arith in
    rw (ltb-false (length buf) (min (length buf) maxbuf) (omega arith)) (
      rw e (
        rw (not-zero (length buf - maxbuf) (omega arith)) (
          rw (ltb-false (length buf) (min (length buf - maxbuf) maxbuf) (omega arith)) (
            rw f (
              rw ((==_iff (length buf - maxbuf - (length buf - maxbuf)) 0).1 (omega arith))
                refl)))))
