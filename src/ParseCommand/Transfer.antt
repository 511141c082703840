-- ===== src/ParseCommand/Transfer.antt =====
-- The loops of server/parse_command.c that hand a buffer to `send` in pieces. The outcomes of the
-- calls of `send` are a list; a call takes at most the bytes that it is given. What is left to
-- send, `length - sumlen`, is a number here: a failed call returns -1, and so adds one to it.
-- `none` is a loop that does not come to its end: it waits for another call, or it reads
-- outside of the buffer, which happens when the failures outnumber the bytes sent.
use push_server.Base.{
  ℕ, zero, suc, ◌+◌, ◌-◌, ◌≤◌, ◌<◌, min, List, [], ◌∷◌, ◌++◌, Option, none, some, Bytes, length,
  take, drop, ltb, ◌==◌, if◌then◌else◌, ◌≡◌, refl, arith,
}
pub mod Exact
use push_server.ParseCommand.Header.{maxbuf}

pub data Sent : Type 0 where
  sent : ℕ → Sent
  failed : Sent

abbrev pub prepend : Bytes → Option Bytes → Option Bytes
prepend xs none = none
prepend xs (some ys) = some (xs ++ ys)

-- The bytes that one call takes of what is left.
abbrev pub accepted : ℕ → ℕ → ℕ
accepted k left = min k (min left maxbuf)

-- The loop at the end of `createServerMessage`: each call starts where the last one stopped. The
-- result is what went over the wire.
unfoldable pub server_send : Bytes → List Sent → ℕ → Option Bytes
server_send buf [] left = none
server_send buf (failed ∷ os) left = server_send buf os (left + 1)
server_send buf (sent k ∷ os) left =
    let chunk = take (accepted k left) (drop (length buf - left) buf) in
    let rest = server_send buf os (left - accepted k left) in
    if ltb (length buf) left
    then none
    else if left - accepted k left == 0
    then some chunk
    else prepend chunk rest

-- The loop at the end of `createClientMessage`: each call starts at the front of the buffer.
unfoldable pub client_send : Bytes → List Sent → ℕ → Option Bytes
client_send buf [] left = none
client_send buf (failed ∷ os) left = client_send buf os (left + 1)
client_send buf (sent k ∷ os) left =
    let chunk = take (accepted k left) buf in
    let rest = client_send buf os (left - accepted k left) in
    if ltb (length buf) (min left maxbuf)
    then none
    else if left - accepted k left == 0
    then some chunk
    else prepend chunk rest

-- Every call sends something.
abbrev pub AllProgress : List Sent → Type 0
AllProgress [] = Unit
AllProgress (sent k ∷ os) = (0 < k) × AllProgress os
AllProgress (failed ∷ os) = ⊥
