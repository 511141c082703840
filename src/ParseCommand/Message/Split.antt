-- ===== src/ParseCommand/Message/Split.antt =====
-- A text message that `parseClientMessage` does not find whole in its first buffer.
use push_server.Base.{
  ℕ, ◌+◌, ◌-◌, ◌≤◌, ◌<◌, min, true, false, List, [], ◌∷◌, ◌++◌, Bytes, length, take, drop, ltb, leb,
  ◌==◌, ◌&&◌, take-all, read16, ◌≡◌, refl, arith,
}
use push_server.ParseCommand.Header.{header_size, maxbuf}
use push_server.ParseCommand.Message.{refused, exceeds, receive, read_fields, parse_client_text}

-- The bytes of all pieces.
abbrev pub total_length : List Bytes → ℕ
total_length [] = 0
total_length (p ∷ ps) = length p + total_length ps

abbrev pub AllArrive : List Bytes → Type 0
AllArrive [] = Unit
AllArrive (p ∷ ps) = (0 < length p) × (length p ≤ maxbuf) × AllArrive ps

not-zero : (a : ℕ) → 0 < a → (a == 0) ≡ false
not-zero a h = ground arith

-- Not all is there.
missing :
    (bufs : Bytes) (total : ℕ)
    → header_size + length bufs < total
    → (leb header_size total && leb (total - header_size) (length bufs)) ≡ false
missing bufs total h = ground arith

both : (a b c : ℕ) → a ≤ b → b - a ≤ c → (leb a b && leb (b - a) c) ≡ true
both a b c h k = ground arith

-- A piece that is not longer than what is asked for is taken whole.
piece-whole :
    (total recvlens : ℕ) (p : Bytes)
    → length p ≤ maxbuf
    → recvlens + length p ≤ total
    → take (min maxbuf (total - recvlens)) p ≡ p
piece-whole total recvlens p h k = take-all (min maxbuf (total - recvlens)) p (omega arith)

exceeds-true : (total n : ℕ) → total < 2147483648 → n < total → exceeds total n ≡ true
exceeds-true total n h k = ground arith

ltb-false : (a b : ℕ) → b ≤ a → ltb a b ≡ false
ltb-false a b h = ground arith

receive-refuses :
    (len total recvlens : ℕ) (text : Bytes) (pieces : List Bytes)
    → AllArrive pieces
    → total < 2147483648
    → total_length pieces ≤ len
    → recvlens + total_length pieces < total
    → receive len total recvlens text pieces ≡ refused
unfolding receive
receive-refuses len total recvlens text [] a s f h =
    rw (exceeds-true total recvlens s (omega arith)) refl
receive-refuses len total recvlens text (p ∷ ps) a s f h =
    rw (exceeds-true total recvlens s (omega arith)) (
      rw (piece-whole total recvlens p a.1 (omega arith)) (
        rw (not-zero (length p) a.0) (
          rw (ltb-false len (length p) (omega arith)) (
            receive-refuses len total (recvlens + length p) (p ++ drop (length p) text) ps a.2 s
              (omega arith) (omega arith)))))

-- A text message that arrives in more than one piece is refused, though all of it arrives: the
-- first buffer has all up to the text, pieces follow that bring exactly the bytes that are missing,
-- none of them empty or longer than 4096, and `recv` then has nothing to give; but the size that
-- the loop counts up to includes the header. The message ends with its text and is not longer than
-- the receive buffer, 4096 bytes.
pub parse_client_text-refused :
    (bufs : Bytes) (total : ℕ) (pieces : List Bytes)
    → (let f = read_fields (read16 (drop 2 bufs)) (drop 4 bufs) in
        (6 + f.used ≤ length bufs) × (header_size + (6 + f.used) + read16 f.rest ≡ total))
    → AllArrive pieces
    → 0 < total_length pieces
    → header_size + length bufs + total_length pieces ≡ total
    → total ≤ maxbuf
    → parse_client_text bufs total pieces ≡ refused
unfolding parse_client_text
parse_client_text-refused bufs total pieces (u, end) a z e small =
    let f = read_fields (read16 (drop 2 bufs)) (drop 4 bufs) in
    let len = read16 f.rest in
    let first = take (length bufs - (6 + f.used)) (drop 2 f.rest) in
    rw (ltb-false maxbuf (header_size + (6 + f.used) + len) (omega arith)) (
      rw (missing bufs total (omega arith)) (
        rw (both (6 + f.used) (length bufs) len u (omega arith)) (
          rw
            (receive-refuses len total (length bufs) first pieces a (omega arith) (omega arith)
              (omega arith))
            refl)))
