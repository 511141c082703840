-- ===== src/Apns/Payload.antt =====
-- `json_escape` of server/ippush.c: what is escaped can be read back as a string of JSON.
use push_server.Base.{
  ℕ, ◌+◌, ◌<◌, true, false, ◌||◌, Bool-cases, inl, inr, [], ◌∷◌, ◌++◌, Option, none, some, Bytes,
  length, ltb, lt→ltb, ◌==◌, ==_iff, if◌then◌else◌, ◌≡◌, refl, sym, ap, ◌∙◌, arith,
}
use push_server.Apns.{is_escaped, escaped, escape_size, json_escape}

-- The byte that a backslash and the next byte stand for, in JSON without `\u`.
abbrev pub escape_char : ℕ → Option ℕ
escape_char d =
    if d == 34 || (d == 92 || d == 47)
    then some d
    else if d == 110
    then some 10
    else if d == 116
    then some 9
    else if d == 114
    then some 13
    else if d == 98
    then some 8
    else if d == 102
    then some 12
    else none

abbrev pub in_front : Option ℕ → Option (Bytes × Bytes) → Option (Bytes × Bytes)
in_front none r = none
in_front (some c) none = none
in_front (some c) (some (cs, rest)) = some (c ∷ cs, rest)

-- A reader of the strings of JSON, behind the first quote: the text up to the quote that ends it,
-- and what follows. An escape that JSON does not have, a control byte and the end of the input
-- are refused.
unfoldable pub read_string : Bytes → Option (Bytes × Bytes)
read_string [] = none
read_string (c ∷ []) = if c == 34 then some ([], []) else none
read_string (c ∷ d ∷ cs) =
    let plain = read_string (d ∷ cs) in
    let rest = read_string cs in
    if c == 34
    then some ([], d ∷ cs)
    else if c == 92
    then in_front (escape_char d) rest
    else if ltb c 32
    then none
    else in_front (some c) plain

-- No control byte but the end of a line.
abbrev pub IsText : Bytes → Type 0
IsText [] = Unit
IsText (c ∷ cs) = ((c == 10 || ltb 31 c) ≡ true) × IsText cs

escape_char-is_escaped : (c : ℕ) → is_escaped c ≡ true → escape_char c ≡ some c
escape_char-is_escaped c h = ground arith

read_string-quote : (rest : Bytes) → read_string (34 ∷ rest) ≡ some ([], rest)
unfolding read_string
read_string-quote [] = refl
read_string-quote (d ∷ rest) = refl

-- A byte that stands for itself.
read_string-plain :
    (c : ℕ) (cs : Bytes)
    → (c == 10) ≡ false
    → is_escaped c ≡ false
    → (c == 10 || ltb 31 c) ≡ true
    → read_string (c ∷ cs) ≡ in_front (some c) (read_string cs)
unfolding read_string
read_string-plain c [] n e h = let q : (c == 34) ≡ false = ground arith in rw q refl
read_string-plain c (d ∷ cs) n e h =
    let q : (c == 34) ≡ false = ground arith in
    let b : (c == 92) ≡ false = ground arith in
    let l : ltb c 32 ≡ false = ground arith in rw q (rw b (rw l refl))

read_string-escaped :
    (cs rest : Bytes) → IsText cs → read_string (escaped cs ++ 34 ∷ rest) ≡ some (cs, rest)
unfolding escaped read_string
read_string-escaped [] rest h = read_string-quote rest
read_string-escaped (c ∷ cs) rest (h, hs) = elim (Bool-cases (c == 10)) [
  | inl e ↦ rw e (
      ap (in_front (some 10)) (read_string-escaped cs rest hs)
      ∙ ap (λ n. some (n ∷ cs, rest)) (sym ((==_iff c 10).0 e)))
  | inr e ↦ rw e (elim (Bool-cases (is_escaped c)) [
    | inl f ↦ rw f (
        ap (λ o. in_front o (read_string (escaped cs ++ 34 ∷ rest))) (escape_char-is_escaped c f)
        ∙ ap (in_front (some c)) (read_string-escaped cs rest hs))
    | inr f ↦ rw f (
        read_string-plain c (escaped cs ++ 34 ∷ rest) e f h
        ∙ ap (in_front (some c)) (read_string-escaped cs rest hs))
  ])
]

-- A text of less than 924 bytes, with no control byte but the end of a line, is escaped, and a
-- reader of JSON that finds the result in front of a quote reads the text and ends at that quote.
pub read_string-json_escape :
    (cs rest : Bytes)
    → IsText cs
    → length cs < 924
    → (str : Bytes) × (json_escape cs ≡ some str)
      × (read_string (str ++ 34 ∷ rest) ≡ some (cs, rest))
unfolding json_escape
read_string-json_escape cs rest h short = (
  escaped cs,
  rw (lt→ltb (length cs + 100) escape_size (omega arith)) refl,
  read_string-escaped cs rest h,
)
