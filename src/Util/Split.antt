-- ===== src/Util/Split.antt =====
-- server/util.c: `split` and `splitcountx`, over `strtok`.
use push_server.Base.{
  ℕ, Bool, true, false, ◌||◌, Bytes, List, [], ◌∷◌, ◌++◌, length, ◌==◌, if◌then◌else◌, ◌≡◌, refl,
  sym, ap, ◌∙◌, append_assoc, append-nil,
}

abbrev pub is_one_of : Bytes → ℕ → Bool
is_one_of [] c = false
is_one_of (d ∷ ds) c = c == d || is_one_of ds c

-- A run of delimiters makes no token.
abbrev pub token : Bytes → List Bytes → List Bytes
token [] rest = rest
token (c ∷ cs) rest = (c ∷ cs) ∷ rest

-- The calls of `strtok` on one string; `cur` is what the token has so far.
unfoldable pub strtok_from : Bytes → Bytes → Bytes → List Bytes
strtok_from spl cur [] = token cur []
strtok_from spl cur (c ∷ cs) =
    let next = strtok_from spl [] cs in
    let more = strtok_from spl (cur ++ c ∷ []) cs in
    if is_one_of spl c then token cur next else more

-- `split` into an array that is given, and `splitcountx`.
unfoldable pub split : Bytes → Bytes → List Bytes
split str spl = strtok_from spl [] str

unfoldable pub splitcountx : Bytes → Bytes → ℕ
splitcountx str spl = length (split str spl)

-- No byte of the text is a delimiter.
abbrev pub HasNone : Bytes → Bytes → Type 0
HasNone spl [] = Unit
HasNone spl (c ∷ cs) = (is_one_of spl c ≡ false) × HasNone spl cs

-- Tokens have a byte and no delimiter.
abbrev pub AreTokens : Bytes → List Bytes → Type 0
AreTokens spl [] = Unit
AreTokens spl ([] ∷ ts) = ⊥
AreTokens spl ((c ∷ cs) ∷ ts) = HasNone spl (c ∷ cs) × AreTokens spl ts

-- Each token is followed by one delimiter.
abbrev pub joined : ℕ → List Bytes → Bytes
joined d [] = []
joined d (t ∷ ts) = t ++ d ∷ joined d ts

strtok_from-token :
    (spl cur t rest : Bytes) (d : ℕ)
    → HasNone spl t
    → is_one_of spl d ≡ true
    → strtok_from spl cur (t ++ d ∷ rest) ≡ token (cur ++ t) (strtok_from spl [] rest)
unfolding strtok_from
strtok_from-token spl cur [] rest d h s =
    rw s (ap (λ (l : Bytes). token l (strtok_from spl [] rest)) (sym (append-nil cur)))
strtok_from-token spl cur (c ∷ cs) rest d (h, hs) s = rw h (
    strtok_from-token spl (cur ++ c ∷ []) cs rest d hs s
    ∙ ap (λ (l : Bytes). token l (strtok_from spl [] rest)) (append_assoc cur (c ∷ []) cs))

-- Tokens that are joined by a delimiter are split into the same tokens.
pub split-joined :
    (spl : Bytes) (d : ℕ) (ts : List Bytes)
    → is_one_of spl d ≡ true
    → AreTokens spl ts
    → split (joined d ts) spl ≡ ts
unfolding split strtok_from
split-joined spl d [] s h = refl
split-joined spl d ([] ∷ ts) s h = absurd h
split-joined spl d ((c ∷ cs) ∷ ts) s (h, hs) =
    strtok_from-token spl [] (c ∷ cs) (joined d ts) d h s
    ∙ ap (λ (l : List Bytes). (c ∷ cs) ∷ l) (split-joined spl d ts s hs)

pub splitcountx-joined :
    (spl : Bytes) (d : ℕ) (ts : List Bytes)
    → is_one_of spl d ≡ true
    → AreTokens spl ts
    → splitcountx (joined d ts) spl ≡ length ts
unfolding splitcountx
splitcountx-joined spl d ts s h = ap length (split-joined spl d ts s h)
