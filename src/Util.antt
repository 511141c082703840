-- ===== src/Util.antt =====
-- server/util.c: the parts that compute.
pub mod Path
pub mod Split
use push_server.Base.{
  ℕ, zero, suc, ◌+◌, false, Bytes, [], ◌∷◌, ◌++◌, length, length-append, byte_at, drop, ◌==◌,
  if◌then◌else◌, ◌≡◌, ◌≢◌, refl, ap, ◌∙◌, arith,
}

-- The search of `getFileName` from index `i` down to 1, for a slash. The second search, for a
-- backslash, starts where the first one ended, at 0, and looks at nothing.
file_name_from : ℕ → Bytes → Bytes
file_name_from zero path = path
file_name_from (suc i) path =
    let above = file_name_from i path in
    if byte_at path (suc i) == b'/' then drop (suc (suc i)) path else above

unfoldable pub get_file_name : Bytes → Bytes
unfolding file_name_from
get_file_name path = file_name_from (length path) path

-- No byte is a slash.
abbrev pub NoSlash : Bytes → Type 0
NoSlash [] = Unit
NoSlash (c ∷ cs) = (c ≢ b'/') × NoSlash cs

byte_at-NoSlash : (xs : Bytes) (i : ℕ) → NoSlash xs → byte_at xs i ≢ b'/'
byte_at-NoSlash [] i h = omega arith
byte_at-NoSlash (x ∷ xs) zero h = h.0
byte_at-NoSlash (x ∷ xs) (suc i) h = byte_at-NoSlash xs i h.1

byte_at-append : (xs ys : Bytes) (i : ℕ) → byte_at (xs ++ ys) (length xs + i) ≡ byte_at ys i
byte_at-append [] ys i = ap (byte_at ys) (omega arith)
byte_at-append (x ∷ xs) ys i =
    ap (byte_at (x ∷ xs ++ ys)) {x = suc (length xs) + i} {y = suc (length xs + i)} (omega arith)
    ∙ byte_at-append xs ys i

drop-append_add : (xs ys : Bytes) (i : ℕ) → drop (length xs + i) (xs ++ ys) ≡ drop i ys
drop-append_add [] ys i = ap (λ n. drop n ys) (omega arith)
drop-append_add (x ∷ xs) ys i =
    ap (λ n. drop n (x ∷ xs ++ ys)) {x = suc (length xs) + i} {y = suc (length xs + i)}
      (omega arith)
    ∙ drop-append_add xs ys i

byte_at-other : (name : Bytes) (i : ℕ) → NoSlash name → (byte_at name i == b'/') ≡ false
byte_at-other name i s = ground (arith, byte_at-NoSlash name i s)

module _ (c : ℕ) (dir name : Bytes) (s : NoSlash name) where
  abbrev path : Bytes
  path = c ∷ dir ++ b'/' ∷ name

  path-byte : (j k : ℕ) → j ≡ length dir + k → byte_at path (suc j) ≡ byte_at (b'/' ∷ name) k
  path-byte j k e =
      ap (byte_at path) {x = suc j} {y = length (c ∷ dir) + k} (omega arith)
      ∙ byte_at-append (c ∷ dir) (b'/' ∷ name) k

  path-rest : (j : ℕ) → j ≡ length dir + 0 → drop (suc (suc j)) path ≡ name
  path-rest j e =
      ap (λ n. drop n path) {x = suc (suc j)} {y = length (c ∷ dir) + 1} (omega arith)
      ∙ drop-append_add (c ∷ dir) (b'/' ∷ name) 1

  -- The search passes the name and stops at the slash in front of it.
  file_name_from-slash : (k j : ℕ) → j ≡ length dir + k → file_name_from (suc j) path ≡ name
  unfolding file_name_from
  file_name_from-slash zero j e = rw (path-byte j 0 e) (path-rest j e)
  file_name_from-slash (suc k) zero e = absurd (omega arith)
  file_name_from-slash (suc k) (suc j) e =
      rw (path-byte (suc j) (suc k) e)
        (rw (byte_at-other name k s) (file_name_from-slash k j (omega arith)))

-- The name behind the last slash is what `getFileName` returns, if that slash is not the first
-- character of the path.
pub get_file_name-slash :
    (c : ℕ) (dir name : Bytes) → NoSlash name → get_file_name (c ∷ dir ++ b'/' ∷ name) ≡ name
unfolding get_file_name
get_file_name-slash c dir name s =
    file_name_from-slash c dir name s (suc (length name)) (length (dir ++ b'/' ∷ name))
      (length-append dir (b'/' ∷ name))

file_name_from-root :
    (i : ℕ) (name : Bytes) → NoSlash name → file_name_from i (b'/' ∷ name) ≡ b'/' ∷ name
unfolding file_name_from
file_name_from-root zero name s = refl
file_name_from-root (suc i) name s = rw (byte_at-other name i s) (file_name_from-root i name s)

-- A path whose only slash is its first character comes back whole.
pub get_file_name-root : (name : Bytes) → NoSlash name → get_file_name (b'/' ∷ name) ≡ b'/' ∷ name
unfolding get_file_name
get_file_name-root name s = file_name_from-root (suc (length name)) name s
