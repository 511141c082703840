-- ===== src/Base/Octets.antt =====
-- Byte strings, and the byte orders that the program writes and reads.
use Prim.Native.Nat.{ℕ, zero, suc, ◌+◌, ◌*◌, ◌/◌, ◌%◌, ◌<◌}
use Prim.Native.String.{String}
use Prim.Native.Char.{code}
use mathlib.Core.Path.{◌≡◌, refl, ap}
use mathlib.Core.Logic.{◌≢◌, ◌↔◌}
use mathlib.Core.Bool.{Bool, true, false, ◌&&◌}
use mathlib.Core.List.{List, [], ◌∷◌, ◌++◌}
use native.Mathlib.Omega.{arith}
use push_server.Base.Tests.{◌==◌}

abbrev pub Bytes : Type 0
Bytes = List ℕ

-- The bytes of an ASCII literal.
abbrev pub text : String → Bytes
text String.[] = []
text (String.◌∷◌ c s) = code c ∷ text s

abbrev pub bytes_eq : Bytes → Bytes → Bool
bytes_eq [] [] = true
bytes_eq [] (y ∷ ys) = false
bytes_eq (x ∷ xs) [] = false
bytes_eq (x ∷ xs) (y ∷ ys) = x == y && bytes_eq xs ys

pub bytes_eq_refl : (xs : Bytes) → bytes_eq xs xs ≡ true
bytes_eq_refl [] = refl
bytes_eq_refl (x ∷ xs) = ground (arith, bytes_eq_refl xs)

pub bytes_eq_sound : (xs ys : Bytes) → bytes_eq xs ys ≡ true → xs ≡ ys
bytes_eq_sound [] [] h = refl
bytes_eq_sound [] (y ∷ ys) h = ground arith
bytes_eq_sound (x ∷ xs) [] h = ground arith
bytes_eq_sound (x ∷ xs) (y ∷ ys) h = ground (arith, bytes_eq_sound xs ys)

pub bytes_eq_iff : (xs ys : Bytes) → (bytes_eq xs ys ≡ true) ↔ (xs ≡ ys)
bytes_eq_iff xs ys = (bytes_eq_sound xs ys, λ e. ground (arith, e, bytes_eq_refl xs))

pub bytes_eq-false : (xs ys : Bytes) → xs ≢ ys → bytes_eq xs ys ≡ false
bytes_eq-false xs ys h = ground (arith, bytes_eq_sound xs ys)

-- strlen: a C string ends at its first zero byte.
abbrev pub cstr : Bytes → Bytes
cstr [] = []
cstr (zero ∷ xs) = []
cstr (suc c ∷ xs) = suc c ∷ cstr xs

-- No byte is zero, and each is below 256.
abbrev pub IsText : Bytes → Type 0
IsText [] = Unit
IsText (c ∷ cs) = (0 < c) × (c < 256) × IsText cs

pub cstr-text : (xs rest : Bytes) → IsText xs → cstr (xs ++ 0 ∷ rest) ≡ xs
cstr-text [] rest h = refl
cstr-text (zero ∷ xs) rest h = absurd (omega arith)
cstr-text (suc c ∷ xs) rest h = ap (λ (l : Bytes). suc c ∷ l) (cstr-text xs rest h.2)

-- Two bytes in network order, of the low 16 bits: a store of `htons(n)`.
abbrev pub be16 : ℕ → Bytes
be16 n = n / 256 % 256 ∷ n % 256 ∷ []

abbrev pub be32 : ℕ → Bytes
be32 n = n / 16777216 % 256 ∷ n / 65536 % 256 ∷ n / 256 % 256 ∷ n % 256 ∷ []

-- Four bytes in the order of the host, which is little endian.
abbrev pub le32 : ℕ → Bytes
le32 n = n % 256 ∷ n / 256 % 256 ∷ n / 65536 % 256 ∷ n / 16777216 % 256 ∷ []

-- A byte read past the end of a list is zero: the receive buffers are cleared before each read.
abbrev pub byte_at : Bytes → ℕ → ℕ
byte_at [] i = 0
byte_at (x ∷ xs) zero = x
byte_at (x ∷ xs) (suc i) = byte_at xs i

-- `ntohs` of the two bytes in front.
abbrev pub read16 : Bytes → ℕ
read16 xs = byte_at xs 0 * 256 + byte_at xs 1

abbrev pub read32_be : Bytes → ℕ
read32_be xs = byte_at xs 0 * 16777216 + byte_at xs 1 * 65536 + byte_at xs 2 * 256 + byte_at xs 3

abbrev pub read32_le : Bytes → ℕ
read32_le xs = byte_at xs 3 * 16777216 + byte_at xs 2 * 65536 + byte_at xs 1 * 256 + byte_at xs 0

pub read16-be16 : (n : ℕ) (rest : Bytes) → n < 65536 → read16 (be16 n ++ rest) ≡ n
read16-be16 n rest h = omega arith

pub read32_le-le32 : (n : ℕ) (rest : Bytes) → n < 4294967296 → read32_le (le32 n ++ rest) ≡ n
read32_le-le32 n rest h = omega arith

pub read32_be-be32 : (n : ℕ) (rest : Bytes) → n < 4294967296 → read32_be (be32 n ++ rest) ≡ n
read32_be-be32 n rest h = omega arith
