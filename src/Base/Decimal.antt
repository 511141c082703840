-- ===== src/Base/Decimal.antt =====
-- `%d` of `printf` for a number that is not negative, and `atoi` of its digits.
pub mod Digits
use Prim.Native.Nat.{ℕ, zero, suc, ◌+◌, ◌-◌, ◌*◌, ◌/◌, ◌%◌, ◌<◌}
use mathlib.Core.Path.{◌≡◌, refl, ap, sym, ◌∙◌}
use mathlib.Core.Logic.{inl, inr}
use mathlib.Core.List.{[], ◌∷◌, ◌++◌, append_assoc, append-nil}
use native.Mathlib.Omega.{arith}
use push_server.Base.Tests.{ltb, if◌then◌else◌, Bool-cases}
use push_server.Base.Octets.{Bytes}

-- The fuel bounds the number of digits: a number has no more digits than its value plus one.
digits : ℕ → ℕ → Bytes
digits zero n = []
digits (suc f) n =
    let more = digits f (n / 10) ++ (48 + n % 10) ∷ [] in if ltb n 10 then (48 + n) ∷ [] else more

unfoldable pub dec : ℕ → Bytes
unfolding digits
dec n = digits (suc n) n

-- The value of a run of digits, after those that came before.
abbrev atoi_from : ℕ → Bytes → ℕ
atoi_from acc [] = acc
atoi_from acc (c ∷ cs) =
    if ltb c 48 then acc else if ltb 57 c then acc else atoi_from (acc * 10 + (c - 48)) cs

-- `atoi`, for text with no leading blanks and no sign.
unfoldable pub atoi : Bytes → ℕ
atoi = atoi_from 0

digits-atoi : (f n : ℕ) (rest : Bytes) → n < f → atoi_from 0 (digits f n ++ rest) ≡ atoi_from n rest
unfolding digits
digits-atoi zero n rest h = elim h [ ]
digits-atoi (suc f) n rest h = elim (Bool-cases (ltb n 10)) [
  | inl one ↦ rw one (ground arith)
  | inr more ↦ rw more (
      rw append_assoc (digits-atoi f (n / 10) ((48 + n % 10) ∷ rest) (ground arith) ∙ ground arith))
]

-- The number that `%d` prints is the one that `atoi` reads.
pub atoi-dec : (n : ℕ) → atoi (dec n) ≡ n
unfolding atoi dec
atoi-dec n =
    ap (atoi_from 0) (sym (append-nil (digits (suc n) n))) ∙ digits-atoi (suc n) n [] (omega arith)

pub dec-injective : (m n : ℕ) → dec m ≡ dec n → m ≡ n
dec-injective m n e = sym (atoi-dec m) ∙ ap atoi e ∙ atoi-dec n

-- The last byte that is printed is a digit.
pub dec-snoc : (n : ℕ) → (xs : Bytes) × (c : ℕ) × (dec n ≡ xs ++ c ∷ []) × (c < 58)
unfolding dec digits
dec-snoc n = elim (Bool-cases (ltb n 10)) [
  | inl one ↦ ([], 48 + n, rw one refl, ground arith)
  | inr more ↦ (digits n (n / 10), 48 + n % 10, rw more refl, omega arith)
]
