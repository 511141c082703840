-- ===== src/Base/Decimal/Digits.antt =====
-- The bytes that `%d` prints: how many there are, and that they are digits.
use Prim.Native.Nat.{ℕ, zero, suc, ◌+◌, ◌/◌, ◌%◌, ◌^◌, ◌<◌, ◌≤◌}
use mathlib.Core.Logic.{inl, inr}
use mathlib.Core.List.{[], ◌∷◌, ◌++◌}
use native.Mathlib.Omega.{arith}
use push_server.Base.Decimal.{digits, dec}
use push_server.Base.Lists.{length, length-append}
use push_server.Base.Tests.{ltb, lt→ltb, Bool-cases}
use push_server.Base.Octets.{Bytes}

abbrev pub AreDigits : Bytes → Type 0
AreDigits [] = Unit
AreDigits (c ∷ cs) = (47 < c) × (c < 58) × AreDigits cs

AreDigits-snoc : (xs : Bytes) (c : ℕ) → AreDigits xs → 47 < c → c < 58 → AreDigits (xs ++ c ∷ [])
AreDigits-snoc [] c h a b = (a, b, tt)
AreDigits-snoc (x ∷ xs) c (h0, h1, hs) a b = (h0, h1, AreDigits-snoc xs c hs a b)

digits-AreDigits : (f n : ℕ) → AreDigits (digits f n)
unfolding digits
digits-AreDigits zero n = tt
digits-AreDigits (suc f) n = elim (Bool-cases (ltb n 10)) [
  | inl one ↦ rw one (omega arith, ground arith, tt)
  | inr more ↦ rw more (
      AreDigits-snoc (digits f (n / 10)) (48 + n % 10) (digits-AreDigits f (n / 10)) (omega arith)
        (omega arith))
]

pub dec-AreDigits : (n : ℕ) → AreDigits (dec n)
unfolding dec
dec-AreDigits n = digits-AreDigits (suc n) n

pub length-dec_positive : (n : ℕ) → 0 < length (dec n)
unfolding dec digits
length-dec_positive n = elim (Bool-cases (ltb n 10)) [
  | inl one ↦ rw one (omega arith)
  | inr more ↦ rw more (omega (arith, length-append (digits n (n / 10)) ((48 + n % 10) ∷ [])))
]

length-digits : (k f n : ℕ) → n < 10 ^ suc k → length (digits f n) ≤ suc k
unfolding digits
length-digits k zero n h = omega arith
length-digits zero (suc f) n h = rw (lt→ltb n 10 (omega arith)) (omega arith)
length-digits (suc k) (suc f) n h = elim (Bool-cases (ltb n 10)) [
  | inl one ↦ rw one (omega arith)
  | inr more ↦ rw more (
      omega (
        arith,
        length-append (digits f (n / 10)) ((48 + n % 10) ∷ []),
        length-digits k f (n / 10) (omega arith),
      ))
]

-- A number below a power of ten has at most as many digits as the power.
pub length-dec : (k n : ℕ) → n < 10 ^ suc k → length (dec n) ≤ suc k
unfolding dec
length-dec k n h = length-digits k (suc n) n h
