-- ===== src/Json/Code.antt =====
-- A text for each tree, and its reader: a code in which every part says how long it is.
use push_server.Base.{
  ℕ, zero, suc, ◌+◌, ◌≤◌, ◌<◌, [], ◌∷◌, ◌++◌, append_assoc, Option, none, some, Bytes, length,
  length-append, take, drop, take-append_length, drop-append_length, ◌≡◌, refl, ap, arith,
}
use push_server.Json.Tree.{
  Value, number, string, array, object, Items, nil, cons, Fields, end, field,
}

unfoldable mutual
  pub code : Value → Bytes
  code (number n) = 0 ∷ n ∷ []
  code (string s) = 1 ∷ length s ∷ s
  code (array xs) = 2 ∷ code_items xs
  code (object fs) = 3 ∷ code_fields fs

  pub code_items : Items → Bytes
  code_items nil = 0 ∷ []
  code_items (cons v vs) = 1 ∷ (code v ++ code_items vs)

  pub code_fields : Fields → Bytes
  code_fields end = 0 ∷ []
  code_fields (field k v fs) = 1 ∷ length k ∷ (k ++ (code v ++ code_fields fs))

abbrev pub Read : Type 0 → Type 0
Read A = Option (A × Bytes)

abbrev pub and_then : {A B : Type 0} → Read A → (A → Bytes → Read B) → Read B
and_then none k = none
and_then (some (a, rest)) k = k a rest

-- The fuel bounds the length of the text.
unfoldable mutual
  pub read_value : ℕ → Bytes → Read Value
  read_value zero bs = none
  read_value (suc f) [] = none
  read_value (suc f) (zero ∷ []) = none
  read_value (suc f) (zero ∷ n ∷ bs) = some (number n, bs)
  read_value (suc f) (suc zero ∷ []) = none
  read_value (suc f) (suc zero ∷ n ∷ bs) = some (string (take n bs), drop n bs)
  read_value (suc f) (suc (suc zero) ∷ bs) =
      and_then (read_items f bs) (λ xs rest. some (array xs, rest))
  read_value (suc f) (suc (suc (suc t)) ∷ bs) =
      and_then (read_fields f bs) (λ fs rest. some (object fs, rest))

  pub read_items : ℕ → Bytes → Read Items
  read_items zero bs = none
  read_items (suc f) [] = none
  read_items (suc f) (zero ∷ bs) = some (nil, bs)
  read_items (suc f) (suc t ∷ bs) =
      and_then (read_value f bs)
        (λ v rest. and_then (read_items f rest) (λ vs rest. some (cons v vs, rest)))

  pub read_fields : ℕ → Bytes → Read Fields
  read_fields zero bs = none
  read_fields (suc f) [] = none
  read_fields (suc f) (zero ∷ bs) = some (end, bs)
  read_fields (suc f) (suc t ∷ []) = none
  read_fields (suc f) (suc t ∷ n ∷ bs) =
      and_then (read_value f (drop n bs))
        (λ v rest. and_then (read_fields f rest) (λ fs rest. some (field (take n bs) v fs, rest)))

code_pos : (v : Value) → 0 < length (code v)
unfolding code
code_pos (number n) = omega arith
code_pos (string s) = omega arith
code_pos (array xs) = omega arith
code_pos (object fs) = omega arith

-- Whatever follows, a text is read back.
mutual
  unfolding code code_items code_fields read_value read_items read_fields

  pub read_value-code :
      (v : Value) (f : ℕ) (rest : Bytes)
      → length (code v) ≤ f
      → read_value f (code v ++ rest) ≡ some (v, rest)
  read_value-code v zero rest h = absurd (omega (arith, code_pos v))
  read_value-code (number n) (suc f) rest h = refl
  read_value-code (string s) (suc f) rest h =
      rw (take-append_length s rest, drop-append_length s rest) refl
  read_value-code (array xs) (suc f) rest h = rw (read_items-code xs f rest (omega arith)) refl
  read_value-code (object fs) (suc f) rest h = rw (read_fields-code fs f rest (omega arith)) refl

  read_items-code :
      (xs : Items) (f : ℕ) (rest : Bytes)
      → length (code_items xs) ≤ f
      → read_items f (code_items xs ++ rest) ≡ some (xs, rest)
  read_items-code nil zero rest h = absurd (omega arith)
  read_items-code (cons v vs) zero rest h = absurd (omega arith)
  read_items-code nil (suc f) rest h = refl
  read_items-code (cons v vs) (suc f) rest h =
      let l : length (code v) + length (code_items vs) ≤ f =
        omega (arith, length-append (code v) (code_items vs)) in
      rw
        (
          append_assoc (code v) (code_items vs) rest,
          read_value-code v f (code_items vs ++ rest) (omega arith),
          read_items-code vs f rest (omega arith),
        )
        refl

  read_fields-code :
      (fs : Fields) (f : ℕ) (rest : Bytes)
      → length (code_fields fs) ≤ f
      → read_fields f (code_fields fs ++ rest) ≡ some (fs, rest)
  read_fields-code end zero rest h = absurd (omega arith)
  read_fields-code (field k v fs) zero rest h = absurd (omega arith)
  read_fields-code end (suc f) rest h = refl
  read_fields-code (field k v fs) (suc f) rest h =
      let l : length (code v) + length (code_fields fs) ≤ f = omega (
        arith,
        length-append k (code v ++ code_fields fs),
        length-append (code v) (code_fields fs),
      ) in
      rw
        (
          append_assoc k (code v ++ code_fields fs) rest,
          append_assoc (code v) (code_fields fs) rest,
          take-append_length k (code v ++ (code_fields fs ++ rest)),
          drop-append_length k (code v ++ (code_fields fs ++ rest)),
          read_value-code v f (code_fields fs ++ rest) (omega arith),
          read_fields-code fs f rest (omega arith),
        )
        refl

value_of : Read Value → Option Value
value_of none = none
value_of (some (v, rest)) = some v

unfoldable pub read : Bytes → Option Value
unfolding value_of
read bs = value_of (read_value (length bs) bs)

pub read-code : (v : Value) (rest : Bytes) → read (code v ++ rest) ≡ some v
unfolding read value_of
read-code v rest =
    ap value_of (
      read_value-code v (length (code v ++ rest)) rest (omega (arith, length-append (code v) rest)))
