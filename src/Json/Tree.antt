-- ===== src/Json/Tree.antt =====
-- Values as trees, for an instance of the interface.
use push_server.Base.{
  ℕ, List, [], ◌∷◌, ◌++◌, Option, none, some, Bytes, ◌≡◌, refl, ap, Bool-cases, inl, inr,
  if◌then◌else◌,
}
use push_server.Json.{eq_nocase, or_else}

mutual
  pub data Value : Type 0 where
    number : ℕ → Value
    string : Bytes → Value
    array : Items → Value
    object : Fields → Value

  pub data Items : Type 0 where
    nil : Items
    cons : Value → Items → Items

  pub data Fields : Type 0 where
    end : Fields
    field : Bytes → Value → Fields → Fields

-- A new item is put behind the others.
abbrev pub snoc : Items → Value → Items
snoc nil v = cons v nil
snoc (cons w ws) v = cons w (snoc ws v)

abbrev pub add : Fields → Bytes → Value → Fields
add end n v = field n v end
add (field k w fs) n v = field k w (add fs n v)

abbrev pub item : Bytes → Fields → Option Value
item k end = none
item k (field n v fs) = if eq_nocase n k then some v else item k fs

abbrev pub item_of : Value → Bytes → Option Value
item_of (object fs) k = item k fs
item_of _ k = none

abbrev pub items : Items → List Value
items nil = []
items (cons v vs) = v ∷ items vs

abbrev pub values : Fields → List Value
values end = []
values (field n v fs) = v ∷ values fs

abbrev pub children_of : Value → List Value
children_of (array xs) = items xs
children_of (object fs) = values fs
children_of _ = []

abbrev pub string_of : Value → Option Bytes
string_of (string s) = some s
string_of _ = none

abbrev pub int_of : Value → ℕ
int_of (number n) = n
int_of _ = 0

pub item-add :
    (fs : Fields) (n : Bytes) (v : Value) (k : Bytes)
    → item k (add fs n v) ≡ or_else (item k fs) (if eq_nocase n k then some v else none)
item-add end n v k = refl
item-add (field m w fs) n v k = elim (Bool-cases (eq_nocase m k)) [
  | inl e ↦ rw e refl
  | inr e ↦ rw e (item-add fs n v k)
]

pub items-snoc : (xs : Items) (v : Value) → items (snoc xs v) ≡ items xs ++ v ∷ []
items-snoc nil v = refl
items-snoc (cons w ws) v = ap (λ (l : List Value). w ∷ l) (items-snoc ws v)
