-- ===== src/Json.antt =====
-- What the account protocol relies on of cJSON, a library that is not part of the repository: the
-- calls that build, print, parse and read a value. A value that has items is an object or an array;
-- cJSON parses one and does not look at what follows it.
use push_server.Base.{
  ℕ, Bool, true, false, ◌&&◌, List, [], ◌∷◌, ◌++◌, Option, none, some, Bytes, ◌==◌, ◌≡◌,
  if◌then◌else◌,
}
use push_server.MessageStorage.Records.{to_lower}
pub mod Tree
pub mod Code
pub mod Instance

-- Names are compared whatever their case.
abbrev pub eq_nocase : Bytes → Bytes → Bool
eq_nocase [] [] = true
eq_nocase [] (c ∷ cs) = false
eq_nocase (b ∷ bs) [] = false
eq_nocase (b ∷ bs) (c ∷ cs) = to_lower b == to_lower c && eq_nocase bs cs

abbrev pub or_else {ℓ} : {A : Type ℓ} → Option A → Option A → Option A
or_else none b = b
or_else (some a) b = some a

-- `valuestring` is none for NULL. `children` are what GetArraySize and GetArrayItem show.
pub record JsonLibrary : Type 1 where
  pub Json : Type 0
  pub Object : Type 0
  pub Array : Type 0
  pub of_object : Object → Json
  pub of_array : Array → Json
  pub create_object : Object
  pub add_item_to_object : Object → Bytes → Json → Object
  pub create_array : Array
  pub add_item_to_array : Array → Json → Array
  pub create_string : Bytes → Json
  pub create_number : ℕ → Json
  pub print : Json → Bytes
  pub parse : Bytes → Option Json
  pub get_object_item : Json → Bytes → Option Json
  pub valuestring : Json → Option Bytes
  pub valueint : Json → ℕ
  pub children : Json → List Json
  pub parse-print_object :
      (o : Object) (rest : Bytes) → parse (print (of_object o) ++ rest) ≡ some (of_object o)
  pub parse-print_array :
      (a : Array) (rest : Bytes) → parse (print (of_array a) ++ rest) ≡ some (of_array a)
  pub get_object_item-create_object :
      (k : Bytes) → get_object_item (of_object create_object) k ≡ none
  pub get_object_item-add :
      (o : Object) (n : Bytes) (v : Json) (k : Bytes)
      → get_object_item (of_object (add_item_to_object o n v)) k
        ≡ or_else (get_object_item (of_object o) k) (if eq_nocase n k then some v else none)
  pub get_object_item-array : (a : Array) (k : Bytes) → get_object_item (of_array a) k ≡ none
  pub valuestring-create_string : (s : Bytes) → valuestring (create_string s) ≡ some s
  pub valueint-create_number : (n : ℕ) → valueint (create_number n) ≡ n
  pub children-create_array : children (of_array create_array) ≡ []
  pub children-add :
      (a : Array) (v : Json)
      → children (of_array (add_item_to_array a v)) ≡ children (of_array a) ++ v ∷ []
