-- ===== src/Util/Path.antt =====
-- server/util.c: `createfullpath`, the path of a file that a client sends.
use push_server.Base.{
  ℕ, ◌||◌, Bytes, [], ◌∷◌, ◌++◌, length, byte_at, ◌==◌, if◌then◌else◌, ◌≡◌, refl, sym, ap, ◌∙◌,
  append_assoc,
}
use push_server.Util.{get_file_name, get_file_name-slash, NoSlash}

-- The byte that is compared with the separators is the one behind the path, its last zero. What
-- `fullpath` holds already stays in front.
unfoldable pub create_full_path : Bytes → Bytes → Bytes → Bytes
create_full_path [] file_name fullpath = file_name
create_full_path (c ∷ cs) file_name fullpath =
    let last = byte_at (c ∷ cs) (length (c ∷ cs)) in
    if last == b'\\' || last == b'/'
    then fullpath ++ (c ∷ cs ++ file_name)
    else fullpath ++ (c ∷ cs ++ b'/' ∷ file_name)

byte_at-length : (xs : Bytes) → byte_at xs (length xs) ≡ 0
byte_at-length [] = refl
byte_at-length (x ∷ xs) = byte_at-length xs

create_full_path-separator :
    (c : ℕ) (cs file_name fullpath : Bytes)
    → create_full_path (c ∷ cs) file_name fullpath ≡ fullpath ++ (c ∷ cs ++ b'/' ∷ file_name)
unfolding create_full_path
create_full_path-separator c cs file_name fullpath = rw (byte_at-length cs) refl

-- The name of a file is found again in the path that is made of it and of a directory, whether
-- the directory ends with a slash or not.
pub get_file_name-create_full_path :
    (c : ℕ) (cs file_name fullpath : Bytes)
    → NoSlash file_name
    → get_file_name (create_full_path (c ∷ cs) file_name fullpath) ≡ file_name
get_file_name-create_full_path c cs file_name [] h =
    ap get_file_name (create_full_path-separator c cs file_name [])
    ∙ get_file_name-slash c cs file_name h
get_file_name-create_full_path c cs file_name (d ∷ ds) h =
    ap get_file_name (
      create_full_path-separator c cs file_name (d ∷ ds)
      ∙ sym (append_assoc (d ∷ ds) (c ∷ cs) (b'/' ∷ file_name)))
    ∙ get_file_name-slash d (ds ++ c ∷ cs) file_name h
