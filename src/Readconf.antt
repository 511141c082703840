-- ===== src/Readconf.antt =====
-- server/readconf.c: the search for a value in the configuration file.
pub mod Written
pub mod Texts
pub mod Search
pub mod Found
use push_server.Base.{
  ℕ, zero, suc, ◌+◌, Bool, true, false, not, ◌&&◌, ◌||◌, Bytes, List, [], ◌∷◌, ◌++◌, Option, none,
  some, length, cstr, bytes_eq, ltb, leb, ◌==◌, if◌then◌else◌,
}

-- What `_GetProfileString` leaves: the value, nothing (the code -1), or a buffer of 32 bytes, or
-- the caller's, written past its end.
pub data Profile : Type 0 where
  found : Bytes → Profile
  missing overrun : Profile

unfoldable pub is_space : ℕ → Bool
is_space c = c == b' ' || (leb 9 c && leb c 13)

unfoldable pub l_trim : Bytes → Bytes
l_trim [] = []
l_trim (c ∷ cs) = let rest = l_trim cs in if is_space c then rest else c ∷ cs

-- c in front of what is left of the text behind it, dropped if all of that was blank.
abbrev pub keep : ℕ → Bytes → Bytes
keep c [] = if is_space c then [] else c ∷ []
keep c (d ∷ ds) = c ∷ d ∷ ds

unfoldable pub r_trim : Bytes → Bytes
r_trim [] = []
r_trim (c ∷ cs) = keep c (r_trim cs)

unfoldable pub a_trim : Bytes → Bytes
a_trim s = r_trim (l_trim s)

-- `sscanf` with a set of bytes that end the text.
unfoldable pub until : (ℕ → Bool) → Bytes → Bytes
until stop [] = []
until stop (c ∷ cs) = let rest = until stop cs in if stop c then [] else c ∷ rest

-- What follows the first `=`.
unfoldable pub after_equals : Bytes → Option Bytes
after_equals [] = none
after_equals (c ∷ cs) = let rest = after_equals cs in if c == b'=' then some cs else rest

-- `strncmp` over the length of the first string.
unfoldable pub starts_with : Bytes → Bytes → Bool
starts_with [] ys = true
starts_with (x ∷ xs) [] = false
starts_with (x ∷ xs) (y ∷ ys) = x == y && starts_with xs ys

-- The bytes that end a key in the format `%[^=|^ |^\t]`.
unfoldable pub ends_key : ℕ → Bool
ends_key c = c == b'=' || c == b'|' || c == b'^' || c == b' ' || c == b'\t'

unfoldable pub is_newline : ℕ → Bool
is_newline c = c == b'\n'

abbrev pub add_byte : ℕ → List Bytes → List Bytes
add_byte c [] = (c ∷ []) ∷ []
add_byte c (l ∷ ls) = (c ∷ l) ∷ ls

-- The lines that `fgets` returns until the end of the file, where the one being read has room for
-- as many bytes, and one more.
unfoldable pub fgets : ℕ → Bytes → List Bytes
fgets room [] = []
fgets zero (c ∷ cs) = (c ∷ []) ∷ fgets 98 cs
fgets (suc room) (c ∷ cs) =
    let next = fgets 98 cs in
    let more = fgets room cs in if is_newline c then (c ∷ []) ∷ next else add_byte c more

abbrev pub or_else : Bytes → Bytes → Bytes
or_else [] old = old
or_else (c ∷ cs) old = c ∷ cs

-- One search: the section, the key, and the buffer for the value, as it is before the call and
-- with its size.
pub record Request : Type 0 where
  pub app_name : Bytes
  pub key_name : Bytes
  pub key_val : Bytes
  pub room : ℕ

module _ (q : Request) where
  -- `KeyVal` is what follows the `=`, without the blanks at its ends unless it is all blank.
  unfoldable pub stored : Bytes → Profile
  stored rest =
      let text = until is_newline rest in
      let val = or_else text q.key_val in
      if ltb (length text) q.room then found (or_else (a_trim val) val) else overrun

  -- A line of the section, with an `=` in it.
  unfoldable pub at_key : Bytes → Option Bytes → Profile → Profile
  at_key buf none rest = rest
  at_key buf (some val) rest =
      let keyname = until ends_key buf in
      if ltb 31 (length keyname)
      then overrun
      else if bytes_eq keyname q.key_name
      then stored val
      else rest

  -- A line while `found` is 1, and what the lines behind it give.
  unfoldable pub in_section : Bytes → Profile → Profile
  in_section [] rest = rest
  in_section (c ∷ cs) rest =
      if c == b'#'
      then rest
      else if c == b'['
      then missing
      else at_key (c ∷ cs) (after_equals (c ∷ cs)) rest

  unfoldable pub appname : Bytes
  appname = b'[' ∷ (q.app_name ++ b']' ∷ [])

  -- A line while `found` is 0: what the lines behind it give with `found` 0 and with `found` 1.
  unfoldable pub before_section : Bytes → Profile → Profile → Profile
  before_section [] rest opened = rest
  before_section (c ∷ cs) rest opened =
      if not (c == b'[') then rest else if starts_with appname (c ∷ cs) then opened else rest

  -- The loop, with the lines left to read; the flag is `found == 1`.
  unfoldable pub search_lines : Bool → List Bytes → Profile
  search_lines inside [] = missing
  search_lines true (l ∷ ls) = in_section (l_trim (cstr l)) (search_lines true ls)
  search_lines false (l ∷ ls) =
      before_section (l_trim (cstr l)) (search_lines false ls) (search_lines true ls)

  -- A file that cannot be opened is `none`.
  unfoldable pub get_profile_string : Option Bytes → Profile
  get_profile_string none = missing
  get_profile_string (some file) =
      if ltb 31 (length appname) then overrun else search_lines false (fgets 98 file)
