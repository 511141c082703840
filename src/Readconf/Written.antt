-- ===== src/Readconf/Written.antt =====
-- A configuration file as it is written: sections of lines, apart from server/readconf.c.
use push_server.Readconf.{Profile, found, missing, is_newline, ends_key, is_space, a_trim}
use push_server.Base.{
  ℕ, ◌+◌, ◌<◌, ◌≤◌, false, Bytes, List, [], ◌∷◌, ◌++◌, length, replicate, bytes_eq, if◌then◌else◌,
  ◌≡◌, ◌≢◌,
}

pub data Line : Type 0 where
  -- A key and a value, with so many spaces in front of the `=` and behind it.
  entry : (key val : Bytes) (before behind : ℕ) → Line
  remark : Bytes → Line
  blank : ℕ → Line

pub record Section : Type 0 where
  pub name : Bytes
  pub lines : List Line

abbrev pub print_line : Line → Bytes
print_line (entry key val before behind) =
    key ++ (replicate before b' ' ++ (b'=' ∷ (replicate behind b' ' ++ val)))
print_line (remark s) = b'#' ∷ s
print_line (blank n) = replicate n b' '

abbrev pub print_lines : List Line → Bytes → Bytes
print_lines [] rest = rest
print_lines (l ∷ ls) rest = print_line l ++ (b'\n' ∷ print_lines ls rest)

abbrev pub header : Bytes → Bytes
header name = b'[' ∷ (name ++ b']' ∷ [])

abbrev pub print_sections : List Section → Bytes
print_sections [] = []
print_sections (s ∷ ss) = header s.name ++ b'\n' ∷ print_lines s.lines (print_sections ss)

-- The value of a key in a section, and in a file: that of the first section of that name.
abbrev pub look_up_key : Bytes → List Line → Profile
look_up_key key [] = missing
look_up_key key (entry k val before behind ∷ ls) =
    let rest = look_up_key key ls in if bytes_eq k key then found val else rest
look_up_key key (remark s ∷ ls) = look_up_key key ls
look_up_key key (blank n ∷ ls) = look_up_key key ls

abbrev pub look_up : Bytes → Bytes → List Section → Profile
look_up app key [] = missing
look_up app key (s ∷ ss) =
    let rest = look_up app key ss in if bytes_eq app s.name then look_up_key key s.lines else rest

-- Text of one line, and text with no bracket that closes.
abbrev pub IsLine : Bytes → Type 0
IsLine [] = Unit
IsLine (c ∷ cs) = (c ≢ 0) × (is_newline c ≡ false) × IsLine cs

abbrev pub NoBracket : Bytes → Type 0
NoBracket [] = Unit
NoBracket (c ∷ cs) = (c ≢ b']') × NoBracket cs

abbrev pub HasNoEnd : Bytes → Type 0
HasNoEnd [] = Unit
HasNoEnd (c ∷ cs) = (ends_key c ≡ false) × HasNoEnd cs

-- A key does not begin like a comment, a section or a blank, and has none of the bytes that end it.
abbrev pub IsKey : Bytes → Type 0
IsKey [] = ⊥
IsKey (c ∷ cs) =
    (is_space c ≡ false) × (c ≢ b'#') × (c ≢ b'[') × HasNoEnd (c ∷ cs) × (length cs < 31)

-- A value has a byte, and no blank at its ends.
abbrev pub IsValue : Bytes → Type 0
IsValue [] = ⊥
IsValue (c ∷ cs) = a_trim (c ∷ cs) ≡ c ∷ cs

-- The line is read by one `fgets`, and its value fits in a buffer of `room` bytes.
abbrev pub Fits : ℕ → Line → Type 0
Fits room (entry key val before behind) =
    IsKey key × IsLine key × IsValue val × IsLine val × (behind + length val < room)
Fits room (remark s) = IsLine s
Fits room (blank n) = Unit

pub data AllFit (room : ℕ) : List Line → Type 0 where
  no_line : AllFit room []
  line :
      {l : Line} {ls : List Line}
      → Fits room l
      → length (print_line l) ≤ 98
      → AllFit room ls
      → AllFit room (l ∷ ls)

abbrev pub AreWritten : ℕ → List Section → Type 0
AreWritten room [] = Unit
AreWritten room (s ∷ ss) =
    IsLine s.name
    × NoBracket s.name
    × (length s.name < 97)
    × AllFit room s.lines
    × AreWritten room ss
