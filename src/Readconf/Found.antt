-- ===== src/Readconf/Found.antt =====
-- server/readconf.c: `_GetProfileString` on a whole file.
use push_server.Readconf.{
  found, missing, Request, is_newline, fgets, appname, search_lines, get_profile_string,
}
use push_server.Readconf.Written.{
  Line, entry, remark, blank, Section, print_line, print_lines, header, print_sections, look_up_key,
  look_up, IsLine, NoBracket, AllFit, line, AreWritten,
}
use push_server.Readconf.Texts.{fgets-line, cstr-line, IsLine-append, IsLine-print_line, ltb-false}
use push_server.Readconf.Search.{
  in_section-entry, in_section-blank, in_section-remark, in_section-header, before_section-line,
  before_section-header,
}
use push_server.Base.{
  ◌<◌, true, false, Bytes, List, [], ◌∷◌, ◌++◌, some, length, length-append, bytes_eq,
  if◌then◌else◌, ◌≡◌, refl, ap, ◌∙◌, arith,
}

IsLine-header : (name : Bytes) → IsLine name → IsLine (header name)
unfolding is_newline
IsLine-header name h = (
  (λ e. omega (arith, e)),
  refl,
  IsLine-append name (b']' ∷ []) h ((λ e. omega (arith, e)), refl, tt),
)

module _ (q : Request) where
  abbrev lines_then : List Line → List Bytes → List Bytes
  lines_then [] rest = rest
  lines_then (l ∷ ls) rest = (print_line l ++ b'\n' ∷ []) ∷ lines_then ls rest

  -- The lines of a file, as `fgets` returns them.
  abbrev file_lines : List Section → List Bytes
  file_lines [] = []
  file_lines (s ∷ ss) = (header s.name ++ b'\n' ∷ []) ∷ lines_then s.lines (file_lines ss)

  fgets-print_lines :
      (ls : List Line) (rest : Bytes)
      → AllFit q.room ls
      → fgets 98 (print_lines ls rest) ≡ lines_then ls (fgets 98 rest)
  fgets-print_lines [] rest h = refl
  fgets-print_lines (l ∷ ls) rest (line h b hs) =
      fgets-line 98 (print_line l) (print_lines ls rest) (IsLine-print_line q.room l h) b
      ∙ ap (λ (k : List Bytes). (print_line l ++ b'\n' ∷ []) ∷ k) (fgets-print_lines ls rest hs)

  fgets-print_sections :
      (ss : List Section) → AreWritten q.room ss → fgets 98 (print_sections ss) ≡ file_lines ss
  unfolding fgets
  fgets-print_sections [] h = refl
  fgets-print_sections (s ∷ ss) (hn, hb, b, hl, hs) =
      fgets-line 98 (header s.name) (print_lines s.lines (print_sections ss))
        (IsLine-header s.name hn) (omega (arith, length-append s.name (b']' ∷ [])))
      ∙ ap (λ (k : List Bytes). (header s.name ++ b'\n' ∷ []) ∷ k)
          (fgets-print_lines s.lines (print_sections ss) hl
            ∙ ap (lines_then s.lines) (fgets-print_sections ss hs))

  -- Below the section that was asked for, up to the next one.
  inside-lines :
      (ls : List Line) (rest : List Bytes)
      → AllFit q.room ls
      → search_lines q true rest ≡ missing
      → search_lines q true (lines_then ls rest) ≡ look_up_key q.key_name ls
  unfolding search_lines
  inside-lines [] rest h e = e
  inside-lines (entry key val n m ∷ ls) rest (line h b hs) e =
      rw (cstr-line _ (IsLine-print_line q.room (entry key val n m) h)) (
        in_section-entry q key val n m (search_lines q true (lines_then ls rest)) h
        ∙ ap (λ x. if bytes_eq key q.key_name then found val else x) (inside-lines ls rest hs e))
  inside-lines (remark s ∷ ls) rest (line h b hs) e =
      rw (cstr-line _ (IsLine-print_line q.room (remark s) h)) (
        in_section-remark q s (search_lines q true (lines_then ls rest))
        ∙ inside-lines ls rest hs e)
  inside-lines (blank n ∷ ls) rest (line h b hs) e =
      rw (cstr-line _ (IsLine-print_line q.room (blank n) h)) (
        in_section-blank q n (search_lines q true (lines_then ls rest)) ∙ inside-lines ls rest hs e)

  inside-next :
      (ss : List Section) → AreWritten q.room ss → search_lines q true (file_lines ss) ≡ missing
  unfolding search_lines
  inside-next [] h = refl
  inside-next (s ∷ ss) h =
      rw (cstr-line (header s.name) (IsLine-header s.name h.0))
        (in_section-header q s.name (search_lines q true (lines_then s.lines (file_lines ss))))

  outside-lines :
      (ls : List Line) (rest : List Bytes)
      → AllFit q.room ls
      → search_lines q false (lines_then ls rest) ≡ search_lines q false rest
  unfolding search_lines
  outside-lines [] rest h = refl
  outside-lines (l ∷ ls) rest (line h b hs) =
      rw (cstr-line (print_line l) (IsLine-print_line q.room l h)) (
        before_section-line q l (search_lines q false (lines_then ls rest))
          (search_lines q true (lines_then ls rest)) h
        ∙ outside-lines ls rest hs)

  search_lines-file :
      (ss : List Section)
      → NoBracket q.app_name
      → AreWritten q.room ss
      → search_lines q false (file_lines ss) ≡ look_up q.app_name q.key_name ss
  unfolding search_lines
  search_lines-file [] ha h = refl
  search_lines-file (s ∷ ss) ha (hn, hb, b, hl, hs) =
      let within = lines_then s.lines (file_lines ss) in
      rw (cstr-line (header s.name) (IsLine-header s.name hn)) (
        before_section-header q s.name (search_lines q false within) (search_lines q true within) ha
          hb
        ∙ ap (λ x. if bytes_eq q.app_name s.name then x else search_lines q false within)
            (inside-lines s.lines (file_lines ss) hl (inside-next ss hs))
        ∙ ap (λ x. if bytes_eq q.app_name s.name then look_up_key q.key_name s.lines else x)
            (outside-lines s.lines (file_lines ss) hl ∙ search_lines-file ss ha hs))

-- In a file that is written as sections, the search returns the value of the first entry for the
-- key in the first section of that name, without the blanks around the `=`, and nothing if there
-- is none. The name that is asked for has at most 29 bytes and no closing bracket. Each line has
-- at most 98 bytes; a key has at most 31; a value has a byte, no blank at its ends and, with the
-- blanks in front of it, fits in the caller's buffer.
pub get_profile_string-look_up :
    (q : Request) (ss : List Section)
    → NoBracket q.app_name
    → length q.app_name < 30
    → AreWritten q.room ss
    → get_profile_string q (some (print_sections ss)) ≡ look_up q.app_name q.key_name ss
unfolding get_profile_string appname
get_profile_string-look_up q ss ha b h =
    rw (ltb-false {n = length (appname q)} (omega (arith, length-append q.app_name (b']' ∷ []))))
      (ap (search_lines q false) (fgets-print_sections q ss h) ∙ search_lines-file q ss ha h)
