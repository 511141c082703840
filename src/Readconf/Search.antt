-- ===== src/Readconf/Search.antt =====
-- server/readconf.c: `_GetProfileString` on one line of a written file.
use push_server.Readconf.{
  Profile, found, missing, Request, is_newline, is_space, l_trim, a_trim, until, starts_with,
  or_else, stored, at_key, in_section, appname, before_section,
}
use push_server.Readconf.Written.{
  Line, entry, remark, blank, print_line, header, IsLine, NoBracket, HasNoEnd, IsValue, Fits,
}
use push_server.Base.{
  ℕ, ◌+◌, ◌<◌, Bytes, [], ◌∷◌, ◌++◌, some, length, replicate, bytes_eq, if◌then◌else◌, ◌≡◌, refl,
  ap, ◌∙◌, arith, append_assoc, lt→ltb,
}
use push_server.Readconf.Texts.{
  l_trim-spaces, until-key, until-newline, after_equals-key, until-spaces, or_else-spaces,
  entry-line, length-spaces, a_trim-spaces, ==-false, ltb-false,
}

-- A line of the section that was found.
module _ (q : Request) where
  stored-text :
      (text rest : Bytes)
      → until is_newline rest ≡ text
      → or_else text q.key_val ≡ text
      → length text < q.room
      → stored q rest ≡ found (or_else (a_trim text) text)
  unfolding stored
  stored-text text rest e o b = rw e (rw o (rw (lt→ltb (length text) q.room b) refl))

  stored-value :
      (val : Bytes) (n : ℕ)
      → IsValue val
      → IsLine val
      → n + length val < q.room
      → stored q (replicate n b' ' ++ (val ++ b'\n' ∷ [])) ≡ found val
  stored-value [] n hv lv b = absurd hv
  stored-value (c ∷ cs) n hv lv b =
      let text : Bytes = replicate n b' ' ++ c ∷ cs in
      stored-text text (replicate n b' ' ++ (c ∷ cs ++ b'\n' ∷ []))
        (until-spaces n (c ∷ cs ++ b'\n' ∷ [])
          ∙ ap (λ (l : Bytes). replicate n b' ' ++ l) (until-newline (c ∷ cs) lv))
        (or_else-spaces n (c ∷ cs) q.key_val refl) (omega (arith, length-spaces n (c ∷ cs)))
      ∙ ap (λ l. found (or_else l text)) (a_trim-spaces n (c ∷ cs) ∙ hv)

  at_key-key :
      (key tail : Bytes) (n : ℕ) (rest : Profile)
      → HasNoEnd key
      → length key < 32
      → at_key q (key ++ (replicate n b' ' ++ b'=' ∷ tail)) (some tail) rest
        ≡ (if bytes_eq key q.key_name then stored q tail else rest)
  unfolding at_key
  at_key-key key tail n rest h b = rw (until-key key tail n h) (rw (ltb-false b) refl)

  pub in_section-entry :
      (key val : Bytes) (n m : ℕ) (rest : Profile)
      → Fits q.room (entry key val n m)
      → in_section q (l_trim (print_line (entry key val n m) ++ b'\n' ∷ [])) rest
        ≡ (if bytes_eq key q.key_name then found val else rest)
  unfolding in_section l_trim
  in_section-entry [] val n m rest h = absurd h.0
  in_section-entry (c ∷ cs) val n m rest (hk, lk, hv, lv, b) =
      let tail : Bytes = replicate m b' ' ++ (val ++ b'\n' ∷ []) in
      rw (entry-line (c ∷ cs) val n m) (
        rw (hk.0) (
          rw (==-false c b'#' hk.1) (
            rw (==-false c b'[' hk.2) (
              rw (after_equals-key (c ∷ cs) tail n hk.3) (
                at_key-key (c ∷ cs) tail n rest hk.3 (omega (arith, hk.4))
                ∙ ap (λ x. if bytes_eq (c ∷ cs) q.key_name then x else rest)
                    (stored-value val m hv lv b))))))

  pub in_section-blank :
      (n : ℕ) (rest : Profile)
      → in_section q (l_trim (print_line (blank n) ++ b'\n' ∷ [])) rest ≡ rest
  unfolding in_section l_trim is_space
  in_section-blank n rest = rw (l_trim-spaces n (b'\n' ∷ [])) refl

  pub in_section-remark :
      (s : Bytes) (rest : Profile)
      → in_section q (l_trim (print_line (remark s) ++ b'\n' ∷ [])) rest ≡ rest
  unfolding in_section l_trim is_space
  in_section-remark s rest = refl

  pub in_section-header :
      (name : Bytes) (rest : Profile)
      → in_section q (l_trim (header name ++ b'\n' ∷ [])) rest ≡ missing
  unfolding in_section l_trim is_space
  in_section-header name rest = refl

  -- The lines of a section that has another name are passed over.
  pub before_section-line :
      (l : Line) (rest opened : Profile)
      → Fits q.room l
      → before_section q (l_trim (print_line l ++ b'\n' ∷ [])) rest opened ≡ rest
  unfolding before_section l_trim is_space
  before_section-line (entry [] val n m) rest opened h = absurd h.0
  before_section-line (entry (c ∷ cs) val n m) rest opened (hk, lk, hv, lv, b) =
      rw hk.0 (rw (==-false c b'[' hk.2) refl)
  before_section-line (remark s) rest opened h = refl
  before_section-line (blank n) rest opened h = rw (l_trim-spaces n (b'\n' ∷ [])) refl

  starts_with-name :
      (app name : Bytes)
      → NoBracket app
      → NoBracket name
      → starts_with (app ++ b']' ∷ []) (name ++ b']' ∷ b'\n' ∷ []) ≡ bytes_eq app name
  unfolding starts_with
  starts_with-name [] [] ha hn = refl
  starts_with-name [] (y ∷ ys) ha hn = ground (arith, hn.0)
  starts_with-name (x ∷ xs) [] ha hn = ground (arith, ha.0)
  starts_with-name (x ∷ xs) (y ∷ ys) ha hn = ground (arith, starts_with-name xs ys ha.1 hn.1)

  header-line : (name : Bytes) → header name ++ b'\n' ∷ [] ≡ b'[' ∷ (name ++ b']' ∷ b'\n' ∷ [])
  header-line name = simp append_assoc

  pub before_section-header :
      (name : Bytes) (rest opened : Profile)
      → NoBracket q.app_name
      → NoBracket name
      → before_section q (l_trim (header name ++ b'\n' ∷ [])) rest opened
        ≡ (if bytes_eq q.app_name name then opened else rest)
  unfolding before_section l_trim is_space appname starts_with
  before_section-header name rest opened ha hn =
      ap (λ l. before_section q (l_trim l) rest opened) (header-line name)
      ∙ rw (starts_with-name q.app_name name ha hn) refl
