-- ===== src/Readconf/Texts.antt =====
-- server/readconf.c: what becomes of the lines of a written file, and of their parts.
use push_server.Readconf.{
  is_newline, is_space, ends_key, l_trim, r_trim, a_trim, until, after_equals, add_byte, fgets,
  or_else,
}
use push_server.Readconf.Written.{Line, entry, remark, blank, print_line, IsLine, HasNoEnd, Fits}
use push_server.Base.{
  ℕ, zero, suc, ◌+◌, ◌<◌, ◌≤◌, Bool, true, false, Bytes, [], ◌∷◌, ◌++◌, some, length, replicate,
  cstr, ltb, ◌==◌, ◌≡◌, ◌≢◌, refl, ap, arith, append_assoc,
}

-- `fgets` returns a line that is short enough, with its newline.
pub fgets-line :
    (room : ℕ) (l rest : Bytes)
    → IsLine l
    → length l ≤ room
    → fgets room (l ++ b'\n' ∷ rest) ≡ (l ++ b'\n' ∷ []) ∷ fgets 98 rest
unfolding fgets is_newline
fgets-line zero [] rest h b = refl
fgets-line (suc room) [] rest h b = refl
fgets-line zero (c ∷ cs) rest h b = absurd (omega arith)
fgets-line (suc room) (c ∷ cs) rest (h0, hn, hs) b =
    rw hn (ap (add_byte c) (fgets-line room cs rest hs (omega arith)))

pub cstr-line : (l : Bytes) → IsLine l → cstr (l ++ b'\n' ∷ []) ≡ l ++ b'\n' ∷ []
cstr-line [] h = refl
cstr-line (zero ∷ cs) h = absurd (h.0 refl)
cstr-line (suc c ∷ cs) h = ap (λ (l : Bytes). suc c ∷ l) (cstr-line cs h.2)

pub IsLine-append : (xs ys : Bytes) → IsLine xs → IsLine ys → IsLine (xs ++ ys)
IsLine-append [] ys h k = k
IsLine-append (x ∷ xs) ys (h0, hn, hs) k = (h0, hn, IsLine-append xs ys hs k)

pub IsLine-spaces : (n : ℕ) → IsLine (replicate n b' ')
unfolding is_newline
IsLine-spaces zero = tt
IsLine-spaces (suc n) = ((λ e. omega (arith, e)), refl, IsLine-spaces n)

pub IsLine-print_line : (room : ℕ) (l : Line) → Fits room l → IsLine (print_line l)
unfolding is_newline
IsLine-print_line room (entry key val before behind) (hk, lk, hv, lv, b) =
    let value : IsLine (replicate behind b' ' ++ val) =
      IsLine-append (replicate behind b' ') val (IsLine-spaces behind) lv in
    let rest : IsLine (replicate before b' ' ++ (b'=' ∷ (replicate behind b' ' ++ val))) =
      IsLine-append (replicate before b' ') (b'=' ∷ replicate behind b' ' ++ val)
        (IsLine-spaces before) ((λ e. omega (arith, e)), refl, value) in
    IsLine-append key (replicate before b' ' ++ (b'=' ∷ (replicate behind b' ' ++ val))) lk rest
IsLine-print_line room (remark s) h = ((λ e. omega (arith, e)), refl, h)
IsLine-print_line room (blank n) h = IsLine-spaces n

pub l_trim-spaces : (n : ℕ) (s : Bytes) → l_trim (replicate n b' ' ++ s) ≡ l_trim s
unfolding l_trim is_space
l_trim-spaces zero s = refl
l_trim-spaces (suc n) s = l_trim-spaces n s

pub until-stop :
    (stop : ℕ → Bool) (c : ℕ) (rest : Bytes) → stop c ≡ true → until stop (c ∷ rest) ≡ []
unfolding until
until-stop stop c rest h = rw h refl

-- The key ends at the first space, or at the `=`.
pub until-key :
    (key rest : Bytes) (n : ℕ)
    → HasNoEnd key
    → until ends_key (key ++ (replicate n b' ' ++ b'=' ∷ rest)) ≡ key
unfolding until ends_key
until-key [] rest zero h = refl
until-key [] rest (suc n) h = refl
until-key (c ∷ cs) rest n h = rw h.0 (ap (λ (l : Bytes). c ∷ l) (until-key cs rest n h.1))

pub until-newline : (l : Bytes) → IsLine l → until is_newline (l ++ b'\n' ∷ []) ≡ l
unfolding until is_newline
until-newline [] h = refl
until-newline (c ∷ cs) h = rw h.1 (ap (λ (l : Bytes). c ∷ l) (until-newline cs h.2))

pub after_equals-spaces :
    (n : ℕ) (rest : Bytes) → after_equals (replicate n b' ' ++ b'=' ∷ rest) ≡ some rest
unfolding after_equals
after_equals-spaces zero rest = refl
after_equals-spaces (suc n) rest = after_equals-spaces n rest

pub after_equals-key :
    (key rest : Bytes) (n : ℕ)
    → HasNoEnd key
    → after_equals (key ++ (replicate n b' ' ++ b'=' ∷ rest)) ≡ some rest
unfolding after_equals ends_key
after_equals-key [] rest n h = after_equals-spaces n rest
after_equals-key (c ∷ cs) rest n h = ground (arith, h.0, after_equals-key cs rest n h.1)

pub until-spaces :
    (n : ℕ) (s : Bytes)
    → until is_newline (replicate n b' ' ++ s) ≡ replicate n b' ' ++ until is_newline s
unfolding until is_newline
until-spaces zero s = refl
until-spaces (suc n) s = ap (λ (l : Bytes). b' ' ∷ l) (until-spaces n s)

pub or_else-spaces :
    (n : ℕ) (s old : Bytes)
    → or_else s old ≡ s
    → or_else (replicate n b' ' ++ s) old ≡ replicate n b' ' ++ s
or_else-spaces zero s old h = h
or_else-spaces (suc n) s old h = refl

pub entry-line :
    (key val : Bytes) (n m : ℕ)
    → print_line (entry key val n m) ++ b'\n' ∷ []
      ≡ key ++ (replicate n b' ' ++ b'=' ∷ (replicate m b' ' ++ (val ++ b'\n' ∷ [])))
entry-line key val n m = simp append_assoc

pub length-spaces : (n : ℕ) (s : Bytes) → length (replicate n b' ' ++ s) ≡ n + length s
length-spaces zero s = omega arith
length-spaces (suc n) s = omega (arith, length-spaces n s)

pub a_trim-spaces : (n : ℕ) (s : Bytes) → a_trim (replicate n b' ' ++ s) ≡ a_trim s
unfolding a_trim
a_trim-spaces n s = ap r_trim (l_trim-spaces n s)

pub ==-false : (a b : ℕ) → a ≢ b → (a == b) ≡ false
==-false a b h = ground arith

pub ltb-false : {n : ℕ} → n < 32 → ltb 31 n ≡ false
ltb-false h = ground arith
