-- ===== src/Config/Settings.antt =====
-- server/daemon.c: `read_config` on a file that holds every setting.
use push_server.Base.{
  ℕ, ◌<◌, ◌≤◌, Bool, true, false, ◌&&◌, not, Bytes, List, [], ◌∷◌, length, length-append, ltb, ◌==◌,
  ◌≡◌, refl, ap, ◌∙◌, arith, text,
}
use push_server.Base.Decimal.{dec, atoi, atoi-dec}
use push_server.Base.Decimal.Digits.{AreDigits, dec-AreDigits, length-dec_positive, length-dec}
use push_server.Base.Int.{pos}
use push_server.Readconf.{is_space, is_newline, ends_key, l_trim, r_trim, keep, a_trim}
use push_server.Readconf.Written.{
  Line, entry, Section, IsLine, IsKey, IsValue, HasNoEnd, AllFit, line,
}
use push_server.Config.{int_of}

-- The settings that a file gives.
pub record Settings : Type 0 where
  pub serverid : ℕ
  pub server_port : ℕ
  pub push_time_out : ℕ
  pub delay_time_out : ℕ
  pub push_thread_count : ℕ
  pub unin_thread_count : ℕ
  pub processer : ℕ
  pub max_send_thread_pool : ℕ
  pub max_recv_thread_pool : ℕ
  pub max_redis_pool : ℕ
  pub redis_port : ℕ
  pub redis_ip : Bytes
  pub deamon : Bytes
  pub temp_path : Bytes

abbrev number : Bytes → ℕ → Line
number key n = entry key (dec n) 0 0

abbrev pub server_lines : Settings → List Line
server_lines s =
    entry (text "deamon") s.deamon 0 0
    ∷ number (text "port") s.server_port
    ∷ number (text "serverid") s.serverid
    ∷ number (text "push_time_out") s.push_time_out
    ∷ number (text "delay_time_out") s.delay_time_out
    ∷ number (text "push_thread_count") s.push_thread_count
    ∷ number (text "unin_thread_count") s.unin_thread_count
    ∷ number (text "processer") s.processer
    ∷ number (text "max_send_thread_pool") s.max_send_thread_pool
    ∷ number (text "max_recv_thread_pool") s.max_recv_thread_pool
    ∷ entry (text "tempPath") s.temp_path 0 0
    ∷ []

abbrev pub redis_lines : Settings → List Line
redis_lines s =
    entry (text "ip") s.redis_ip 0 0
    ∷ number (text "port") s.redis_port
    ∷ number (text "max_redis_pool") s.max_redis_pool
    ∷ []

abbrev pub conf_file : Settings → List Section
conf_file s =
    record { name = text "server"; lines = server_lines s }
    ∷ record { name = text "redis"; lines = redis_lines s }
    ∷ []

abbrev int_max : ℕ
int_max = 2147483647

-- The numbers are an `int`; the three texts are values of one line, and fit in 20 and in 50 bytes.
abbrev pub IsText : ℕ → Bytes → Type 0
IsText size s = IsValue s × IsLine s × (length s < size)

pub record AreSettings (s : Settings) : Type 0 where
  pub serverid : s.serverid ≤ int_max
  pub server_port : s.server_port ≤ int_max
  pub push_time_out : s.push_time_out ≤ int_max
  pub delay_time_out : s.delay_time_out ≤ int_max
  pub push_thread_count : s.push_thread_count ≤ int_max
  pub unin_thread_count : s.unin_thread_count ≤ int_max
  pub processer : s.processer ≤ int_max
  pub max_send_thread_pool : s.max_send_thread_pool ≤ int_max
  pub max_recv_thread_pool : s.max_recv_thread_pool ≤ int_max
  pub max_redis_pool : s.max_redis_pool ≤ int_max
  pub redis_port : s.redis_port ≤ int_max
  pub redis_ip : IsText 20 s.redis_ip
  pub deamon : IsText 50 s.deamon
  pub temp_path : IsText 50 s.temp_path

-- A digit is neither a blank nor a newline.
digit-blank : (c : ℕ) → 47 < c → c < 58 → is_space c ≡ false
unfolding is_space
digit-blank c a b = ground arith

digit-newline : (c : ℕ) → 47 < c → is_newline c ≡ false
unfolding is_newline
digit-newline c a = ground arith

AreDigits-IsLine : (xs : Bytes) → AreDigits xs → IsLine xs
AreDigits-IsLine [] h = tt
AreDigits-IsLine (c ∷ cs) (a, b, h) =
    ((λ e. omega (arith, e)), digit-newline c a, AreDigits-IsLine cs h)

r_trim-digits : (xs : Bytes) → AreDigits xs → r_trim xs ≡ xs
unfolding r_trim
r_trim-digits [] h = refl
r_trim-digits (c ∷ []) (a, b, h) = rw (digit-blank c a b) refl
r_trim-digits (c ∷ d ∷ ds) (a, b, h) = ap (keep c) (r_trim-digits (d ∷ ds) h)

AreDigits-IsValue : (xs : Bytes) → AreDigits xs → 0 < length xs → IsValue xs
unfolding a_trim l_trim
AreDigits-IsValue [] h p = absurd (omega arith)
AreDigits-IsValue (c ∷ cs) (a, b, h) p = rw (digit-blank c a b) (r_trim-digits (c ∷ cs) (a, b, h))

int_of-digits : (xs : Bytes) → AreDigits xs → int_of xs ≡ pos (atoi xs)
unfolding atoi
int_of-digits [] h = refl
int_of-digits (c ∷ cs) (a, b, h) = ground (arith, a, b)

pub int_of-dec : (n : ℕ) → int_of (dec n) ≡ pos n
int_of-dec n = int_of-digits (dec n) (dec-AreDigits n) ∙ ap pos (atoi-dec n)

-- A test for the names of keys and sections.
abbrev has_no_end : Bytes → Bool
has_no_end [] = true
has_no_end (c ∷ cs) = not (ends_key c) && has_no_end cs

abbrev pub is_line : Bytes → Bool
is_line [] = true
is_line (c ∷ cs) = not (c == 0) && (not (is_newline c) && is_line cs)

abbrev pub key_ok : Bytes → Bool
key_ok [] = false
key_ok (c ∷ cs) =
    not (is_space c)
    && (not (c == b'#')
        && (not (c == b'[') && (has_no_end (c ∷ cs) && (is_line (c ∷ cs) && ltb (length cs) 31))))

HasNoEnd-test : (xs : Bytes) → has_no_end xs ≡ true → HasNoEnd xs
HasNoEnd-test [] h = tt
HasNoEnd-test (c ∷ cs) h = (ground arith, HasNoEnd-test cs (ground arith))

pub IsLine-test : (xs : Bytes) → is_line xs ≡ true → IsLine xs
IsLine-test [] h = tt
IsLine-test (c ∷ cs) h = ((λ e. ground (arith, e)), ground arith, IsLine-test cs (ground arith))

pub IsKey-test : (xs : Bytes) → key_ok xs ≡ true → IsKey xs × IsLine xs
IsKey-test [] h = absurd (ground arith)
IsKey-test (c ∷ cs) h = (
  (
    ground arith,
    (λ e. ground (arith, e)),
    (λ e. ground (arith, e)),
    HasNoEnd-test (c ∷ cs) (ground arith),
    ground arith,
  ),
  IsLine-test (c ∷ cs) (ground arith),
)

length-key : (key : Bytes) → IsKey key → length key < 32
length-key [] h = absurd h
length-key (c ∷ cs) h = omega (arith, h.4)

-- The lines of the file fit.
module _ {ls : List Line} (h : AllFit 50 ls) where
  pub entry-AllFit :
      (key val : Bytes) → key_ok key ≡ true → IsText 50 val → AllFit 50 (entry key val 0 0 ∷ ls)
  entry-AllFit key val k (v, l, b) =
      let (hk, lk) = IsKey-test key k in
      line (hk, lk, v, l, omega arith)
        (omega (arith, length-append key (b'=' ∷ val), length-key key hk)) h

  pub number-AllFit :
      (key : Bytes) (n : ℕ) → key_ok key ≡ true → n ≤ int_max → AllFit 50 (number key n ∷ ls)
  number-AllFit key n k b = entry-AllFit key (dec n) k (
    AreDigits-IsValue (dec n) (dec-AreDigits n) (length-dec_positive n),
    AreDigits-IsLine (dec n) (dec-AreDigits n),
    omega (arith, length-dec 9 n (omega arith)),
  )
