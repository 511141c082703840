-- ===== src/Config.antt =====
-- server/daemon.c: `read_config`, which fills the settings of the server from the configuration
-- file.
pub mod Settings
pub mod Read
use push_server.Readconf.{Profile, found, missing, overrun, Request, get_profile_string}
use push_server.Base.{
  ℕ, zero, suc, Bytes, [], ◌∷◌, Option, none, some, length, text, ltb, ◌==◌, if◌then◌else◌,
}
use push_server.Base.Decimal.{atoi}
use push_server.Base.Int.{ℤ, pos, negsuc}

pub record ConfigStruct : Type 0 where
  pub serverid : ℤ
  pub server_port : ℤ
  pub push_time_out : ℤ
  pub delay_time_out : ℤ
  pub push_thread_count : ℤ
  pub unin_thread_count : ℤ
  pub processer : ℤ
  pub max_send_thread_pool : ℤ
  pub max_recv_thread_pool : ℤ
  pub max_redis_pool : ℤ
  pub redis_ip : Bytes
  pub deamon : Bytes
  pub redis_port : ℤ
  pub temp_path : Bytes
  pub socket_time_out : ℤ

abbrev pub negative : ℕ → ℤ
negative zero = pos zero
negative (suc n) = negsuc n

-- `atoi` of a value that does not begin with a blank, or is all blank, and whose number fits in an
-- `int`.
abbrev pub int_of : Bytes → ℤ
int_of [] = pos 0
int_of (c ∷ cs) =
    if c == b'-'
    then negative (atoi cs)
    else if c == b'+'
    then pos (atoi cs)
    else pos (atoi (c ∷ cs))

-- i - 1.
abbrev pub pred : ℤ → ℤ
pred (pos zero) = negsuc 0
pred (pos (suc n)) = pos n
pred (negsuc n) = negsuc (suc n)

-- The search for one setting, in the 50 bytes of `tempStr`, which are cleared before it.
abbrev pub profile : Option Bytes → Bytes → Bytes → Profile
profile file app key =
    get_profile_string (record { app_name = app; key_name = key; key_val = []; room = 50 }) file

-- What a setting becomes: the default, the value, or nothing once a buffer is overrun.
abbrev pub int_or : ℤ → Profile → Option ℤ
int_or default (found val) = some (int_of val)
int_or default missing = some default
int_or default overrun = none

-- `strcpy` into an array of so many bytes.
abbrev pub copy_in : ℕ → Bytes → Option Bytes
copy_in size val = if ltb (length val) size then some val else none

abbrev pub text_or : Bytes → Profile → Option Bytes
text_or default (found val) = copy_in 20 val
text_or default missing = some default
text_or default overrun = none

-- The two settings whose value is replaced by the name of the variable that holds it.
abbrev pub word_or : Bytes → Profile → Option Bytes
word_or default (found val) = some (text "tempStr")
word_or default missing = some default
word_or default overrun = none

infixl 20 ◌>>=◌
abbrev pub ◌>>=◌ {ℓ κ} : {A : Type ℓ} {B : Type κ} → Option A → (A → Option B) → Option B
none >>= f = none
some a >>= f = f a

-- `processer` is one less than its value, and 0 without one.
abbrev pub less_one : Profile → Option ℤ
less_one (found val) = some (pred (int_of val))
less_one missing = some (pos 0)
less_one overrun = none

-- The settings in the order of the source, where `push_time_out` is read twice.
unfoldable pub read_config : Option Bytes → ConfigStruct → Option ConfigStruct
read_config file config = do
  serverid ← int_or (pos 1) (profile file (text "server") (text "serverid"))
  server_port ← int_or (pos 1234) (profile file (text "server") (text "port"))
  first ← int_or (pos 1) (profile file (text "server") (text "push_time_out"))
  unin_thread_count ← int_or (pos 1) (profile file (text "server") (text "unin_thread_count"))
  delay_time_out ← int_or (pos 20) (profile file (text "server") (text "delay_time_out"))
  push_thread_count ← int_or (pos 2) (profile file (text "server") (text "push_thread_count"))
  push_time_out ← int_or (pos 5) (profile file (text "server") (text "push_time_out"))
  processer ← less_one (profile file (text "server") (text "processer"))
  max_send_thread_pool ← int_or (pos 5) (profile file (text "server") (text "max_send_thread_pool"))
  max_recv_thread_pool ←
      int_or (pos 100) (profile file (text "server") (text "max_recv_thread_pool"))
  redis_ip ← text_or (text "127.0.0.1") (profile file (text "redis") (text "ip"))
  redis_port ← int_or (pos 6379) (profile file (text "redis") (text "port"))
  deamon ← word_or (text "no") (profile file (text "server") (text "deamon"))
  temp_path ← word_or [] (profile file (text "server") (text "tempPath"))
  max_redis_pool ← int_or (pos 20) (profile file (text "redis") (text "max_redis_pool"))
  some (record config {
    serverid = serverid;
    server_port = server_port;
    push_time_out = push_time_out;
    unin_thread_count = unin_thread_count;
    delay_time_out = delay_time_out;
    push_thread_count = push_thread_count;
    processer = processer;
    max_send_thread_pool = max_send_thread_pool;
    max_recv_thread_pool = max_recv_thread_pool;
    redis_ip = redis_ip;
    redis_port = redis_port;
    deamon = deamon;
    temp_path = temp_path;
    max_redis_pool = max_redis_pool;
  })
