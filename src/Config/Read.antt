-- ===== src/Config/Read.antt =====
-- server/daemon.c: what `read_config` makes of a file that holds every setting.
use push_server.Base.{
  Bool, true, not, ◌&&◌, ◌==◌, ℕ, ◌<◌, Bytes, [], ◌∷◌, some, Option, length, ◌≡◌, refl, ap, ◌∙◌,
  arith, text, lt→ltb,
}
use push_server.Base.Decimal.{dec}
use push_server.Base.Int.{ℤ, pos}
use push_server.Readconf.{found, is_space, is_newline, ends_key}
use push_server.Readconf.Written.{print_sections, look_up, NoBracket, AllFit, no_line, AreWritten}
use push_server.Readconf.Found.{get_profile_string-look_up}
use push_server.Config.{
  ConfigStruct, pred, int_or, text_or, word_or, less_one, profile, ◌>>=◌, read_config,
}
use push_server.Config.Settings.{
  Settings, server_lines, redis_lines, conf_file, AreSettings, entry-AllFit, number-AllFit,
  IsKey-test, int_of-dec,
}

no_bracket : Bytes → Bool
no_bracket [] = true
no_bracket (c ∷ cs) = not (c == b']') && no_bracket cs

NoBracket-test : (xs : Bytes) → no_bracket xs ≡ true → NoBracket xs
unfolding no_bracket
NoBracket-test [] h = tt
NoBracket-test (c ∷ cs) h = ((λ e. ground (arith, e)), NoBracket-test cs (ground arith))

bind-some {ℓ κ} :
    {A : Type ℓ} {B : Type κ} {o : Option A} {a : A} (f : A → Option B) {r : Option B}
    → o ≡ some a
    → f a ≡ r
    → (o >>= f) ≡ r
bind-some f e g = ap (λ x. x >>= f) e ∙ g

-- The configuration that a file of settings makes: `deamon` and `tempPath` are a word of the
-- source, `processer` is one less, and `socket_time_out` is not touched.
abbrev pub configured : Settings → ConfigStruct → ConfigStruct
configured s config = record config {
  serverid = pos s.serverid;
  server_port = pos s.server_port;
  push_time_out = pos s.push_time_out;
  unin_thread_count = pos s.unin_thread_count;
  delay_time_out = pos s.delay_time_out;
  push_thread_count = pos s.push_thread_count;
  processer = pred (pos s.processer);
  max_send_thread_pool = pos s.max_send_thread_pool;
  max_recv_thread_pool = pos s.max_recv_thread_pool;
  redis_ip = s.redis_ip;
  redis_port = pos s.redis_port;
  deamon = text "tempStr";
  temp_path = text "tempStr";
  max_redis_pool = pos s.max_redis_pool;
}

module _ (s : Settings) (h : AreSettings s) where
  server-AllFit : AllFit 50 (server_lines s)
  unfolding is_space is_newline ends_key
  server-AllFit =
      entry-AllFit
        (number-AllFit
          (number-AllFit
            (number-AllFit
              (number-AllFit
                (number-AllFit
                  (number-AllFit
                    (number-AllFit
                      (number-AllFit
                        (number-AllFit (entry-AllFit no_line _ _ refl h.temp_path) _ _ refl
                          h.max_recv_thread_pool)
                        _ _ refl h.max_send_thread_pool)
                      _ _ refl h.processer)
                    _ _ refl h.unin_thread_count)
                  _ _ refl h.push_thread_count)
                _ _ refl h.delay_time_out)
              _ _ refl h.push_time_out)
            _ _ refl h.serverid)
          _ _ refl h.server_port)
        _ _ refl h.deamon

  redis-AllFit : AllFit 50 (redis_lines s)
  unfolding is_space is_newline ends_key
  redis-AllFit =
      entry-AllFit
        (number-AllFit (number-AllFit no_line _ _ refl h.max_redis_pool) _ _ refl h.redis_port) _ _
        refl (h.redis_ip.0, h.redis_ip.1, omega (arith, h.redis_ip.2))

  conf_file-AreWritten : AreWritten 50 (conf_file s)
  unfolding is_space is_newline ends_key no_bracket
  conf_file-AreWritten = (
    (IsKey-test (text "server") refl).1,
    NoBracket-test (text "server") refl,
    omega arith,
    server-AllFit,
    (
      (IsKey-test (text "redis") refl).1,
      NoBracket-test (text "redis") refl,
      omega arith,
      redis-AllFit,
      tt,
    ),
  )

  abbrev file : Option Bytes
  file = some (print_sections (conf_file s))

  profile-file :
      (app key : Bytes)
      → no_bracket app ≡ true
      → length app < 30
      → profile file app key ≡ look_up app key (conf_file s)
  profile-file app key b l =
      get_profile_string-look_up _ (conf_file s) (NoBracket-test app b) l conf_file-AreWritten

  profile-number :
      (app key : Bytes) (n : ℕ) (default : ℤ)
      → no_bracket app ≡ true
      → length app < 30
      → look_up app key (conf_file s) ≡ found (dec n)
      → int_or default (profile file app key) ≡ some (pos n)
  profile-number app key n default b l e =
      ap (int_or default) (profile-file app key b l ∙ e) ∙ ap some (int_of-dec n)

  server :
      (key : Bytes) (n : ℕ) (default : ℤ)
      → look_up (text "server") key (conf_file s) ≡ found (dec n)
      → int_or default (profile file (text "server") key) ≡ some (pos n)
  unfolding no_bracket
  server key n default = profile-number (text "server") key n default refl (omega arith)

  redis :
      (key : Bytes) (n : ℕ) (default : ℤ)
      → look_up (text "redis") key (conf_file s) ≡ found (dec n)
      → int_or default (profile file (text "redis") key) ≡ some (pos n)
  unfolding no_bracket
  redis key n default = profile-number (text "redis") key n default refl (omega arith)

  server-text :
      (key val : Bytes)
      → look_up (text "server") key (conf_file s) ≡ found val
      → profile file (text "server") key ≡ found val
  unfolding no_bracket
  server-text key val e = profile-file (text "server") key refl (omega arith) ∙ e

  redis-ip : text_or (text "127.0.0.1") (profile file (text "redis") (text "ip")) ≡ some s.redis_ip
  unfolding no_bracket
  redis-ip =
      ap (text_or (text "127.0.0.1")) (profile-file (text "redis") (text "ip") refl (omega arith))
      ∙ rw (lt→ltb (length s.redis_ip) 20 h.redis_ip.2) refl

  processer :
      less_one (profile file (text "server") (text "processer")) ≡ some (pred (pos s.processer))
  processer =
      ap less_one (server-text (text "processer") (dec s.processer) refl)
      ∙ ap (λ i. some (pred i)) (int_of-dec s.processer)

  -- The settings of a file that holds all of them are those that the server runs with, apart from
  -- `deamon` and `tempPath`, which become the text "tempStr" whatever the file says, and
  -- `processer`, which is one less. The numbers are from 0 to 2147483647; the texts are values of
  -- one line, the address of Redis of at most 19 bytes and the others of at most 49.
  pub read_config-Settings :
      (config : ConfigStruct) → read_config file config ≡ some (configured s config)
  unfolding read_config
  read_config-Settings config = bind-some _ (server (text "serverid") s.serverid (pos 1) refl) (
      bind-some _ (server (text "port") s.server_port (pos 1234) refl) (
        bind-some _ (server (text "push_time_out") s.push_time_out (pos 1) refl) (
          bind-some _ (server (text "unin_thread_count") s.unin_thread_count (pos 1) refl) (
            bind-some _ (server (text "delay_time_out") s.delay_time_out (pos 20) refl) (
              bind-some _ (server (text "push_thread_count") s.push_thread_count (pos 2) refl) (
                bind-some _ (server (text "push_time_out") s.push_time_out (pos 5) refl) (
                  bind-some _ processer (
                    bind-some _
                      (server (text "max_send_thread_pool") s.max_send_thread_pool (pos 5) refl)
                      (bind-some _
                        (server (text "max_recv_thread_pool") s.max_recv_thread_pool (pos 100) refl)
                        (bind-some _ redis-ip (
                          bind-some _ (redis (text "port") s.redis_port (pos 6379) refl) (
                            bind-some _
                              (ap (word_or (text "no")) (server-text (text "deamon") s.deamon refl))
                              (bind-some _
                                (ap (word_or []) (server-text (text "tempPath") s.temp_path refl))
                                (bind-some _
                                  (redis (text "max_redis_pool") s.max_redis_pool (pos 20) refl)
                                  refl))))))))))))))
