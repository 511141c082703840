-- ===== src/Tests/Settings.antt =====
-- A configuration file, for the theorems on server/readconf.c and server/daemon.c.
use push_server.Base.{List, [], ◌∷◌, some, none, text, ◌≡◌, refl, arith}
use push_server.Base.Int.{pos}
use push_server.Readconf.{
  Request, found, missing, is_space, is_newline, ends_key, l_trim, r_trim, a_trim, starts_with,
  fgets, in_section, appname, before_section, search_lines, get_profile_string,
}
use push_server.Readconf.Written.{
  entry, remark, blank, Section, no_line, line, AreWritten, print_sections,
}
use push_server.Readconf.Found.{get_profile_string-look_up}
use push_server.Config.{ConfigStruct, read_config}
use push_server.Config.Settings.{Settings, conf_file, AreSettings, IsKey-test, IsLine-test}
use push_server.Config.Read.{configured, read_config-Settings}

-- A section with a comment, blanks around the `=` and an indented empty line, below another one.
abbrev two_sections : List Section
two_sections =
    record {
      name = text "mysql";
      lines = remark (text "port=1") ∷ entry (text "port") (text "3306") 0 0 ∷ [];
    }
    ∷ record {
      name = text "server";
      lines = blank 2 ∷ remark (text "x") ∷ entry (text "port") (text "12 34") 1 1 ∷ [];
    }
    ∷ []

abbrev port_request : Request
port_request = record { app_name = text "server"; key_name = text "port"; key_val = []; room = 50 }

two_sections-AreWritten : AreWritten 50 two_sections
unfolding is_space is_newline ends_key a_trim l_trim r_trim
two_sections-AreWritten = (
  (IsKey-test (text "mysql") refl).1,
  ground arith,
  omega arith,
  line (IsLine-test (text "port=1") refl) (omega arith) (
      line
        (
          (IsKey-test (text "port") refl).0,
          (IsKey-test (text "port") refl).1,
          refl,
          IsLine-test (text "3306") refl,
          omega arith,
        )
        (omega arith) no_line),
  (
    (IsKey-test (text "server") refl).1,
    ground arith,
    omega arith,
    line tt (omega arith) (
        line (IsLine-test (text "x") refl) (omega arith) (
          line
            (
              (IsKey-test (text "port") refl).0,
              (IsKey-test (text "port") refl).1,
              refl,
              IsLine-test (text "12 34") refl,
              omega arith,
            )
            (omega arith) no_line)),
    tt,
  ),
)

get_profile_string-look_up_example :
    get_profile_string port_request (some (print_sections two_sections)) ≡ found (text "12 34")
get_profile_string-look_up_example =
    get_profile_string-look_up port_request two_sections (ground arith) (omega arith)
      two_sections-AreWritten

-- A file with no section of that name, and no file.
no_section : get_profile_string port_request (some (text "port=1\n[serve]\nport=2")) ≡ missing
unfolding get_profile_string appname search_lines before_section in_section starts_with l_trim
    is_space fgets is_newline
no_section = refl

no_file : get_profile_string port_request none ≡ missing
unfolding get_profile_string
no_file = refl

abbrev settings : Settings
settings = record {
  serverid = 7;
  server_port = 1234;
  push_time_out = 1;
  delay_time_out = 1;
  push_thread_count = 2;
  unin_thread_count = 1;
  processer = 2;
  max_send_thread_pool = 5;
  max_recv_thread_pool = 100;
  max_redis_pool = 20;
  redis_port = 6379;
  redis_ip = text "127.0.0.1";
  deamon = text "yes";
  temp_path = text "/tmp";
}

settings-AreSettings : AreSettings settings
unfolding is_space is_newline a_trim l_trim r_trim
settings-AreSettings = record {
  serverid = omega arith;
  server_port = omega arith;
  push_time_out = omega arith;
  delay_time_out = omega arith;
  push_thread_count = omega arith;
  unin_thread_count = omega arith;
  processer = omega arith;
  max_send_thread_pool = omega arith;
  max_recv_thread_pool = omega arith;
  max_redis_pool = omega arith;
  redis_port = omega arith;
  redis_ip = (refl, IsLine-test (text "127.0.0.1") refl, omega arith);
  deamon = (refl, IsLine-test (text "yes") refl, omega arith);
  temp_path = (refl, IsLine-test (text "/tmp") refl, omega arith);
}

abbrev cleared : ConfigStruct
cleared = record {
  serverid = pos 0;
  server_port = pos 0;
  push_time_out = pos 0;
  delay_time_out = pos 0;
  push_thread_count = pos 0;
  unin_thread_count = pos 0;
  processer = pos 0;
  max_send_thread_pool = pos 0;
  max_recv_thread_pool = pos 0;
  max_redis_pool = pos 0;
  redis_ip = [];
  deamon = [];
  redis_port = pos 0;
  temp_path = [];
  socket_time_out = pos 0;
}

-- The file asks for a daemon, and the server does not become one.
read_config-Settings_example :
    read_config (some (print_sections (conf_file settings))) cleared
    ≡ some
        (record (configured settings cleared) { deamon = text "tempStr"; socket_time_out = pos 0 })
read_config-Settings_example = read_config-Settings settings settings-AreSettings cleared

-- Without a file every setting has its default.
read_config-default :
    read_config none cleared
    ≡ some (record {
      serverid = pos 1;
      server_port = pos 1234;
      push_time_out = pos 5;
      delay_time_out = pos 20;
      push_thread_count = pos 2;
      unin_thread_count = pos 1;
      processer = pos 0;
      max_send_thread_pool = pos 5;
      max_recv_thread_pool = pos 100;
      max_redis_pool = pos 20;
      redis_ip = text "127.0.0.1";
      deamon = text "no";
      redis_port = pos 6379;
      temp_path = [];
      socket_time_out = pos 0;
    })
unfolding read_config get_profile_string
read_config-default = refl
