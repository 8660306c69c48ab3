-- ===== src/Config.antt =====
-- TinyWebServer/config.cpp and config.h: the configuration and its command-line options. `getopt` gives
-- the options in order, each with its argument; `atoi` of an argument is a parameter of the model.
use make_linux_server.Base.{ℕ, List, [], ◌∷◌, ◌==◌, if◌then◌else◌}
use make_linux_server.Base.Int.{ℤ, pos}

pub record Config : Type 0 where
  pub port : ℤ
  pub log_write : ℤ
  pub trig_mode : ℤ
  pub listen_trigmode : ℤ
  pub conn_trigmode : ℤ
  pub opt_linger : ℤ
  pub sql_num : ℤ
  pub thread_num : ℤ
  pub close_log : ℤ
  pub actor_model : ℤ

-- `Config()`
abbrev pub config : Config
config = record {
  port = pos 9006;
  log_write = pos 0;
  trig_mode = pos 0;
  listen_trigmode = pos 0;
  conn_trigmode = pos 0;
  opt_linger = pos 0;
  sql_num = pos 8;
  thread_num = pos 8;
  close_log = pos 0;
  actor_model = pos 0;
}

-- One option, by the byte that `getopt` returns.
unfoldable pub set_option : ℕ → ℤ → Config → Config
set_option opt v c =
    if opt == b'p'
    then record c { port = v }
    else if opt == b'l'
    then record c { log_write = v }
    else if opt == b'm'
    then record c { trig_mode = v }
    else if opt == b'o'
    then record c { opt_linger = v }
    else if opt == b's'
    then record c { sql_num = v }
    else if opt == b't'
    then record c { thread_num = v }
    else if opt == b'c'
    then record c { close_log = v }
    else if opt == b'a'
    then record c { actor_model = v }
    else c

unfoldable pub parse_arg : (List ℕ → ℤ) → List (ℕ × List ℕ) → Config → Config
unfolding set_option
parse_arg atoi [] c = c
parse_arg atoi ((opt, arg) ∷ rest) c = parse_arg atoi rest (set_option opt (atoi arg) c)
