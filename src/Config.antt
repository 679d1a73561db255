-- ===== src/Config.antt =====
-- The command lines: init_default_config, next_arg and parse_client_args of src/client_main.c,
-- init_default_server_config and parse_server_args of src/server_main.c, with ClientConfig and
-- ServerConfig of include/common.h. atoi and atoll are library calls: the number of a word is a parameter,
-- and conversions that overflow are left to it.
pub mod Valid
pub mod Round
pub mod Server
use mini_sync.Common.{
  ℕ, zero, suc, Bool, true, false, not, ◌&&◌, ◌||◌, Option, none, some, List, [], ◌∷◌, Text, codes,
  text_eq, Text-discrete, length, ltb, ◌==◌, if◌then◌else◌,
}
use mini_sync.Common.Ints.{ℤ, pos, is_positive}
use mini_sync.FilePath.{fits}
use mini_sync.FilePath.Target.{max_path_len}

abbrev pub mode_local : ℕ
mode_local = 1

abbrev pub mode_remote : ℕ
mode_remote = 2

pub record ClientConfig : Type 0 where
  pub mode : ℕ
  pub src_root : Text
  pub dst_root : Text
  pub server_ip : Text
  pub port : ℤ
  pub thread_count : ℤ
  pub block_size : ℤ
  pub debounce_ms : ℤ
  pub hash_threshold : ℤ
  pub log_path : Text

pub record ServerConfig : Type 0 where
  pub port : ℤ
  pub root : Text
  pub log_path : Text

-- What a parser returns: 0 with the configuration, 1 for `--help`, -1.
pub data Parsed (C : Type 0) : Type 0 where
  parsed : C → Parsed C
  help : Parsed C
  refused : Parsed C

-- `init_default_config`
abbrev pub default_config : ClientConfig
default_config = record {
  mode = 0;
  src_root = [];
  dst_root = [];
  server_ip = codes "127.0.0.1";
  port = pos 9000;
  thread_count = pos 4;
  block_size = pos 4096;
  debounce_ms = pos 1500;
  hash_threshold = pos 10485760;
  log_path = codes "./logs/client.log";
}

-- `init_default_server_config`
abbrev pub default_server_config : ServerConfig
default_server_config = record {
  port = pos 9000;
  root = codes "./server_backup";
  log_path = codes "./logs/server.log";
}

abbrev pub max_ip_len : ℕ
max_ip_len = 64

-- The value that follows `--mode`.
unfoldable pub set_mode : Text → ClientConfig → Option ClientConfig
unfolding Text-discrete
set_mode value c =
    if text_eq value (codes "local")
    then some (record c { mode = mode_local })
    else if text_eq value (codes "remote")
    then some (record c { mode = mode_remote })
    else none

-- A value that a buffer of `size` bytes takes, or the refusal of one that is cut.
abbrev pub store : {C : Type 0} → ℕ → (Text → C) → Text → Option C
store size set value = if ltb (length value) size then some (set value) else none

-- The branch of an option that takes a value; `none` for a name that is none of them.
unfoldable pub client_option :
    (atoi atoll : Text → ℤ) → Text → Option (Text → ClientConfig → Option ClientConfig)
unfolding set_mode Text-discrete
client_option atoi atoll arg =
    if text_eq arg (codes "--mode")
    then some set_mode
    else if text_eq arg (codes "--src")
    then some (λ value c. store max_path_len (λ v. record c { src_root = v }) value)
    else if text_eq arg (codes "--dst")
    then some (λ value c. store max_path_len (λ v. record c { dst_root = v }) value)
    else if text_eq arg (codes "--server")
    then some (λ value c. store max_ip_len (λ v. record c { server_ip = v }) value)
    else if text_eq arg (codes "--port")
    then some (λ value c. some (record c { port = atoi value }))
    else if text_eq arg (codes "--threads")
    then some (λ value c. some (record c { thread_count = atoi value }))
    else if text_eq arg (codes "--block-size")
    then some (λ value c. some (record c { block_size = atoi value }))
    else if text_eq arg (codes "--hash-threshold")
    then some (λ value c. some (record c { hash_threshold = atoll value }))
    else if text_eq arg (codes "--debounce-ms")
    then some (λ value c. some (record c { debounce_ms = atoi value }))
    else if text_eq arg (codes "--log")
    then some (λ value c. store max_path_len (λ v. record c { log_path = v }) value)
    else none

abbrev pub is_empty : Text → Bool
is_empty [] = true
is_empty (_ ∷ _) = false

-- The tests that follow the loop; true if all are passed.
unfoldable pub client_accepts : ClientConfig → Bool
client_accepts c =
    if not (c.mode == mode_local) && not (c.mode == mode_remote)
    then false
    else if is_empty c.src_root
    then false
    else if (c.mode == mode_local) && is_empty c.dst_root
    then false
    else if (c.mode == mode_remote) && (is_empty c.server_ip || not (is_positive c.port))
    then false
    else if not (is_positive c.thread_count)
        || (not (is_positive c.block_size)
            || (not (is_positive c.debounce_ms) || not (is_positive c.hash_threshold)))
    then false
    else true

-- The branch of an option of the server.
unfoldable pub server_option :
    (atoi : Text → ℤ) → Text → Option (Text → ServerConfig → Option ServerConfig)
unfolding Text-discrete
server_option atoi arg =
    if text_eq arg (codes "--port")
    then some (λ value c. some (record c { port = atoi value }))
    else if text_eq arg (codes "--root")
    then some (λ value c. store max_path_len (λ v. record c { root = v }) value)
    else if text_eq arg (codes "--log")
    then some (λ value c. store max_path_len (λ v. record c { log_path = v }) value)
    else none

unfoldable pub server_accepts : ServerConfig → Bool
server_accepts c =
    if not (is_positive c.port) || (is_empty c.root || is_empty c.log_path) then false else true

-- The loop of both parsers over the words that are left, with the branch of each option. The last
-- argument is the option that waits for its value, which `next_arg` takes from the words.
unfoldable pub parse_args :
    {C : Type 0}
    → (option : Text → Option (Text → C → Option C)) → (accepts : C → Bool)
    → (waiting : Option (Text → C → Option C)) → List Text
    → C
    → Parsed C
unfolding Text-discrete
parse_args option accepts none [] c = if accepts c then parsed c else refused
parse_args option accepts (some set) [] c = refused
parse_args option accepts (some set) (value ∷ words) c = elim (set value c) [
  | none ↦ refused
  | some c' ↦ parse_args option accepts none words c'
]
parse_args option accepts none (arg ∷ words) c =
    if text_eq arg (codes "--help") then help else elim (option arg) [
      | none ↦ refused
      | some set ↦ parse_args option accepts (some set) words c
    ]

-- `argv` without the name of the program.
unfoldable pub parse_client_args : (atoi atoll : Text → ℤ) → List Text → Parsed ClientConfig
unfolding parse_args client_option client_accepts
parse_client_args atoi atoll argv =
    parse_args (client_option atoi atoll) client_accepts none argv default_config

unfoldable pub parse_server_args : (atoi : Text → ℤ) → List Text → Parsed ServerConfig
unfolding parse_args server_option server_accepts
parse_server_args atoi argv =
    parse_args (server_option atoi) server_accepts none argv default_server_config
