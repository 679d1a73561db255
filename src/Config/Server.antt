-- ===== src/Config/Server.antt =====
-- Which configurations the command line of src/server_main.c gives.
use mini_sync.Common.{
  ◌<◌, ◌≡◌, refl, ◌≢◌, true, Option, none, some, List, [], arith, Text, codes, text_eq, length,
}
use mini_sync.Common.Ints.{ℤ, is_positive}
use mini_sync.FilePath.Target.{max_path_len}
use mini_sync.Config.{
  ServerConfig, parsed, default_server_config, server_option, server_accepts, parse_server_args,
}
use mini_sync.Config.Valid.{
  SetterKeeps, SetterKeeps-if, SetterKeeps-store, SetterKeeps-number, refused_option,
  parse_args-Good, is_empty-false,
}

-- The strings fit into their buffers.
abbrev pub FitsServer : ServerConfig → Type 0
FitsServer c = (length c.root < max_path_len) × (length c.log_path < max_path_len)

server_option-Keeps :
    (atoi : Text → ℤ) (arg : Text) (set : Text → ServerConfig → Option ServerConfig)
    → server_option atoi arg ≡ some set
    → SetterKeeps FitsServer set
unfolding server_option
server_option-Keeps atoi arg =
    SetterKeeps-if FitsServer (text_eq arg (codes "--port")) _ _
      (SetterKeeps-number FitsServer atoi (λ c n. record c { port = n }) (λ c n g. g))
      (SetterKeeps-if FitsServer (text_eq arg (codes "--root")) _ _
        (SetterKeeps-store FitsServer max_path_len (λ c v. record c { root = v })
          (λ c v short g. (short, g.1)))
        (SetterKeeps-if FitsServer (text_eq arg (codes "--log")) _ _
          (SetterKeeps-store FitsServer max_path_len (λ c v. record c { log_path = v })
            (λ c v short g. (g.0, short)))
          (refused_option FitsServer none refl)))

-- A configuration that the server starts with has a positive port, a root and a log path, and its strings fit
-- their buffers.
pub parse_server_args-IsUsable :
    (atoi : Text → ℤ) (argv : List Text) (c : ServerConfig)
    → parse_server_args atoi argv ≡ parsed c
    → (is_positive c.port ≡ true) × (c.root ≢ []) × (c.log_path ≢ []) × FitsServer c
unfolding parse_server_args server_accepts
parse_server_args-IsUsable atoi argv c e =
    let (g, ok) =
      parse_args-Good FitsServer (server_option atoi) server_accepts (server_option-Keeps atoi) argv
        none default_server_config c (λ s q. cc) (omega arith, omega arith) e in
    (
      ground (arith, ok),
      is_empty-false c.root (ground (arith, ok)),
      is_empty-false c.log_path (ground (arith, ok)),
      g,
    )
