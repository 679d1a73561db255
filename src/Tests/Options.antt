-- ===== src/Tests/Options.antt =====
-- The command lines of src/client_main.c and src/server_main.c at concrete words.
use mini_sync.Common.{
  ℕ, zero, suc, ◌+◌, ◌-◌, ◌*◌, ◌/◌, ◌%◌, ◌≡◌, refl, inl, List, [], ◌∷◌, ◌++◌, arith, Text, codes,
  Text-discrete, if◌then◌else◌, ltb,
}
use mini_sync.Common.Ints.{ℤ, pos, negsuc}
use mini_sync.Config.{
  ClientConfig, ServerConfig, parsed, help, refused, default_config, default_server_config,
  parse_args, client_option, client_accepts, server_option, server_accepts, parse_client_args,
  parse_server_args,
}
use mini_sync.Config.Valid.{IsUsable, parse_client_args-IsUsable}
use mini_sync.Config.Round.{client_words, parse_client_args-client_words}

-- A reading of decimal numbers without a sign, and their digits.
abbrev value_of : ℕ → Text → ℕ
value_of acc [] = acc
value_of acc (c ∷ t) = value_of (acc * 10 + (c - b'0')) t

abbrev number_of : Text → ℤ
number_of t = pos (value_of 0 t)

abbrev digits_of : ℕ → ℕ → Text
digits_of zero n = []
digits_of (suc fuel) n =
    let rest = digits_of fuel (n / 10) in
    if ltb n 10 then (b'0' + n) ∷ [] else rest ++ ((b'0' + n % 10) ∷ [])

abbrev digits : ℤ → Text
digits (pos n) = digits_of 20 n
digits (negsuc n) = b'-' ∷ digits_of 20 (n + 1)

abbrev local_words : List Text
local_words =
    codes "--mode"
    ∷ codes "local"
    ∷ codes "--src"
    ∷ codes "a"
    ∷ codes "--dst"
    ∷ codes "b"
    ∷ codes "--threads"
    ∷ codes "8"
    ∷ []

abbrev local_config : ClientConfig
local_config = record default_config {
  mode = 1;
  src_root = codes "a";
  dst_root = codes "b";
  thread_count = pos 8;
}

local_words-parsed : parse_client_args number_of number_of local_words ≡ parsed local_config
unfolding parse_client_args parse_args client_option client_accepts Text-discrete
local_words-parsed = refl

-- A missing value, a help request and a wrong mode.
other_words :
    (parse_client_args number_of number_of (codes "--mode" ∷ []) ≡ refused)
    × (parse_client_args number_of number_of (codes "--help" ∷ codes "--x" ∷ []) ≡ help)
    × (parse_client_args number_of number_of (codes "--mode" ∷ codes "both" ∷ []) ≡ refused)
    × (parse_client_args number_of number_of (codes "--src" ∷ codes "--help" ∷ []) ≡ refused)
unfolding parse_client_args parse_args client_option client_accepts Text-discrete
other_words = (refl, refl, refl, refl)

client-IsUsable_example : IsUsable local_config
client-IsUsable_example =
    parse_client_args-IsUsable number_of number_of local_words local_config local_words-parsed

client_words_example :
    parse_client_args number_of number_of (client_words digits local_config)
    ≡ (if client_accepts local_config then parsed local_config else refused)
client_words_example =
    parse_client_args-client_words number_of number_of digits local_config
      (refl, refl, refl, refl, refl) (inl refl) (omega arith, omega arith, omega arith, omega arith)

abbrev server_config : ServerConfig
server_config = record default_server_config { port = pos 80 }

server_words-parsed :
    parse_server_args number_of (codes "--port" ∷ codes "80" ∷ []) ≡ parsed server_config
unfolding parse_server_args parse_args server_option server_accepts Text-discrete
server_words-parsed = refl
