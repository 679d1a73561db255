-- ===== src/Config/Round.antt =====
-- The command line that sets every field of a configuration of src/client_main.c, and what the parser
-- makes of it.
use mini_sync.Common.{
  ℕ, ◌<◌, ◌≡◌, refl, ◌⊎◌, ap, ◌∙◌, inl, inr, false, Option, none, some, List, [], ◌∷◌, arith, Text,
  codes, text_eq, Text-discrete, length, lt→ltb, ◌==◌, if◌then◌else◌,
}
use mini_sync.Common.Ints.{ℤ}
use mini_sync.FilePath.Target.{max_path_len}
use mini_sync.Config.{
  mode_local, mode_remote, ClientConfig, parsed, refused, default_config, max_ip_len, set_mode,
  store, client_option, client_accepts, parse_args, parse_client_args,
}
use mini_sync.Config.Valid.{Fits}

abbrev pub mode_name : ℕ → Text
mode_name m = if m == mode_local then codes "local" else codes "remote"

-- One option for each field; `digits` writes a number.
abbrev pub client_words : (digits : ℤ → Text) → ClientConfig → List Text
client_words digits c =
    codes "--mode"
    ∷ mode_name c.mode
    ∷ codes "--src"
    ∷ c.src_root
    ∷ codes "--dst"
    ∷ c.dst_root
    ∷ codes "--server"
    ∷ c.server_ip
    ∷ codes "--port"
    ∷ digits c.port
    ∷ codes "--threads"
    ∷ digits c.thread_count
    ∷ codes "--block-size"
    ∷ digits c.block_size
    ∷ codes "--hash-threshold"
    ∷ digits c.hash_threshold
    ∷ codes "--debounce-ms"
    ∷ digits c.debounce_ms
    ∷ codes "--log"
    ∷ c.log_path
    ∷ []

module _ (atoi atoll : Text → ℤ) (digits : ℤ → Text) where
  -- The numbers of a configuration are read as they are written.
  abbrev pub ReadsNumbers : ClientConfig → Type 0
  ReadsNumbers c =
      (atoi (digits c.port) ≡ c.port)
      × (atoi (digits c.thread_count) ≡ c.thread_count)
      × (atoi (digits c.block_size) ≡ c.block_size)
      × (atoi (digits c.debounce_ms) ≡ c.debounce_ms)
      × (atoll (digits c.hash_threshold) ≡ c.hash_threshold)

  -- One step of the loop, for an option and its value.
  option_step :
      (arg value : Text) (words : List Text) (set : Text → ClientConfig → Option ClientConfig)
      (c d : ClientConfig)
      → text_eq arg (codes "--help") ≡ false
      → client_option atoi atoll arg ≡ some set
      → set value c ≡ some d
      → parse_args (client_option atoi atoll) client_accepts none (arg ∷ value ∷ words) c
        ≡ parse_args (client_option atoi atoll) client_accepts none words d
  unfolding parse_args
  option_step arg value words set c d other at done = ground (arith, other, at, done)

  store-fits :
      {C : Type 0} (size : ℕ) (write : Text → C) (v : Text)
      → length v < size
      → store size write v ≡ some (write v)
  store-fits size write v short = ground (arith, lt→ltb (length v) size short)

  set_mode-mode_name :
      (m : ℕ) (c : ClientConfig)
      → (m ≡ mode_local) ⊎ (m ≡ mode_remote)
      → set_mode (mode_name m) c ≡ some (record c { mode = m })
  unfolding set_mode Text-discrete
  set_mode-mode_name m c (inl here) = rw here refl
  set_mode-mode_name m c (inr away) = rw away refl

  -- The loop over the words of a configuration, from any other one, ends with it.
  parse_args-client_words :
      (c d : ClientConfig)
      → ReadsNumbers c
      → (c.mode ≡ mode_local) ⊎ (c.mode ≡ mode_remote)
      → Fits c
      → parse_args (client_option atoi atoll) client_accepts none (client_words digits c) d
        ≡ parse_args (client_option atoi atoll) client_accepts none [] c
  unfolding client_option Text-discrete
  parse_args-client_words c d r m g =
      let d1 = record d { mode = c.mode } in
      let d2 = record d1 { src_root = c.src_root } in
      let d3 = record d2 { dst_root = c.dst_root } in
      let d4 = record d3 { server_ip = c.server_ip } in
      let d5 = record d4 { port = c.port } in
      let d6 = record d5 { thread_count = c.thread_count } in
      let d7 = record d6 { block_size = c.block_size } in
      let d8 = record d7 { hash_threshold = c.hash_threshold } in
      let d9 = record d8 { debounce_ms = c.debounce_ms } in
      option_step (codes "--mode") _ _ _ d d1 refl refl (set_mode-mode_name c.mode d m)
      ∙ option_step (codes "--src") _ _ _ d1 d2 refl refl
          (store-fits max_path_len (λ v. record d1 { src_root = v }) c.src_root g.0)
      ∙ option_step (codes "--dst") _ _ _ d2 d3 refl refl
          (store-fits max_path_len (λ v. record d2 { dst_root = v }) c.dst_root g.1)
      ∙ option_step (codes "--server") _ _ _ d3 d4 refl refl
          (store-fits max_ip_len (λ v. record d3 { server_ip = v }) c.server_ip g.2)
      ∙ option_step (codes "--port") _ _ _ d4 d5 refl refl
          (ap (λ n. some (record d4 { port = n })) r.0)
      ∙ option_step (codes "--threads") _ _ _ d5 d6 refl refl
          (ap (λ n. some (record d5 { thread_count = n })) r.1)
      ∙ option_step (codes "--block-size") _ _ _ d6 d7 refl refl
          (ap (λ n. some (record d6 { block_size = n })) r.2)
      ∙ option_step (codes "--hash-threshold") _ _ _ d7 d8 refl refl
          (ap (λ n. some (record d7 { hash_threshold = n })) r.4)
      ∙ option_step (codes "--debounce-ms") _ _ _ d8 d9 refl refl
          (ap (λ n. some (record d8 { debounce_ms = n })) r.3)
      ∙ option_step (codes "--log") _ _ _ d9 c refl refl
          (store-fits max_path_len (λ v. record d9 { log_path = v }) c.log_path g.3)

  -- Where atoi and atoll read its numbers as `digits` writes them, the words of a configuration whose mode is
  -- one of the two and whose strings fit their buffers are parsed into it if the tests of its values are passed, and refused
  -- if not; nothing of the defaults remains.
  pub parse_client_args-client_words :
      (c : ClientConfig)
      → ReadsNumbers c
      → (c.mode ≡ mode_local) ⊎ (c.mode ≡ mode_remote)
      → Fits c
      → parse_client_args atoi atoll (client_words digits c)
        ≡ (if client_accepts c then parsed c else refused)
  unfolding parse_client_args parse_args
  parse_client_args-client_words c r m g = parse_args-client_words c default_config r m g
