-- ===== src/Config/Valid.antt =====
-- Which configurations the command lines of src/client_main.c and src/server_main.c give.
use mathlib.Core.Path.{subst}
use mini_sync.Common.{
  ℕ, ◌<◌, ◌≡◌, refl, ◌≢◌, ◌⊎◌, sym, ap, ◌∙◌, inl, inr, Bool, true, false, Option, none, some, List,
  [], ◌∷◌, arith, Text, codes, text_eq, length, ltb, ltb→lt, ◌==◌, if◌then◌else◌, Bool-cases,
  Option-cases,
}
use mini_sync.Common.Ints.{ℤ, is_positive}
use mini_sync.FilePath.Target.{max_path_len}
use mini_sync.Config.{
  mode_local, mode_remote, ClientConfig, parsed, refused, default_config, max_ip_len, set_mode,
  store, client_option, is_empty, client_accepts, parse_args, parse_client_args,
}

-- The strings fit into their buffers.
abbrev pub Fits : ClientConfig → Type 0
Fits c =
    (length c.src_root < max_path_len)
    × (length c.dst_root < max_path_len)
    × (length c.server_ip < max_ip_len)
    × (length c.log_path < max_path_len)

-- Setting a value keeps a property of the configuration.
abbrev pub SetterKeeps : {C : Type 0} → (C → Type 0) → (Text → C → Option C) → Type 0
SetterKeeps {C} Good set = (value : Text) (c c' : C) → set value c ≡ some c' → Good c → Good c'

-- So for what each option sets.
abbrev pub Keeps : {C : Type 0} → (C → Type 0) → (Text → Option (Text → C → Option C)) → Type 0
Keeps {C} Good option =
    (arg : Text) (set : Text → C → Option C) → option arg ≡ some set → SetterKeeps Good set

module _ {C : Type 0} (Good : C → Type 0) (option : Text → Option (Text → C → Option C))
    (accepts : C → Bool) (keeps : Keeps Good option) where
  abbrev Results : C → Type 0
  Results c' = Good c' × (accepts c' ≡ true)

  end_of_words :
      (c c' : C) → Good c → (if accepts c then parsed c else refused) ≡ parsed c' → Results c'
  end_of_words c c' g e = elim (Bool-cases (accepts c)) [
    | inl yes_ ↦
        let same : c ≡ c' = ground (arith, yes_) in
        (subst Good same g, ap accepts (sym same) ∙ yes_)
    | inr no_ ↦ absurd (ground (arith, no_))
  ]

  -- A configuration that the loop gives is accepted, and has what the options keep.
  pub parse_args-Good :
      (words : List Text) (waiting : Option (Text → C → Option C)) (c c' : C)
      → ((set : Text → C → Option C) → waiting ≡ some set → SetterKeeps Good set)
      → Good c
      → parse_args option accepts waiting words c ≡ parsed c'
      → Results c'
  unfolding parse_args
  parse_args-Good [] none c c' w g e = end_of_words c c' g e
  parse_args-Good [] (some set) c c' w g e = cc
  parse_args-Good (value ∷ words) (some set) c c' w g e = elim (Option-cases (set value c)) [
    | inl bad ↦ absurd (ground (arith, bad))
    | inr (d, at) ↦
        parse_args-Good words none d c' (λ s q. cc) (w set refl value c d at g) (ground (arith, at))
  ]
  parse_args-Good (arg ∷ words) none c c' w g e = elim (Bool-cases (text_eq arg (codes "--help"))) [
    | inl asked ↦ absurd (ground (arith, asked))
    | inr other ↦ elim (Option-cases (option arg)) [
      | inl bad ↦ absurd (ground (arith, other, bad))
      | inr (set, at) ↦
          parse_args-Good words (some set) c c' (λ s q. keeps arg s (at ∙ q)) g
            (ground (arith, other, at))
    ]
  ]

pub SetterKeeps-if :
    {C : Type 0} (Good : C → Type 0) (b : Bool) (x : Text → C → Option C)
    (rest : Option (Text → C → Option C))
    → SetterKeeps Good x
    → ((set : Text → C → Option C) → rest ≡ some set → SetterKeeps Good set)
    → (set : Text → C → Option C) → (if b then some x else rest) ≡ some set
    → SetterKeeps Good set
SetterKeeps-if Good true x rest kx kr set e =
    let same : x ≡ set = cc in subst (SetterKeeps Good) same kx
SetterKeeps-if Good false x rest kx kr set e = kr set e

-- What storing a string of at most `size` bytes keeps.
pub SetterKeeps-store :
    {C : Type 0} (Good : C → Type 0) (size : ℕ) (write : C → Text → C)
    → ((c : C) (v : Text) → length v < size → Good c → Good (write c v))
    → SetterKeeps Good (λ value c. store size (write c) value)
SetterKeeps-store Good size write keeps value c c' e g =
    elim (Bool-cases (ltb (length value) size)) [
      | inl fits ↦
          let same : write c value ≡ c' = ground (arith, fits) in
          subst Good same (keeps c value (ltb→lt (length value) size fits) g)
      | inr long ↦ absurd (ground (arith, long))
    ]

-- So does a number.
pub SetterKeeps-number :
    {C : Type 0} (Good : C → Type 0) (number : Text → ℤ) (write : C → ℤ → C)
    → ((c : C) (n : ℤ) → Good c → Good (write c n))
    → SetterKeeps Good (λ value c. some (write c (number value)))
SetterKeeps-number Good number write keeps value c c' e g =
    let same : write c (number value) ≡ c' = cc in subst Good same (keeps c (number value) g)

pub refused_option :
    {C : Type 0} (Good : C → Type 0) (rest : Option (Text → C → Option C))
    → rest ≡ none
    → (set : Text → C → Option C) → rest ≡ some set
    → SetterKeeps Good set
refused_option Good rest missing set e = absurd (cc)

set_mode-Fits : SetterKeeps Fits set_mode
unfolding set_mode
set_mode-Fits value c c' e g = elim (Bool-cases (text_eq value (codes "local"))) [
  | inl here ↦
      let same : record c { mode = mode_local } ≡ c' = ground (arith, here) in subst Fits same g
  | inr away ↦ elim (Bool-cases (text_eq value (codes "remote"))) [
    | inl there ↦
        let same : record c { mode = mode_remote } ≡ c' = ground (arith, away, there) in
        subst Fits same g
    | inr bad ↦ absurd (ground (arith, away, bad))
  ]
]

module _ (atoi atoll : Text → ℤ) (arg : Text) where
  number_option :
      (number : Text → ℤ) (name : Text) (write : ClientConfig → ℤ → ClientConfig)
      (rest : Option (Text → ClientConfig → Option ClientConfig))
      → ((c : ClientConfig) (n : ℤ) → Fits c → Fits (write c n))
      → ((set : Text → ClientConfig → Option ClientConfig) → rest ≡ some set → SetterKeeps Fits set)
      → (set : Text → ClientConfig → Option ClientConfig)
      → (if text_eq arg name then some (λ value c. some (write c (number value))) else rest)
        ≡ some set
      → SetterKeeps Fits set
  number_option number name write rest keeps =
      SetterKeeps-if Fits (text_eq arg name) _ rest (SetterKeeps-number Fits number write keeps)

  string_option :
      (size : ℕ) (name : Text) (write : ClientConfig → Text → ClientConfig)
      (rest : Option (Text → ClientConfig → Option ClientConfig))
      → ((c : ClientConfig) (v : Text) → length v < size → Fits c → Fits (write c v))
      → ((set : Text → ClientConfig → Option ClientConfig) → rest ≡ some set → SetterKeeps Fits set)
      → (set : Text → ClientConfig → Option ClientConfig)
      → (if text_eq arg name then some (λ value c. store size (write c) value) else rest) ≡ some set
      → SetterKeeps Fits set
  string_option size name write rest keeps =
      SetterKeeps-if Fits (text_eq arg name) _ rest (SetterKeeps-store Fits size write keeps)

  client_option-Keeps :
      (set : Text → ClientConfig → Option ClientConfig)
      → client_option atoi atoll arg ≡ some set
      → SetterKeeps Fits set
  unfolding client_option
  client_option-Keeps =
      SetterKeeps-if Fits (text_eq arg (codes "--mode")) set_mode _ set_mode-Fits (
        string_option max_path_len (codes "--src") (λ c v. record c { src_root = v }) _
          (λ c v short g. (short, g.1, g.2, g.3))
          (string_option max_path_len (codes "--dst") (λ c v. record c { dst_root = v }) _
            (λ c v short g. (g.0, short, g.2, g.3))
            (string_option max_ip_len (codes "--server") (λ c v. record c { server_ip = v }) _
              (λ c v short g. (g.0, g.1, short, g.3))
              (number_option atoi (codes "--port") (λ c n. record c { port = n }) _ (λ c n g. g)
                (number_option atoi (codes "--threads") (λ c n. record c { thread_count = n }) _
                  (λ c n g. g)
                  (number_option atoi (codes "--block-size") (λ c n. record c { block_size = n }) _
                    (λ c n g. g)
                    (number_option atoll (codes "--hash-threshold")
                      (λ c n. record c { hash_threshold = n }) _ (λ c n g. g)
                      (number_option atoi (codes "--debounce-ms")
                        (λ c n. record c { debounce_ms = n }) _ (λ c n g. g)
                        (string_option max_path_len (codes "--log")
                          (λ c v. record c { log_path = v }) _
                          (λ c v short g. (g.0, g.1, g.2, short))
                          (refused_option Fits none refl))))))))))

-- What the client relies on.
pub record IsUsable (c : ClientConfig) : Type 0 where
  pub has_source : c.src_root ≢ []
  pub has_target :
      ((c.mode ≡ mode_local) × (c.dst_root ≢ []))
      ⊎ ((c.mode ≡ mode_remote) × (c.server_ip ≢ []) × (is_positive c.port ≡ true))
  pub some_threads : is_positive c.thread_count ≡ true
  pub some_block : is_positive c.block_size ≡ true
  pub some_delay : is_positive c.debounce_ms ≡ true
  pub some_threshold : is_positive c.hash_threshold ≡ true
  pub fits : Fits c

pub is_empty-false : (t : Text) → is_empty t ≡ false → t ≢ []
is_empty-false [] h = cc
is_empty-false (x ∷ t) h = λ e. cc

client_accepts-IsUsable : (c : ClientConfig) → Fits c → client_accepts c ≡ true → IsUsable c
unfolding client_accepts
client_accepts-IsUsable c g h = record {
  has_source = is_empty-false c.src_root (ground (arith));
  has_target = elim (Bool-cases (c.mode == mode_local)) [
    | inl here ↦ inl (ground (arith, here), is_empty-false c.dst_root (ground (arith, here)))
    | inr away ↦ inr (
      ground (arith, away),
      is_empty-false c.server_ip (ground (arith, away)),
      ground (arith, away),
    )
  ];
  some_threads = ground arith;
  some_block = ground arith;
  some_delay = ground arith;
  some_threshold = ground arith;
  fits = g;
}

-- Whatever the words are and however numbers are read, a configuration that the client starts with names a
-- source, and either the local mode and a target directory or the remote mode, a server and a positive port;
-- its thread count, block size, delay and threshold are positive, and its strings fit their buffers.
pub parse_client_args-IsUsable :
    (atoi atoll : Text → ℤ) (argv : List Text) (c : ClientConfig)
    → parse_client_args atoi atoll argv ≡ parsed c
    → IsUsable c
unfolding parse_client_args
parse_client_args-IsUsable atoi atoll argv c e =
    let (g, ok) =
      parse_args-Good Fits (client_option atoi atoll) client_accepts
        (client_option-Keeps atoi atoll) argv none default_config c (λ s q. cc)
        (omega arith, omega arith, omega arith, omega arith) e in
    client_accepts-IsUsable c g ok
