-- ===== src/Protocol/Transport.antt =====
-- Headers and paths across a connection: what one side sends with the calls of src/net_utils.c, the other
-- side receives with them.
use mini_sync.Common.{
  Bool, ◌≢◌, ◌⊎◌, inl, inr, true, false, Bool-cases, ltb, leb, ◌==◌, ◌≤◌, ℕ, ◌+◌, ◌≤◌, ◌<◌, ◌≡◌,
  refl, ap, sym, ◌∙◌, List, [], ◌∷◌, ◌++◌, arith, Text, length, take, drop, take-append_self,
  drop-append_self, length-append, append_assoc, leb, leb→le, le→leb, ◌&&◌, if◌then◌else◌,
}
use mini_sync.Input
use mini_sync.Input.{Input, IsReadable}
use mini_sync.Output
use mini_sync.Output.{Output, IsWritable}
use mini_sync.Net.{Io, done, broken}
use mini_sync.Net.Read.{read_full_lem}
use mini_sync.Net.Write.{write_full_lem}
use mini_sync.Protocol.{
  SyncHeader, protocol_magic, validate_sync_header, header_bytes, header_of_bytes, header_size,
  send_header, recv_header, send_path, recv_path, max_net_path,
}
use mini_sync.Protocol.Wire.{IsHeader, length-header_bytes, header_of_bytes-header_bytes}

take_sent :
    (n : ℕ) (stream sent more : List ℕ)
    → stream ≡ sent ++ more
    → n ≡ length sent
    → take n stream ≡ sent
take_sent n stream sent more e k = rw (e, k) (take-append_self sent more)

drop_sent :
    (n : ℕ) (stream sent more : List ℕ)
    → stream ≡ sent ++ more
    → n ≡ length sent
    → drop n stream ≡ more
drop_sent n stream sent more e k = rw (e, k) (drop-append_self sent more)

lt_of_leb : (m n : ℕ) → leb m n ≡ false → n < m
lt_of_leb m n h = ground (arith, h)

both_true {ℓ} :
    {A : Type ℓ} (a b : Bool) (r x y : A)
    → r ≡ (if a && b then x else y)
    → a ≡ true
    → b ≡ true
    → r ≡ x
both_true a b r x y e yes_a yes_b = ground (arith, e, yes_a, yes_b)

one_false {ℓ} :
    {A : Type ℓ} (a b : Bool) (r x y : A)
    → r ≡ (if a && b then x else y)
    → (a ≡ false) ⊎ (b ≡ false)
    → r ≡ y
one_false a b r x y e (inl no_a) = ground (arith, e, no_a)
one_false true b r x y e (inr no_b) = ground (arith, e, no_b)
one_false false b r x y e (inr no_b) = e

-- What a header must have, and the ways in which it can fail to.
abbrev pub IsAcceptable : SyncHeader → Type 0
IsAcceptable h = (h.magic ≡ protocol_magic) × (h.version ≡ 1) × (h.path_len ≤ 512)

abbrev pub IsForeign : SyncHeader → Type 0
IsForeign h = (h.magic ≢ protocol_magic) ⊎ ((h.version ≢ 1) ⊎ (512 < h.path_len))

validate_sync_header-cases :
    (h : SyncHeader)
    → (IsAcceptable h × (validate_sync_header h ≡ true))
      ⊎ (IsForeign h × (validate_sync_header h ≡ false))
unfolding validate_sync_header
validate_sync_header-cases h = elim (Bool-cases (h.magic == protocol_magic)) [
  | inr other ↦ inr (inl (λ e. absurd (ground (arith, other, e))), ground (arith, other))
  | inl magic ↦ elim (Bool-cases (h.version == 1)) [
    | inr other ↦
        inr (inr (inl (λ e. absurd (ground (arith, other, e)))), ground (arith, magic, other))
    | inl version ↦ elim (Bool-cases (ltb 512 h.path_len)) [
      | inl long ↦ inr (inr (inr (ground (arith, long))), ground (arith, magic, version, long))
      | inr short ↦ inl (
        (ground (arith, magic), ground (arith, version), ground (arith, short)),
        ground (arith, magic, version, short),
      )
    ]
  ]
]

module _ (I : Input) (R : IsReadable I) (ok : Input.NeverFails I) where
  open R use {rest, retries}

  -- `recv_header` takes 64 bytes off the stream and accepts them exactly when they are a header with
  -- the magic number, the version and a path length in range; with fewer bytes to come it fails.
  pub recv_header_lem :
      (fuel : ℕ) (s : I.State)
      → length (rest s) + retries s < fuel
      → (t : I.State) × (recv_header I fuel s ≡ (
          if leb header_size (length (rest s))
            && validate_sync_header (header_of_bytes (take header_size (rest s)))
          then done (header_of_bytes (take header_size (rest s))) t
          else broken t))
        × (rest t ≡ drop header_size (rest s))
        × (retries t ≤ retries s)
  unfolding recv_header
  recv_header_lem fuel s enough =
      let (t, e, h) = read_full_lem I R ok fuel s header_size enough in
      (t, rw e (ground arith), h.rest_after, h.retries_after)

  -- `recv_header` ends, on a connection without errors and with fuel for the bytes and interruptions to
  -- come, and takes 64 bytes off the stream, or all there are. It returns the header that they are if there
  -- are 64 and the header has the magic number, version 1 and a path length of at most 512, and it fails
  -- otherwise.
  pub recv_header-IsAcceptable :
      (fuel : ℕ) (s : I.State)
      → length (rest s) + retries s < fuel
      → let h = header_of_bytes (take 64 (rest s)) in
        (t : I.State) × (rest t ≡ drop 64 (rest s))
        × (((64 ≤ length (rest s)) × IsAcceptable h × (recv_header I fuel s ≡ done h t))
            ⊎ (((length (rest s) < 64) ⊎ IsForeign h) × (recv_header I fuel s ≡ broken t)))
  recv_header-IsAcceptable fuel s enough =
      let (t, e, after, fewer) = recv_header_lem fuel s enough in
      let h = header_of_bytes (take 64 (rest s)) in
      let enough_bytes = leb 64 (length (rest s)) in
      let r = recv_header I fuel s in
      let valid = validate_sync_header h in
      (
        t,
        after,
        elim (Bool-cases enough_bytes) [
          | inr short ↦ inr (
            inl (lt_of_leb 64 (length (rest s)) short),
            one_false enough_bytes valid r (done h t) (broken t) e (inl short),
          )
          | inl long ↦ elim (validate_sync_header-cases h) [
            | inl (good, yes_valid) ↦ inl (
              leb→le 64 (length (rest s)) long,
              good,
              both_true enough_bytes valid r (done h t) (broken t) e long yes_valid,
            )
            | inr (bad, not_valid) ↦
                inr
                  (inr bad, one_false enough_bytes valid r (done h t) (broken t) e (inr not_valid))
          ]
        ],
      )

  -- A header that the peer wrote is received as it was, or refused if it does not validate.
  pub recv_header_sent :
      (fuel : ℕ) (s : I.State) (h : SyncHeader) (more : List ℕ)
      → IsHeader h
      → rest s ≡ header_bytes h ++ more
      → length (rest s) + retries s < fuel
      → (t : I.State) × (recv_header I fuel s
          ≡ (if validate_sync_header h then done h t else broken t))
        × (rest t ≡ more)
        × (retries t ≤ retries s)
  recv_header_sent fuel s h more v arrives enough =
      let (t, e, after, fewer) = recv_header_lem fuel s enough in
      let took =
        take_sent header_size (rest s) (header_bytes h) more arrives
          (sym (length-header_bytes h)) in
      (
        t,
        e
            ∙ received t h took (header_of_bytes-header_bytes h v) (
                omega (
                  arith,
                  ap length arrives,
                  length-append {0} (header_bytes h) more,
                  length-header_bytes h,
                )),
        after
            ∙ drop_sent header_size (rest s) (header_bytes h) more arrives
                (sym (length-header_bytes h)),
        fewer,
      )
    where
      received :
          (t : I.State) (g : SyncHeader)
          → take header_size (rest s) ≡ header_bytes g
          → header_of_bytes (header_bytes g) ≡ g
          → header_size ≤ length (rest s)
          → ◌≡◌ {A = Io SyncHeader I.State}
              (if leb header_size (length (rest s))
                  && validate_sync_header (header_of_bytes (take header_size (rest s)))
                then done (header_of_bytes (take header_size (rest s))) t
                else broken t)
              (if validate_sync_header g then done g t else broken t)
      received t g took back long = rw (took, back, le→leb header_size (length (rest s)) long)

  -- A path that fits the buffer is received as it was.
  pub recv_path_sent :
      (fuel : ℕ) (s : I.State) (max_len : ℕ) (path : Text) (more : List ℕ)
      → rest s ≡ path ++ more
      → length path < max_len
      → length path ≤ max_net_path
      → length (rest s) + retries s < fuel
      → (t : I.State) × (recv_path I fuel s max_len (length path) ≡ done path t)
        × (rest t ≡ more)
        × (retries t ≤ retries s)
  unfolding recv_path
  recv_path_sent fuel s max_len [] more arrives fits short enough =
      (s, ground arith, arrives, omega arith)
  recv_path_sent fuel s max_len (c ∷ path) more arrives fits short enough =
      let (t, e, h) = read_full_lem I R ok fuel s (length (c ∷ path)) enough in
      let long : length (c ∷ path) ≤ length (rest s) =
        omega (arith, ap length arrives, length-append {0} (c ∷ path) more) in
      let took = take_sent (length (c ∷ path)) (rest s) (c ∷ path) more arrives refl in
      (
        t,
        ground (arith, e, took, le→leb (length (c ∷ path)) (length (rest s)) long),
        h.rest_after ∙ drop_sent (length (c ∷ path)) (rest s) (c ∷ path) more arrives refl,
        h.retries_after,
      )

pub append_cancel : (xs ys zs : List ℕ) → xs ++ ys ≡ xs ++ zs → ys ≡ zs
append_cancel xs ys zs e =
    sym (drop-append_self xs ys) ∙ ap (drop (length xs)) e ∙ drop-append_self xs zs

module _ (O : Output) (W : IsWritable O) (writes : Output.NeverFails O) (I : Input)
    (R : IsReadable I) (reads : Input.NeverFails I) where
  -- A header that one side sends with `send_header` is what the other side receives with `recv_header`,
  -- where the connection delivers what was written: the header itself if it validates, else a refusal.
  -- The bytes that follow it on the connection are left to be read.
  pub recv_header-send_header :
      (fuel : ℕ) (o : O.State) (h : SyncHeader)
      → IsHeader h
      → header_size + W.retries o < fuel
      → (o' : O.State) × (send_header O fuel o h ≡ done tt o')
        × ((s : I.State) (more : List ℕ)
            → W.sent o ++ R.rest s ≡ W.sent o' ++ more
            → length (R.rest s) + R.retries s < fuel
            → (t : I.State) × (recv_header I fuel s
                ≡ (if validate_sync_header h then done h t else broken t))
              × (R.rest t ≡ more))
  unfolding send_header
  recv_header-send_header fuel o h v room =
      let (o', e, sent, fewer) =
        write_full_lem O W writes fuel o (header_bytes h) (omega (arith, length-header_bytes h)) in
      (
        o',
        e,
        λ s more joined enough.
            let (t, r, after, _) =
              recv_header_sent I R reads fuel s h more v
                (append_cancel (W.sent o) _ _ (
                  joined
                  ∙ ap (λ b. b ++ more) sent
                  ∙ append_assoc (W.sent o) (header_bytes h) more))
                enough in
            (t, r, after),
      )

  -- So for a path that fits: `send_path` sends it, and `recv_path`, told its length, receives it.
  pub recv_path-send_path :
      (fuel : ℕ) (o : O.State) (max_len : ℕ) (path : Text)
      → length path < max_len
      → length path ≤ max_net_path
      → length path + W.retries o < fuel
      → (o' : O.State) × (send_path O fuel o path ≡ done tt o')
        × ((s : I.State) (more : List ℕ)
            → W.sent o ++ R.rest s ≡ W.sent o' ++ more
            → length (R.rest s) + R.retries s < fuel
            → (t : I.State) × (recv_path I fuel s max_len (length path) ≡ done path t)
              × (R.rest t ≡ more))
  unfolding send_path
  recv_path-send_path fuel o max_len path fits short room =
      let (o', e, sent, fewer) = write_full_lem O W writes fuel o path room in
      (
        o',
        ground (arith, e),
        λ s more joined enough.
            let (t, r, after, _) =
              recv_path_sent I R reads fuel s max_len path more
                (append_cancel (W.sent o) _ _
                  (joined ∙ ap (λ b. b ++ more) sent ∙ append_assoc (W.sent o) path more))
                fits short enough in
            (t, r, after),
      )
