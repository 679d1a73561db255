-- ===== src/FileOps/Copy.antt =====
-- copy_file_plain of src/file_utils.c: the two loops, and what they leave in the target.
use mini_sync.Common.{
  none, ℕ, zero, suc, ◌+◌, ◌≤◌, ◌<◌, ◌≡◌, refl, ◌≢◌, ap, sym, ◌∙◌, Bool, true, false, some, List,
  [], ◌∷◌, ◌++◌, arith, Text, length, take, drop, length-append, length-drop, append_assoc,
  append-nil, take-append-drop, ◌==◌, Option-cases, inl, inr,
}
use mini_sync.Input.{ReadReply, got}
use mini_sync.Output.{WriteReply, wrote}
use mini_sync.Net.{Io, done, broken, out_of_fuel}
use mini_sync.FileSystem.{FileSystem, IsFileSystem, Same, SameBut}
use mini_sync.FileOps.{
  write_reply, write_piece, copy_reply, copy_loop, sync_copy, copy_into, copy_file_plain,
  ensure_parent_dir_exists, step_of,
}
use mini_sync.FileOps.Outcome.{Outcome, Outcome-and_then}
use mini_sync.FileOps.Directories.{Keeps, ensure_parent_dir_exists-Keeps}

module _ (F : FileSystem) (L : IsFileSystem F) where
  open L use {content, Sole, retries, readable}

  -- Only the file `p` may have changed.
  abbrev pub Only : Text → F.State → F.State → Type 0
  Only p s t = SameBut content Sole p s t × (retries t ≤ retries s)

  pub Only-trans : (p : Text) (s t u : F.State) → Only p s t → Only p t u → Only p s u
  Only-trans p s t u (h, m) (k, n) = ((λ q sole ne. k q sole ne ∙ h q sole ne), omega arith)

  pub Only-of_Keeps : (p : Text) (s t : F.State) → Keeps F L s t → Only p s t
  Only-of_Keeps p s t (h, m) = ((λ q sole ne. h q), m)

  -- The file `p` has these bytes, and no other may have changed.
  abbrev pub Has : Text → List ℕ → F.State → F.State → Type 0
  Has p b s t = (content t p ≡ some b) × Only p s t

  Has-trans : (p : Text) (b : List ℕ) (s t u : F.State) → Only p s t → Has p b t u → Has p b s u
  Has-trans p b s t u k (h, l) = (h, Only-trans p s t u k l)

  write-Only : (s : F.State) (p : Text) (bs : List ℕ) → Only p s (F.write s p bs).1
  write-Only s p bs = (L.write-SameBut s p bs, L.retries-write s p bs)

  abbrev Wrote : Text → F.State → List ℕ → Io (Unit {0}) F.State → Type 0
  Wrote p s b r = Outcome (Has p b s) (Only p s) r

  Wrote-trans :
      (p : Text) (s t : F.State) (b : List ℕ) (r : Io (Unit {0}) F.State)
      → Only p s t
      → Wrote p t b r
      → Wrote p s b r
  Wrote-trans p s t b (done _ u) k h = Has-trans p b s t u k h
  Wrote-trans p s t b (broken u) k h = Only-trans p s t u k h
  Wrote-trans p s t b out_of_fuel k h = h

  write_reply_lem :
      (fuel : ℕ) (p : Text) (s t : F.State) (bytes b : List ℕ) (reply : WriteReply)
      → ((u : F.State) (bs c : List ℕ)
          → content u p ≡ some c
          → length bs + retries u < fuel
          → Wrote p u (c ++ bs) (write_piece F fuel p u bs))
      → content s p ≡ some b
      → length bytes + retries s < suc fuel
      → 0 < length bytes
      → F.write s p bytes ≡ (reply, t)
      → Only p s t
      → Wrote p s (b ++ bytes) (write_reply F (write_piece F fuel p) bytes (reply, t))
  write_reply_lem fuel p s t bytes b (wrote zero) next at enough some_bytes e k =
      let fewer = L.retries-wrote_zero s t p bytes some_bytes e in
      let same : content t p ≡ some b =
        L.write-content s t p bytes b 0 e at ∙ ap some (append-nil b) in
      Wrote-trans p s t (b ++ bytes) (write_piece F fuel p t bytes) k
        (next t bytes b same (omega (arith, fewer)))
  write_reply_lem fuel p s t bytes b (wrote (suc n)) next at enough some_bytes e k =
      let more = L.write-content s t p bytes b (suc n) e at in
      let rest = drop (suc n) bytes in
      let whole : (b ++ take (suc n) bytes) ++ rest ≡ b ++ bytes =
        append_assoc b (take (suc n) bytes) rest
        ∙ ap (λ x. b ++ x) (take-append-drop (suc n) bytes) in
      Wrote-trans p s t (b ++ bytes) (write_piece F fuel p t rest) k (
        rw (← whole) (
          next t rest (b ++ take (suc n) bytes) more
            (omega (arith, k.1, length-drop (suc n) bytes, L.write_at_most s t p bytes (suc n) e))))
  write_reply_lem fuel p s t bytes b WriteReply.interrupted next at enough some_bytes e k =
      let fewer = L.retries-interrupted s t p bytes e in
      Wrote-trans p s t (b ++ bytes) (write_piece F fuel p t bytes) k
        (next t bytes b (L.write_interrupted s t p bytes e ∙ at) (omega (arith, fewer)))
  write_reply_lem fuel p s t bytes b WriteReply.again next at enough some_bytes e k = k
  write_reply_lem fuel p s t bytes b WriteReply.failed next at enough some_bytes e k = k

  write_piece_lem :
      (fuel : ℕ) (p : Text) (s : F.State) (bytes b : List ℕ)
      → content s p ≡ some b
      → length bytes + retries s < fuel
      → Wrote p s (b ++ bytes) (write_piece F fuel p s bytes)
  unfolding write_piece
  write_piece_lem zero p s bytes b at enough = absurd (omega arith)
  write_piece_lem (suc fuel) p s [] b at enough =
      (at ∙ ap some (sym (append-nil b)), ((λ q sole ne. refl), omega arith))
  write_piece_lem (suc fuel) p s (c ∷ bytes) b at enough = rw suc-ne-zero (
      write_reply_lem fuel p s (F.write s p (c ∷ bytes)).1 (c ∷ bytes) b (F.write s p (c ∷ bytes)).0
        (λ u bs d at' enough'. write_piece_lem fuel p u bs d at' enough') at enough (omega arith)
        refl (write-Only s p (c ∷ bytes)))
    where
      suc-ne-zero : (suc (length bytes) == 0) ≡ false
      suc-ne-zero = ground arith

  copy_reply_lem :
      (write_fuel fuel : ℕ) (p : Text) (i j : F.input.State) (s : F.State) (b : List ℕ)
      (reply : ReadReply)
      → ((k : F.input.State) (u : F.State) (c : List ℕ)
          → content u p ≡ some c
          → length (readable.rest k) + readable.retries k < fuel
          → length (readable.rest k) + retries u < write_fuel
          → Wrote p u (c ++ readable.rest k) (copy_loop F write_fuel fuel p k u))
      → content s p ≡ some b
      → length (readable.rest i) + readable.retries i < suc fuel
      → length (readable.rest i) + retries s < write_fuel
      → F.input.read i 8192 ≡ (reply, j)
      → Wrote p s
          (b ++ readable.rest i)
          (copy_reply F (copy_loop F write_fuel fuel p) (write_piece F write_fuel p) s (reply, j))
  copy_reply_lem write_fuel fuel p i j s b ReadReply.interrupted next at enough room e =
      let same = readable.rest-interrupted i j 8192 e in
      let fewer = readable.retries-interrupted i j 8192 e in
      rw (← same)
        (next j s b at (omega (arith, ap length same, fewer)) (omega (arith, ap length same)))
  copy_reply_lem write_fuel fuel p i j s b ReadReply.failed next at enough room e =
      ((λ q sole ne. refl), omega arith)
  copy_reply_lem write_fuel fuel p i j s b (got []) next at enough room e =
      let over = readable.got_end i j 8192 (omega arith) e in
      (
        at ∙ ap some (sym (append-nil b) ∙ ap (λ x. b ++ x) (sym over)),
        ((λ q sole ne. refl), omega arith),
      )
  copy_reply_lem write_fuel fuel p i j s b (got (c ∷ bs)) next at enough room e =
      let split = readable.rest-got i j 8192 (c ∷ bs) e in
      let sizes = ap length split ∙ length-append {0} (c ∷ bs) (readable.rest j) in
      let fewer = readable.retries-got i j 8192 (c ∷ bs) e in
      let whole : (b ++ (c ∷ bs)) ++ readable.rest j ≡ b ++ readable.rest i =
        append_assoc b (c ∷ bs) (readable.rest j) ∙ ap (λ x. b ++ x) (sym split) in
      Outcome-and_then (Has p (b ++ (c ∷ bs)) s) (Only p s) (Has p (b ++ readable.rest i) s)
        (Only p s) (write_piece F write_fuel p s (c ∷ bs))
        (λ _ u. copy_loop F write_fuel fuel p j u)
        (write_piece_lem write_fuel p s (c ∷ bs) b at (omega (arith, sizes)))
        (λ u h. Wrote-trans p s u (b ++ readable.rest i) (copy_loop F write_fuel fuel p j u) h.1 (
          rw (← whole) (
            next j u (b ++ (c ∷ bs)) h.0 (omega (arith, sizes, fewer))
              (omega (arith, sizes, h.1.1)))))
        (λ u h. h)

  copy_loop_lem :
      (write_fuel fuel : ℕ) (p : Text) (i : F.input.State) (s : F.State) (b : List ℕ)
      → content s p ≡ some b
      → length (readable.rest i) + readable.retries i < fuel
      → length (readable.rest i) + retries s < write_fuel
      → Wrote p s (b ++ readable.rest i) (copy_loop F write_fuel fuel p i s)
  unfolding copy_loop
  copy_loop_lem write_fuel zero p i s b at enough room = absurd (omega arith)
  copy_loop_lem write_fuel (suc fuel) p i s b at enough room =
      copy_reply_lem write_fuel fuel p i (F.input.read i 8192).1 s b (F.input.read i 8192).0
        (λ k u c at' enough' room'. copy_loop_lem write_fuel fuel p k u c at' enough' room') at
        enough room refl

  step_of-fsync :
      (p : Text) (s t : F.State) (b : List ℕ) → Has p b s t → Wrote p s b (step_of (F.fsync t p))
  step_of-fsync p s t b h =
      by_reply (F.fsync t p).0 (F.fsync t p).1 (L.fsync-Same t p) (L.retries-fsync t p)
    where
      by_reply :
          (r : Bool) (u : F.State)
          → Same content t u
          → retries u ≤ retries t
          → Wrote p s b (step_of (r, u))
      by_reply true u same fewer =
          (same p ∙ h.0, ((λ q sole ne. same q ∙ h.1.0 q sole ne), omega (arith, h.1.1)))
      by_reply false u same fewer = ((λ q sole ne. same q ∙ h.1.0 q sole ne), omega (arith, h.1.1))

  sync_copy_lem :
      (p : Text) (s : F.State) (b : List ℕ) (r : Io (Unit {0}) F.State)
      → Wrote p s b r
      → Wrote p s b (sync_copy F p r)
  sync_copy_lem p s b (done _ t) h = step_of-fsync p s t b h
  sync_copy_lem p s b (broken t) (h, m) =
      ((λ q sole ne. L.fsync-Same t p q ∙ h q sole ne), omega (arith, L.retries-fsync t p))
  sync_copy_lem p s b out_of_fuel h = h

  copy_into_lem :
      (fuel : ℕ) (p : Text) (i : F.input.State) (s : F.State) (opened : Bool × F.State)
      → F.open_out s p true 0o644 ≡ opened
      → length (readable.rest i) + readable.retries i + retries s < fuel
      → Wrote p s (readable.rest i) (copy_into F fuel p i opened)
  copy_into_lem fuel p i s (false, t) e enough =
      rw (← ap (λ o. o.1) e) (L.open_out-SameBut s p true 0o644, L.retries-open_out s p true 0o644)
  copy_into_lem fuel p i s (true, t) e enough =
      let k : Only p s t =
        rw (← ap (λ o. o.1) e)
          (L.open_out-SameBut s p true 0o644, L.retries-open_out s p true 0o644) in
      sync_copy_lem p s (readable.rest i) (copy_loop F fuel fuel p i t) (
        Wrote-trans p s t (readable.rest i) (copy_loop F fuel fuel p i t) k (
          copy_loop_lem fuel fuel p i t [] (L.open_out-content s t p 0o644 e) (omega arith)
            (omega (arith, k.1))))

  -- What a copy has done: after 0 the target has the bytes that the source had, and has them still; after -1, no other
  -- file than the target may have changed.
  abbrev pub Copied : (src dst : Text) → F.State → Io (Unit {0}) F.State → Type 0
  Copied src dst s r =
      Outcome
        (λ t. (b : List ℕ) × (content s src ≡ some b) × (content t src ≡ some b) × Has dst b s t)
        (Only dst s) r

  -- Enough fuel for a copy: more than the bytes of the source, the interruptions of its reads and those of the writes.
  abbrev pub EnoughFor : ℕ → F.State → Text → Type 0
  EnoughFor fuel s src =
      (i : F.input.State)
      → F.open_in s src ≡ some i
      → length (readable.rest i) + readable.retries i + retries s < fuel

  -- A copy of what cannot be read does not succeed.
  copy_into-unreadable :
      (fuel : ℕ) (p : Text) (i : F.input.State) (opened : Bool × F.State) (u : F.State)
      → (F.input.read i 8192).0 ≡ ReadReply.failed
      → copy_into F fuel p i opened ≢ done tt u
  unfolding copy_loop
  copy_into-unreadable fuel p i (false, t) u bad e = cc
  copy_into-unreadable zero p i (true, t) u bad e = cc
  copy_into-unreadable (suc fuel) p i (true, t) u bad e =
      reply_failed (F.input.read i 8192).0 (F.input.read i 8192).1 bad e
    where
      reply_failed :
          (reply : ReadReply) (j : F.input.State)
          → reply ≡ ReadReply.failed
          → sync_copy F p (
              copy_reply F
                (copy_loop F (suc fuel) fuel p)
                (write_piece F (suc fuel) p)
                t
                (reply, j))
            ≢ done tt u
      reply_failed ReadReply.failed j bad e = cc
      reply_failed ReadReply.interrupted j bad e = cc
      reply_failed (got bs) j bad e = cc

  whole_copy :
      (fuel : ℕ) (s t : F.State) (src dst : Text) (i : F.input.State) (r : Io (Unit {0}) F.State)
      → F.open_in s src ≡ some i
      → Sole src
      → src ≢ dst
      → Keeps F L s t
      → ((u : F.State) → content s src ≡ none → r ≢ done tt u)
      → Wrote dst t (readable.rest i) r
      → Copied src dst s r
  whole_copy fuel s t src dst i (done _ u) at sole apart kept unread h =
      let b = L.open_in-content s src i at (λ missing. unread u missing refl) in
      let (has, only) = Has-trans dst (readable.rest i) s t u (Only-of_Keeps dst s t kept) h in
      (readable.rest i, b, only.0 src sole apart ∙ b, (has, only))
  whole_copy fuel s t src dst i (broken u) at sole apart kept unread h =
      Only-trans dst s t u (Only-of_Keeps dst s t kept) h
  whole_copy fuel s t src dst i out_of_fuel at sole apart kept unread h = h

  -- Copying a file to another ends, and after 0 the target has exactly the bytes of the source, whatever pieces the
  -- calls take and however often they are interrupted; the source is as it was, and so is every other file, also
  -- after -1. No other path leads to the source.
  pub copy_file_plain_lem :
      (fuel : ℕ) (s : F.State) (src dst : Text)
      → Sole src
      → src ≢ dst
      → EnoughFor fuel s src
      → Copied src dst s (copy_file_plain F fuel s src dst)
  unfolding copy_file_plain
  copy_file_plain_lem fuel s src dst sole apart enough = elim (Option-cases (F.open_in s src)) [
    | inl missing ↦ rw (missing, copy_file_plain) ((λ q sole' ne. refl), omega arith)
    | inr (i, at) ↦
        rw (at, copy_file_plain)
          (Outcome-and_then (Keeps F L s) (Keeps F L s) _ (Only dst s)
            (ensure_parent_dir_exists F s dst)
            (λ _ t. copy_into F fuel dst i (F.open_out t dst true 0o644))
            (ensure_parent_dir_exists-Keeps F L s dst)
            (λ t kept.
              whole_copy fuel s t src dst i (copy_into F fuel dst i (F.open_out t dst true 0o644))
                at sole apart kept
                (λ u missing.
                  copy_into-unreadable fuel dst i (F.open_out t dst true 0o644) u
                    (L.open_in-directory s src i 8192 at missing))
                (copy_into_lem fuel dst i t (F.open_out t dst true 0o644) refl
                  (omega (arith, enough i at, kept.1))))
            (λ t kept. Only-of_Keeps dst s t kept))
  ]
