-- ===== src/Server/Replace.antt =====
-- What the handlers of src/server.c that receive a file leave in its target, whatever the peer sends.
use mini_sync.Common.{
  ℕ, ◌≡◌, ◌≢◌, ◌∙◌, sym, ap, ◌⊎◌, inl, inr, Bool, true, false, not, ◌&&◌, some, List, arith, Text,
  Bool-cases, Option-cases, ◌==◌,
}
use mini_sync.Input.{Input}
use mini_sync.Output.{Output}
use mini_sync.Net.{Io, done, broken, out_of_fuel}
use mini_sync.Hash.{hash_buffer_fnv1a}
use mini_sync.Protocol.{SyncHeader, send_ack, send_error}
use mini_sync.FileSystem.{FileSystem, IsFileSystem, SameBut, Same}
use mini_sync.FileOps.{syncing_path, hash_of, set_file_metadata, safe_rename_or_copy_unlink}
use mini_sync.FileOps.Outcome.{Outcome}
use mini_sync.FileOps.Directories.{set_file_metadata-Same}
use mini_sync.FileOps.Atomic.{OneDevice, Became, syncing_path-ne, safe_rename_or_copy_unlink-Moved}
use mini_sync.FileOps.Kept.{IsVersion, Placed, HasVersion}
use mini_sync.FileOps.Checked.{hash_of_safe}
use mini_sync.Server.{Session, after_reply, accept, refuse, on_files}
use mini_sync.Server.Handlers.{take_place, check_hash}

-- The bytes have the expected hash, unless it is 0.
abbrev pub HasHash : (expected : ℕ) → List ℕ → Type 0
HasHash expected b = (expected ≡ 0) ⊎ (hash_buffer_fnv1a b ≡ expected)

module _ (F : FileSystem) (L : IsFileSystem F) where
  open L use {content, Sole}

  -- The target of a request, and the temporary file beside it.
  pub record IsServed (root rel dst tmp : Text) : Type 0 where
    pub placed : Placed F L root rel dst
    pub named : syncing_path dst ≡ some tmp
    pub versions-tmp : (version : Text) → IsVersion F L root rel version → version ≢ tmp

  module _ (s : F.State) (root rel dst : Text) where
    -- The target is as it was, and its bytes are in a version of it.
    abbrev pub Ready : F.State → Type 0
    Ready t = (content t dst ≡ content s dst) × HasVersion F L root rel dst s t

    -- The target has the bytes `b`, and those that it had are in a version of it.
    abbrev pub Taken : (List ℕ → Type 0) → F.State → Type 0
    Taken Good t =
        (b : List ℕ) × (content t dst ≡ some b) × Good b × HasVersion F L root rel dst s t

    abbrev pub Untouched : F.State → Type 0
    Untouched t = content t dst ≡ content s dst

    Taken-metadata :
        (Good : List ℕ → Type 0) (t : F.State) (mode mtime : ℕ)
        → Taken Good t
        → Taken Good (set_file_metadata F t dst mode mtime).1
    Taken-metadata Good t mode mtime (b, has, good, kept) =
        let same = set_file_metadata-Same F L t dst mode mtime in
        (
          b,
          same dst ∙ has,
          good,
          λ old at. let (v, is, old_bytes) = kept old at in (v, is, same v ∙ old_bytes),
        )

  module _ (s : F.State) (root rel dst tmp : Text) (served : IsServed root rel dst tmp) where
    open served use {placed}

    HasVersion-SameButTwo :
        (t u : F.State)
        → ((q : Text) → Sole q → q ≢ dst → q ≢ tmp → content u q ≡ content t q)
        → HasVersion F L root rel dst s t
        → HasVersion F L root rel dst s u
    HasVersion-SameButTwo t u same kept old at =
        let (v, is, has) = kept old at in
        (
          v,
          is,
          same v (placed.versions_sole v is) (λ e. (placed.apart v tmp is).0 (sym e))
                (served.versions-tmp v is)
              ∙ has,
        )

    pub Ready-SameBut :
        (t u : F.State)
        → SameBut content Sole tmp t u
        → Ready s root rel dst t
        → Ready s root rel dst u
    Ready-SameBut t u same (old, kept) = (
      same dst placed.sole (syncing_path-ne dst tmp served.named) ∙ old,
      HasVersion-SameButTwo t u (λ q sole ne ne'. same q sole ne') kept,
    )

    pub Taken-Became :
        (Good : List ℕ → Type 0) (t u : F.State) (b : List ℕ) (mode mtime : ℕ)
        → Ready s root rel dst t
        → Good b
        → Became F L tmp dst b t u
        → Taken s root rel dst Good (set_file_metadata F u dst mode mtime).1
    Taken-Became Good t u b mode mtime ready good h =
        Taken-metadata s root rel dst Good u mode mtime
          (b, h.0, good, HasVersion-SameButTwo t u h.2 ready.1)

module _ (F : FileSystem) (L : IsFileSystem F) (malloc : ℕ → Bool) (I : Input) (O : Output) where
  open L use {content}

  -- `P` holds of the files after 0, `Q` of those after -1.
  abbrev pub Safely : (P Q : F.State → Type 0) → Io (Unit {0}) (Session F I O) → Type 0
  Safely P Q (done _ c) = P c.files
  Safely P Q (broken c) = Q c.files
  Safely P Q out_of_fuel = Unit

  pub Safely-weaken :
      (P P' Q : F.State → Type 0) (r : Io (Unit {0}) (Session F I O))
      → Safely P Q r
      → ((t : F.State) → P t → P' t)
      → Safely P' Q r
  Safely-weaken P P' Q (done _ c) h weaker = weaker c.files h
  Safely-weaken P P' Q (broken c) h weaker = h
  Safely-weaken P P' Q out_of_fuel h weaker = h

  module _ (P Q : F.State → Type 0) where
    after_accept :
        (c : Session F I O) (r : Io (Unit {0}) O.State)
        → P c.files
        → Safely P Q (after_reply F I O true c r)
    after_accept c (done _ o) h = h
    after_accept c (broken o) h = h
    after_accept c out_of_fuel h = tt

    pub accept-Safely :
        (fuel offset : ℕ) (c : Session F I O) → P c.files → Safely P Q (accept F I O fuel offset c)
    unfolding accept
    accept-Safely fuel offset c h = after_accept c (send_ack O fuel c.output offset) h

    after_refuse :
        (c : Session F I O) (r : Io (Unit {0}) O.State)
        → Q c.files
        → Safely P Q (after_reply F I O false c r)
    after_refuse c (done _ o) h = h
    after_refuse c (broken o) h = h
    after_refuse c out_of_fuel h = tt

    pub refuse-Safely :
        (fuel : ℕ) (message : Text) (c : Session F I O)
        → Q c.files
        → Safely P Q (refuse F I O fuel message c)
    unfolding refuse
    refuse-Safely fuel message c h = after_refuse c (send_error O fuel c.output message) h

    pub on_files-Safely :
        (P' Q' : F.State → Type 0) (c : Session F I O) (r : Io (Unit {0}) F.State)
        (good bad : Session F I O → Io (Unit {0}) (Session F I O))
        → Outcome P' Q' r
        → ((s : F.State) → P' s → Safely P Q (good (record c { files = s })))
        → ((s : F.State) → Q' s → Safely P Q (bad (record c { files = s })))
        → Safely P Q (on_files F I O c r good bad)
    on_files-Safely P' Q' c (done _ s) good bad h after_good after_bad = after_good s h
    on_files-Safely P' Q' c (broken s) good bad h after_good after_bad = after_bad s h
    on_files-Safely P' Q' c out_of_fuel good bad h after_good after_bad = tt

  -- The temporary file takes the place of the target as a whole, or no file changes.
  pub take_place-Safely :
      (P Q : F.State → Type 0) (fuel : ℕ) (header : SyncHeader) (error dst tmp : Text) (b : List ℕ)
      (c : Session F I O)
      → OneDevice F L
      → content c.files tmp ≡ some b
      → ((t : F.State)
          → Became F L tmp dst b c.files t
          → P (set_file_metadata F t dst header.mode header.mtime).1)
      → ((t : F.State) → Same content c.files t → Q t)
      → Safely P Q (take_place F malloc I O fuel header error dst tmp c)
  take_place-Safely P Q fuel header error dst tmp b c one has after_good after_bad =
      on_files-Safely P Q (Became F L tmp dst b c.files) (Same content c.files) c
        (safe_rename_or_copy_unlink F fuel c.files tmp dst) _ _
        (safe_rename_or_copy_unlink-Moved F L fuel c.files tmp dst b one has)
        (λ t h. accept-Safely P Q fuel header.file_size _ (after_good t h))
        (λ t same. refuse-Safely P Q fuel error (record c { files = t }) (after_bad t same))

  module _ (tmp : Text) where
    pub check_hash-Safely :
        (P Q : F.State → Type 0) (fuel expected : ℕ) (b : List ℕ) (c : Session F I O)
        (good bad : Session F I O → Io (Unit {0}) (Session F I O))
        → content c.files tmp ≡ some b
        → (HasHash expected b → Safely P Q (good c))
        → Safely P Q (bad c)
        → Safely P Q (check_hash F malloc I O expected (hash_of F fuel c.files tmp) good bad c)
    check_hash-Safely P Q fuel expected b c good bad has after_good after_bad =
        elim (Option-cases (hash_of F fuel c.files tmp)) [
          | inl over ↦ rw over tt
          | inr (actual, e) ↦ elim (Bool-cases (not (expected == 0) && not (actual == expected))) [
            | inl differs ↦ rw (e, differs) after_bad
            | inr agrees ↦ rw (e, agrees) (after_good (matches actual e agrees))
          ]
        ]
      where
        same_bytes : (b' : List ℕ) → content c.files tmp ≡ some b' → b ≡ b'
        same_bytes b' e = cc

        matches :
            (actual : ℕ)
            → hash_of F fuel c.files tmp ≡ some actual
            → (not (expected == 0) && not (actual == expected)) ≡ false
            → HasHash expected b
        matches actual e agrees = elim (Bool-cases (expected == 0)) [
          | inl zero_ ↦ inl (ground (arith, zero_))
          | inr given ↦
              let same : actual ≡ expected = ground (arith, given, agrees) in
              let (b', at, hash) =
                hash_of_safe F L fuel c.files tmp actual e (ground (arith, given, same)) in
              inr (ap hash_buffer_fnv1a (same_bytes b' at) ∙ hash ∙ same)
        ]
