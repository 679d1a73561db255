-- ===== src/FileOps/Directories.antt =====
-- ensure_dir_exists, ensure_parent_dir_exists and set_file_metadata of src/file_utils.c and the regular files.
use mini_sync.Common.{
  ℕ, ◌≤◌, refl, ◌∙◌, [], ◌∷◌, ◌++◌, arith, Text, length, take, ◌==◌, if◌then◌else◌, inl, inr,
  Bool-cases, Option-cases,
}
use mini_sync.Net.{Io, and_then}
use mini_sync.FilePath.{slash, fits, trim_len}
use mini_sync.FilePath.Target.{max_path_len}
use mini_sync.FileSystem.{FileSystem, IsFileSystem, MkdirReply, Same}
use mini_sync.FileOps.{
  mkdir_reply, make_parents, make_trimmed, ensure_dir_exists, ensure_parent_dir_exists, last_slash,
  set_file_metadata,
}
use mini_sync.FileOps.Outcome.{Outcome, Outcome-and_then}

module _ (F : FileSystem) (L : IsFileSystem F) where
  -- No regular file has changed.
  abbrev pub Keeps : F.State → F.State → Type 0
  Keeps s t = Same L.content s t × (L.retries t ≤ L.retries s)

  pub Keeps-refl : (s : F.State) → Keeps s s
  Keeps-refl s = ((λ q. refl), omega arith)

  pub Keeps-trans : (s t u : F.State) → Keeps s t → Keeps t u → Keeps s u
  Keeps-trans s t u (h, m) (k, n) = ((λ q. k q ∙ h q), omega arith)

  abbrev pub AlwaysKeeps : F.State → Io (Unit {0}) F.State → Type 0
  AlwaysKeeps s r = Outcome (Keeps s) (Keeps s) r

  then-Keeps :
      (s : F.State) (r : Io (Unit {0}) F.State) (k : Unit {0} → F.State → Io (Unit {0}) F.State)
      → AlwaysKeeps s r
      → ((t : F.State) → Keeps s t → AlwaysKeeps s (k tt t))
      → AlwaysKeeps s (and_then r k)
  then-Keeps s r k h next =
      Outcome-and_then (Keeps s) (Keeps s) (Keeps s) (Keeps s) r k h next (λ t kept. kept)

  mkdir_reply-Keeps :
      (s t : F.State) (reply : MkdirReply) → Keeps s t → AlwaysKeeps s (mkdir_reply F (reply, t))
  mkdir_reply-Keeps s t MkdirReply.made h = h
  mkdir_reply-Keeps s t MkdirReply.exists h = h
  mkdir_reply-Keeps s t MkdirReply.failed h = h

  mkdir-Keeps : (s t : F.State) (p : Text) → Keeps s t → AlwaysKeeps s (mkdir_reply F (F.mkdir t p))
  mkdir-Keeps s t p h =
      mkdir_reply-Keeps s (F.mkdir t p).1 (F.mkdir t p).0
        (Keeps-trans s t (F.mkdir t p).1 h (L.mkdir-Same t p, L.retries-mkdir t p))

  make_parents-Keeps :
      (s t : F.State) (before rest : Text)
      → Keeps s t
      → AlwaysKeeps s (make_parents F before rest t)
  unfolding make_parents
  make_parents-Keeps s t before [] h = h
  make_parents-Keeps s t before (c ∷ rest) h = elim (Bool-cases (c == slash)) [
    | inl here ↦ rw here (
        then-Keeps s (mkdir_reply F (F.mkdir t before))
          (λ _ u. make_parents F (before ++ (c ∷ [])) rest u) (mkdir-Keeps s t before h)
          (λ u k. make_parents-Keeps s u (before ++ (c ∷ [])) rest k))
    | inr away ↦ rw away (make_parents-Keeps s t (before ++ (c ∷ [])) rest h)
  ]

  make_trimmed-Keeps : (s : F.State) (path : Text) → AlwaysKeeps s (make_trimmed F path s)
  make_trimmed-Keeps s [] = Keeps-refl s
  make_trimmed-Keeps s (c ∷ rest) =
      then-Keeps s (make_parents F (c ∷ []) rest s) (λ _ u. mkdir_reply F (F.mkdir u (c ∷ rest)))
        (make_parents-Keeps s s (c ∷ []) rest (Keeps-refl s)) (λ u k. mkdir-Keeps s u (c ∷ rest) k)

  pub ensure_dir_exists-Keeps :
      (s : F.State) (dir : Text) → AlwaysKeeps s (ensure_dir_exists F s dir)
  unfolding ensure_dir_exists
  ensure_dir_exists-Keeps s [] = Keeps-refl s
  ensure_dir_exists-Keeps s (c ∷ dir) = elim (Option-cases (fits max_path_len (c ∷ dir))) [
    | inl long ↦ rw (long, ensure_dir_exists) (Keeps-refl s)
    | inr (tmp, at) ↦
        rw (at, ensure_dir_exists) (make_trimmed-Keeps s (take (trim_len tmp (length tmp)) tmp))
  ]

  pub ensure_parent_dir_exists-Keeps :
      (s : F.State) (path : Text) → AlwaysKeeps s (ensure_parent_dir_exists F s path)
  unfolding ensure_parent_dir_exists
  ensure_parent_dir_exists-Keeps s path = elim (Option-cases (fits max_path_len path)) [
    | inl long ↦ rw (long, ensure_parent_dir_exists) (Keeps-refl s)
    | inr (tmp, at) ↦ elim (Option-cases (last_slash tmp)) [
      | inl alone ↦ rw (at, alone, ensure_parent_dir_exists) (Keeps-refl s)
      | inr (n, found) ↦
          rw (at, found, ensure_parent_dir_exists)
            (ensure_dir_exists-Keeps s (take (if n == 0 then 1 else n) tmp))
    ]
  ]

  pub set_file_metadata-Same :
      (s : F.State) (path : Text) (mode mtime : ℕ)
      → Same L.content s (set_file_metadata F s path mode mtime).1
  unfolding set_file_metadata
  set_file_metadata-Same s path mode mtime q =
      L.utime-Same _ path mtime mtime q ∙ L.chmod-Same s path _ q
