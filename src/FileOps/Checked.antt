-- ===== src/FileOps/Checked.antt =====
-- copy_file_with_hash_check of src/file_utils.c on one file system, and the hashes of files there.
use mini_sync.Common.{
  ℕ, ◌≡◌, refl, ◌≢◌, ◌∙◌, sym, ◌⊎◌, inl, inr, some, List, arith, Text, Bool-cases, Option-cases,
  ◌==◌,
}
use mini_sync.Net.{Io, done, broken, out_of_fuel, and_then}
use mini_sync.Hash.{hash_buffer_fnv1a, hash_file_fnv1a}
use mini_sync.Hash.File.{hash_file-unreadable}
use mini_sync.Hash.Total.{hash_file_total, hash_file_safe}
use mini_sync.FileSystem.{FileSystem, IsFileSystem}
use mini_sync.FileOps.{
  syncing_path, copy_file_atomic, hash_of, compare_hashes, copy_file_with_hash_check,
}
use mini_sync.FileOps.Outcome.{Outcome}
use mini_sync.FileOps.Copy.{EnoughFor}
use mini_sync.FileOps.Atomic.{OneDevice, AllOrNothing, SameButTwo, copy_file_atomic-AllOrNothing}

module _ (F : FileSystem) (L : IsFileSystem F) where
  open L use {content, Sole}

  -- 0, or the hash of the file's bytes.
  abbrev pub ZeroOrHashOf : F.State → Text → ℕ → Type 0
  ZeroOrHashOf s p h = (h ≡ 0) ⊎ ((b : List ℕ) × (content s p ≡ some b) × (hash_buffer_fnv1a b ≡ h))

  hash_of-total :
      (fuel : ℕ) (s : F.State) (p : Text)
      → EnoughFor F L fuel s p
      → (h : ℕ) × (hash_of F fuel s p ≡ some h)
  unfolding hash_of hash_file_fnv1a
  hash_of-total fuel s p enough = elim (Option-cases (F.open_in s p)) [
    | inl missing ↦ (0, rw (missing, hash_of) refl)
    | inr (i, at) ↦
        elim (hash_file_total F.input L.readable F.seek fuel i (omega (arith, enough i at))) [
          | inl unread ↦ (0, rw (at, hash_of) unread)
          | inr same ↦ (hash_buffer_fnv1a (L.readable.rest i), rw (at, hash_of) same)
        ]
  ]

  -- Enough fuel for what this path leads to, wherever and whenever the same is read.
  abbrev pub AmpleAt : ℕ → F.State → Text → Type 0
  AmpleAt fuel s p = (t : F.State) (q : Text) → content t q ≡ content s p → EnoughFor F L fuel t q

  pub EnoughFor-of_AmpleAt :
      (fuel : ℕ) (s : F.State) (p : Text) → AmpleAt fuel s p → EnoughFor F L fuel s p
  EnoughFor-of_AmpleAt fuel s p ample = ample s p refl

  -- The target has the bytes of the source.
  abbrev pub Whole : (src tmp dst : Text) → F.State → F.State → Type 0
  Whole src tmp dst s t =
      (b : List ℕ) × (content s src ≡ some b)
      × (content t dst ≡ some b)
      × SameButTwo F L dst tmp s t

  -- The target is as it was, or has the bytes of the source.
  abbrev pub OldOrWhole : (src tmp dst : Text) → F.State → F.State → Type 0
  OldOrWhole src tmp dst s t =
      ((content t dst ≡ content s dst) ⊎ (content t dst ≡ content s src))
      × SameButTwo F L dst tmp s t

  -- On one device, copy_file_with_hash_check ends, and the target never has anything but what it had or the whole
  -- contents of the source, which it has after 0.
  pub copy_file_with_hash_check-Whole :
      (fuel : ℕ) (s : F.State) (src dst tmp : Text)
      → OneDevice F L
      → Sole src
      → Sole dst
      → src ≢ tmp
      → syncing_path dst ≡ some tmp
      → AmpleAt fuel s src
      → Outcome
          (Whole src tmp dst s)
          (OldOrWhole src tmp dst s)
          (copy_file_with_hash_check F fuel s src dst)
  unfolding copy_file_with_hash_check
  copy_file_with_hash_check-Whole fuel s src dst tmp one sole sole' apart named ample =
      checked (copy_file_atomic F fuel s src dst) (
        copy_file_atomic-AllOrNothing F L fuel s src dst tmp one sole sole' apart named
          (EnoughFor-of_AmpleAt fuel s src ample))
    where
      compared :
          (t : F.State) (before after : ℕ)
          → Whole src tmp dst s t
          → Outcome
              (Whole src tmp dst s)
              (OldOrWhole src tmp dst s)
              (compare_hashes F (some before) (some after) t)
      compared t before after h = elim (Bool-cases (before == after)) [
        | inl same ↦ rw same h
        | inr differs ↦ rw differs (inr (h.2 ∙ sym h.1), h.3)
      ]

      checked :
          (r : Io (Unit {0}) F.State)
          → AllOrNothing F L src tmp dst s r
          → Outcome
              (Whole src tmp dst s)
              (OldOrWhole src tmp dst s)
              (and_then r (λ _ t. compare_hashes F (hash_of F fuel s src) (hash_of F fuel t dst) t))
      checked (done _ t) h =
          let (before, e) = hash_of-total fuel s src (EnoughFor-of_AmpleAt fuel s src ample) in
          let (after, e') = hash_of-total fuel t dst (ample t dst (h.2 ∙ sym h.1)) in
          rw (e, e') (compared t before after h)
      checked (broken t) h = (inl h.0, h.1)
      checked out_of_fuel h = h

  zero_hash : {h : ℕ} → some h ≡ some 0 → h ≡ 0
  zero_hash e = cc

  -- A hash other than 0 is that of the bytes of a file.
  pub hash_of_safe :
      (fuel : ℕ) (s : F.State) (p : Text) (h : ℕ)
      → hash_of F fuel s p ≡ some h
      → h ≢ 0
      → (b : List ℕ) × (content s p ≡ some b) × (hash_buffer_fnv1a b ≡ h)
  unfolding hash_of hash_file_fnv1a
  hash_of_safe fuel s p h e given = elim (Option-cases (F.open_in s p)) [
    | inl missing ↦ absurd (given (zero_hash (sym e ∙ rw (missing, hash_of) refl)))
    | inr (i, at) ↦ (
      L.readable.rest i,
      L.open_in-content s p i at (λ missing. given (
          hash_file-unreadable F.input F.seek fuel i h (L.open_in-directory s p i 8192 at missing)
            (sym (rw (at, hash_of) refl) ∙ e))),
      hash_file_safe F.input L.readable F.seek fuel i h (sym (rw (at, hash_of) refl) ∙ e) given,
    )
  ]
