-- ===== src/Server/Stream.antt =====
-- handle_large_block_stream of src/server.c: a target changes as a whole, to what the blocks have made.
use mini_sync.Common.{
  ℕ, ◌≡◌, ◌∙◌, sym, ap, inl, inr, Bool, true, false, some, List, Text, Bool-cases, ◌==◌, codes,
}
use mini_sync.Input.{Input}
use mini_sync.Output.{Output}
use mini_sync.Net.{Io, done, broken, out_of_fuel, read_full}
use mini_sync.Hash.{hash_buffer_fnv1a}
use mini_sync.Protocol.{SyncHeader}
use mini_sync.Blocks.{Received, ended}
use mini_sync.Blocks.Keep.{AtEnd, recv_file_blocks-AtEnd}
use mini_sync.FileSystem.{FileSystem, IsFileSystem, SameBut, Same}
use mini_sync.FileOps.{ensure_parent_dir_exists}
use mini_sync.FileOps.Outcome.{Outcome, Outcome-weaken}
use mini_sync.FileOps.Directories.{Keeps, ensure_parent_dir_exists-Keeps, set_file_metadata-Same}
use mini_sync.FileOps.Versions.{backup_old_version}
use mini_sync.FileOps.Atomic.{OneDevice, syncing_path-ne}
use mini_sync.FileOps.Kept.{Apart, SameButVersions, backup_old_version-Kept}
use mini_sync.FileOps.Checked.{AmpleAt, EnoughFor-of_AmpleAt}
use mini_sync.Server.{Session, open_mode, hash_or, temp_file, refuse}
use mini_sync.Server.Handlers.{
  take_place, back_up_and_take_place, first_block_read, stream_ended, receive_stream,
  handle_large_block_stream,
}
use mini_sync.Server.Writing.{Writing, Writing-pwrite, after_blocks-Safely}
use mini_sync.Server.Begin.{target_paths-eq}
use mini_sync.Server.Replace.{
  Safely, Safely-weaken, IsServed, Untouched, HasHash, refuse-Safely, on_files-Safely,
  take_place-Safely, check_hash-Safely,
}

module _ (F : FileSystem) (L : IsFileSystem F) (malloc : ℕ → Bool) (I : Input) (O : Output)
    (one : OneDevice F L) (s : F.State) (root rel dst tmp : Text)
    (served : IsServed F L root rel dst tmp) (sole : L.Sole tmp)
    (apart : Apart F L root rel tmp) where
  open L use {content, Sole}

  abbrev Old : F.State → Type 0
  Old = Untouched F L s root rel dst

  Old-SameBut : (t u : F.State) → SameBut content Sole tmp t u → Old t → Old u
  Old-SameBut t u same old =
      same dst served.placed.sole (syncing_path-ne dst tmp served.named) ∙ old

  abbrev AtWork : F.State → Type 0
  AtWork = Writing F L malloc I O tmp Old Old-SameBut

  -- The first block and the others that follow it.
  abbrev pub blocks : ℕ → SyncHeader → Session F I O → Received F.State I.State
  blocks fuel first_block c =
      first_block_read F malloc I O fuel first_block tmp c
        (read_full I fuel c.input first_block.data_len)

  -- The temporary file is open for the first block.
  abbrev pub open_temp : SyncHeader → Session F I O → Session F I O
  open_temp first_block c = record c {
    files = (F.open_out c.files tmp false (open_mode first_block.mode)).1;
  }

  -- The blocks ended with the header `e`; the target has the bytes that they left in the temporary file, and these have
  -- the hash of `e`, or if that is 0 the hash of the first block's header, if that is not 0 either.
  abbrev pub Streamed : ℕ → SyncHeader → Session F I O → F.State → Type 0
  Streamed fuel first_block c t =
      (e : SyncHeader) × (i : I.State) × (u : F.State) × (b : List ℕ) × (blocks fuel first_block
          (open_temp first_block c)
        ≡ ended e i u)
      × (content u tmp ≡ some b)
      × (content t dst ≡ some b)
      × HasHash (hash_or e.total_hash first_block.total_hash) b

  first_block-AtEnd :
      (fuel : ℕ) (first_block : SyncHeader) (c : Session F I O) (r : Io (List ℕ) I.State)
      → AtWork c.files
      → AtEnd
          (temp_file F tmp)
          malloc
          I
          AtWork
          (first_block_read F malloc I O fuel first_block tmp c r)
  first_block-AtEnd fuel first_block c out_of_fuel w = tt
  first_block-AtEnd fuel first_block c (broken i) w = w
  first_block-AtEnd fuel first_block c (done buf i) w =
      let written =
        Writing-pwrite F L malloc I O tmp Old Old-SameBut c.files buf first_block.offset w in
      elim (Bool-cases (hash_buffer_fnv1a buf == first_block.block_hash)) [
        | inr differs ↦ rw differs w
        | inl same ↦ elim (Bool-cases (F.pwrite c.files tmp buf first_block.offset).0) [
          | inr cut ↦ rw (same, cut) written
          | inl whole ↦
              rw (same, whole)
                (recv_file_blocks-AtEnd (temp_file F tmp) malloc I AtWork
                  (Writing-pwrite F L malloc I O tmp Old Old-SameBut) fuel fuel i
                  (F.pwrite c.files tmp buf first_block.offset).1 0 written)
        ]
      ]

  -- Making a version keeps the target and the temporary file, whether or not it succeeds.
  backed_up :
      (fuel : ℕ) (t : F.State)
      → AmpleAt F L fuel s dst
      → Old t
      → Outcome
          (SameButVersions F L root rel t)
          (SameButVersions F L root rel t)
          (backup_old_version F fuel t root rel)
  backed_up fuel t room old =
      Outcome-weaken _ _ (SameButVersions F L root rel t) (SameButVersions F L root rel t) _
        (backup_old_version-Kept F L one fuel t root rel dst served.placed
          (EnoughFor-of_AmpleAt F L fuel t dst (λ u q same. room u q (same ∙ old))))
        (λ u h. h.0) (λ u h. h)

  module _ (fuel : ℕ) (first_block : SyncHeader) (c : Session F I O)
      (room : AmpleAt F L fuel s dst) where
    abbrev New : F.State → Type 0
    New = Streamed fuel first_block c

    stream_ended-Safely :
        (e : SyncHeader) (i : I.State) (u : F.State) (d : Session F I O)
        → blocks fuel first_block (open_temp first_block c) ≡ ended e i u
        → Same content u d.files
        → AtWork d.files
        → Safely F L malloc I O New Old
            (stream_ended F malloc I O fuel first_block root rel dst tmp e d)
    stream_ended-Safely e i u d r synced (old, (b, at)) =
        check_hash-Safely F L malloc I O tmp New Old fuel
          (hash_or e.total_hash first_block.total_hash) b d
          (back_up_and_take_place F malloc I O fuel first_block root rel dst tmp)
          (refuse F I O fuel (codes "large file receive failed")) at
          (λ hash.
            on_files-Safely F L malloc I O New Old _ _ d
              (backup_old_version F fuel d.files root rel) next next
              (backed_up fuel d.files room old) (λ t same. placed_in hash t same)
              (λ t same. placed_in hash t same))
          (refuse-Safely F L malloc I O New Old fuel (codes "large file receive failed") d old)
      where
        next : Session F I O → Io (Unit {0}) (Session F I O)
        next = take_place F malloc I O fuel first_block (codes "large file receive failed") dst tmp

        placed_in :
            HasHash (hash_or e.total_hash first_block.total_hash) b
            → (t : F.State) → SameButVersions F L root rel d.files t
            → Safely F L malloc I O New Old (next (record d { files = t }))
        placed_in hash t same =
            take_place-Safely F L malloc I O New Old fuel first_block
              (codes "large file receive failed") dst tmp b (record d { files = t }) one
              (same tmp sole apart ∙ at)
              (λ v h. (
                e,
                i,
                u,
                b,
                r,
                sym (synced tmp) ∙ at,
                set_file_metadata-Same F L v dst first_block.mode first_block.mtime dst ∙ h.0,
                hash,
              ))
              (λ v kept. kept dst ∙ same dst served.placed.sole served.placed.apart ∙ old)

    receive_stream-Safely :
        Old c.files
        → Safely F L malloc I O New Old
            (receive_stream F malloc I O fuel first_block root rel dst tmp c)
    receive_stream-Safely old =
        elim (Bool-cases (F.open_out c.files tmp false (open_mode first_block.mode)).0) [
          | inr not_opened ↦
              rw not_opened
                (refuse-Safely F L malloc I O New Old fuel (codes "open temp failed") opened kept)
          | inl is_open ↦ elim (Bool-cases (malloc first_block.data_len)) [
            | inr full ↦
                rw (is_open, full)
                  (refuse-Safely F L malloc I O New Old fuel (codes "alloc failed") opened kept)
            | inl room_ ↦
                rw (is_open, room_)
                  (after_blocks-Safely F L malloc I O tmp Old Old-SameBut New Old
                    (stream_ended F malloc I O fuel first_block root rel dst tmp)
                    (refuse F I O fuel (codes "large file receive failed")) opened
                    (blocks fuel first_block opened)
                    (first_block-AtEnd fuel first_block opened
                      (read_full I fuel c.input first_block.data_len) (kept, regular is_open))
                    (λ e i u d r synced w. stream_ended-Safely e i u d r synced w)
                    (λ d w.
                      refuse-Safely F L malloc I O New Old fuel (codes "large file receive failed")
                        d w.0))
          ]
        ]
      where
        opened : Session F I O
        opened = open_temp first_block c

        kept : Old opened.files
        kept =
            Old-SameBut c.files opened.files
              (L.open_out-SameBut c.files tmp false (open_mode first_block.mode)) old

        regular :
            (F.open_out c.files tmp false (open_mode first_block.mode)).0 ≡ true
            → (b : List ℕ) × (content opened.files tmp ≡ some b)
        regular is_open =
            L.open_out-regular c.files opened.files tmp (open_mode first_block.mode)
              (ap (λ b. (b, opened.files)) is_open)

-- Whatever a peer sends in and after a block that comes without FILE_BEGIN, and whichever calls fail: after 0 the
-- target has the bytes that the blocks left in the temporary file, whose hash is the one that FILE_END announces, or
-- if it announces none the first block, if that announces one; after -1 the target is untouched. All paths lie
-- on one device, the target, its versions and the temporary file are different files, and the fuel is enough
-- for the file that is replaced.
pub handle_large_block_stream-Streamed :
    (F : FileSystem) (L : IsFileSystem F) (malloc : ℕ → Bool) (I : Input) (O : Output)
    (one : OneDevice F L) (fuel : ℕ) (first_block : SyncHeader) (root rel dst tmp : Text)
    (c : Session F I O) (served : IsServed F L root rel dst tmp) (sole : L.Sole tmp)
    (apart : Apart F L root rel tmp)
    → AmpleAt F L fuel c.files dst
    → Safely F L malloc I O
        (λ t.
          (p : F.State) × Same L.content c.files p
          × Streamed F L malloc I O one c.files root rel dst tmp served sole apart fuel first_block
              (record c { files = p })
              t)
        (Untouched F L c.files root rel dst)
        (handle_large_block_stream F malloc I O fuel first_block root rel c)
unfolding handle_large_block_stream
handle_large_block_stream-Streamed F L malloc I O one fuel first_block root rel dst tmp c served
      sole apart room =
    rw (target_paths-eq F L root rel dst tmp served, handle_large_block_stream)
      (on_files-Safely F L malloc I O New Old (Keeps F L c.files) (Keeps F L c.files) c
        (ensure_parent_dir_exists F c.files dst)
        (receive_stream F malloc I O fuel first_block root rel dst tmp)
        (refuse F I O fuel (codes "prepare destination failed"))
        (ensure_parent_dir_exists-Keeps F L c.files dst)
        (λ t kept.
          Safely-weaken F L malloc I O _ New Old
            (receive_stream F malloc I O fuel first_block root rel dst tmp (record c { files = t }))
            (receive_stream-Safely F L malloc I O one c.files root rel dst tmp served sole apart
              fuel first_block (record c { files = t }) room (kept.0 dst))
            (λ u h. (t, kept.0, h)))
        (λ t kept.
          refuse-Safely F L malloc I O New Old fuel (codes "prepare destination failed")
            (record c { files = t }) (kept.0 dst)))
  where
    New : F.State → Type 0
    New t =
        (p : F.State) × Same L.content c.files p
        × Streamed F L malloc I O one c.files root rel dst tmp served sole apart fuel first_block
            (record c { files = p }) t

    Old : F.State → Type 0
    Old = Untouched F L c.files root rel dst
