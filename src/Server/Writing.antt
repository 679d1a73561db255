-- ===== src/Server/Writing.antt =====
-- The end of receiving a file in src/server.c, whatever comes on the connection.
use mini_sync.Common.{ℕ, ◌≡◌, refl, ◌∙◌, inl, inr, Bool, some, List, Text, Bool-cases}
use mini_sync.Input.{Input}
use mini_sync.Output.{Output}
use mini_sync.Net.{Io}
use mini_sync.Protocol.{SyncHeader}
use mini_sync.Blocks.{Received, ended, failed, no_fuel}
use mini_sync.Blocks.Keep.{AtEnd}
use mini_sync.FileSystem.{FileSystem, IsFileSystem, Same, SameBut}
use mini_sync.Server.{Session, temp_file}
use mini_sync.Server.Handlers.{after_blocks}
use mini_sync.Server.Replace.{Safely}

-- What does not depend on the temporary file is kept while the blocks come.
module _ (F : FileSystem) (L : IsFileSystem F) (malloc : ℕ → Bool) (I : Input) (O : Output)
    (tmp : Text) (K : F.State → Type 0)
    (kept : (t u : F.State) → SameBut L.content L.Sole tmp t u → K t → K u) where
  open L use {content, Sole}

  -- While the temporary file is written.
  abbrev pub Writing : F.State → Type 0
  Writing t = K t × ((b : List ℕ) × (content t tmp ≡ some b))

  pub Writing-pwrite :
      (t : F.State) (buf : List ℕ) (offset : ℕ) → Writing t → Writing (F.pwrite t tmp buf offset).1
  Writing-pwrite t buf offset (ready, (b, at)) = (
    kept t (F.pwrite t tmp buf offset).1 (L.pwrite-SameBut t tmp buf offset) ready,
    L.pwrite-regular t tmp buf b offset at,
  )

  Writing-fsync : (t : F.State) → Writing t → Writing (F.fsync t tmp).1
  Writing-fsync t (ready, (b, at)) = (
    kept t (F.fsync t tmp).1 (λ q sole ne. L.fsync-Same t tmp q) ready,
    (b, L.fsync-Same t tmp tmp ∙ at),
  )

  pub after_blocks-Safely :
      (P Q : F.State → Type 0) (good : SyncHeader → Session F I O → Io (Unit {0}) (Session F I O))
      (bad : Session F I O → Io (Unit {0}) (Session F I O)) (c : Session F I O)
      (r : Received F.State I.State)
      → AtEnd (temp_file F tmp) malloc I Writing r
      → ((e : SyncHeader) (i : I.State) (t : F.State) (d : Session F I O)
          → r ≡ ended e i t
          → Same content t d.files
          → Writing d.files
          → Safely F L malloc I O P Q (good e d))
      → ((d : Session F I O) → Writing d.files → Safely F L malloc I O P Q (bad d))
      → Safely F L malloc I O P Q (after_blocks F malloc I O tmp good bad c r)
  after_blocks-Safely P Q good bad c no_fuel w on_good on_bad = tt
  after_blocks-Safely P Q good bad c (failed i t) w on_good on_bad = on_bad _ (Writing-fsync t w)
  after_blocks-Safely P Q good bad c (ended e i t) w on_good on_bad =
      elim (Bool-cases (F.fsync t tmp).0) [
        | inl synced ↦ rw synced (on_good e i t _ refl (L.fsync-Same t tmp) (Writing-fsync t w))
        | inr lost ↦ rw lost (on_bad _ (Writing-fsync t w))
      ]
