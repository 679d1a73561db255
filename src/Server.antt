-- ===== src/Server.antt =====
-- The server of src/server.c: what it does on a connection (server_handle_connection and the handlers it calls)
-- and the directories that run_server makes. The handlers hold server_file_mutex while they change files, so a
-- request is one step on the state of the file system. Log messages leave no trace.
pub mod Handlers
pub mod Replace
pub mod Writing
pub mod Begin
pub mod Stream
pub mod Requests
pub mod Connection
use mini_sync.Common.{
  ℕ, ◌/◌, ◌%◌, Bool, true, false, Option, none, some, List, Text, codes, ◌==◌, if◌then◌else◌,
}
use mini_sync.Input.{Input}
use mini_sync.Output.{Output}
use mini_sync.Net.{Io, done, broken, out_of_fuel, and_then}
use mini_sync.Protocol.{send_ack, send_error}
use mini_sync.FilePath.{join_path}
use mini_sync.FilePath.Target.{max_path_len, current_path}
use mini_sync.Blocks.{OutFile}
use mini_sync.FileSystem.{FileSystem}
use mini_sync.FileOps.{ensure_dir_exists, ensure_parent_dir_exists, syncing_path}

-- The target of a relative path and the temporary file beside it.
unfoldable pub target_paths : (root rel_path : Text) → Option (Text × Text)
unfolding current_path syncing_path
target_paths root rel_path = elim (current_path max_path_len root rel_path) [
  | none ↦ none
  | some dst ↦ elim (syncing_path dst) [ none ↦ none | some tmp ↦ some (dst, tmp) ]
]

-- `mode ? mode : 0644`
abbrev pub open_mode : ℕ → ℕ
open_mode mode = if mode == 0 then 0o644 else mode

-- The first hash that is given.
abbrev pub hash_or : ℕ → ℕ → ℕ
hash_or first second = if first == 0 then second else first

module _ (F : FileSystem) where
  -- A temporary file that blocks are written to.
  abbrev pub temp_file : Text → OutFile
  temp_file tmp = record { File = F.State; pwrite = λ s buf offset. F.pwrite s tmp buf offset }

  -- The start of run_server: the directories of the root, and that of the log file.
  unfoldable pub prepare_root : F.State → (root log_path : Text) → Io (Unit {0}) F.State
  unfolding join_path ensure_dir_exists ensure_parent_dir_exists
  prepare_root s root log_path = elim (join_path max_path_len root (codes "current")) [
    | none ↦ broken s
    | some current ↦ elim (join_path max_path_len root (codes ".versions")) [
      | none ↦ broken s
      | some versions ↦ elim (join_path max_path_len root (codes ".trash")) [
        | none ↦ broken s
        | some trash ↦ and_then (ensure_dir_exists F s current) (λ _ t.
            and_then (ensure_dir_exists F t versions) (λ _ u.
              and_then (ensure_dir_exists F u trash)
                (λ _ v. ensure_parent_dir_exists F v log_path)))
      ]
    ]
  ]

module _ (F : FileSystem) (I : Input) (O : Output) where
  -- The files, and both directions of a connection.
  pub record Session : Type 0 where
    pub files : F.State
    pub input : I.State
    pub output : O.State

  -- A reply whose result is ignored, and the value that is then returned.
  abbrev pub after_reply : Bool → Session → Io (Unit {0}) O.State → Io (Unit {0}) Session
  after_reply true c (done _ o) = done tt (record c { output = o })
  after_reply true c (broken o) = done tt (record c { output = o })
  after_reply false c (done _ o) = broken (record c { output = o })
  after_reply false c (broken o) = broken (record c { output = o })
  after_reply _ c out_of_fuel = out_of_fuel

  -- `send_ack(...); return 0;`
  unfoldable pub accept : ℕ → (offset : ℕ) → Session → Io (Unit {0}) Session
  unfolding send_ack
  accept fuel offset c = after_reply true c (send_ack O fuel c.output offset)

  -- `send_error(...); return -1;`
  unfoldable pub refuse : ℕ → (message : Text) → Session → Io (Unit {0}) Session
  unfolding send_error
  refuse fuel message c = after_reply false c (send_error O fuel c.output message)

  -- A step on the files, and what follows 0 and -1.
  abbrev pub on_files :
      Session
      → Io (Unit {0}) F.State
      → (good bad : Session → Io (Unit {0}) Session) → Io (Unit {0}) Session
  on_files c (done _ s) good bad = good (record c { files = s })
  on_files c (broken s) good bad = bad (record c { files = s })
  on_files c out_of_fuel good bad = out_of_fuel

  -- A step on the output whose result is returned.
  abbrev pub on_output : Session → Io (Unit {0}) O.State → Io (Unit {0}) Session
  on_output c (done _ o) = done tt (record c { output = o })
  on_output c (broken o) = broken (record c { output = o })
  on_output c out_of_fuel = out_of_fuel
