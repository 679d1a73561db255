-- ===== src/FileSystem.antt =====
-- The system calls on files and directories that src/file_utils.c, src/transfer.c and src/server.c make.
-- They are no code of the repository: the models take them as the fields of a record, and IsFileSystem has
-- the documented behaviour that the theorems rely on. A descriptor is named by the path that was opened, since
-- no file is renamed while the code has it open. Paths lead to regular files and directories, not to devices or
-- FIFOs. FileSystem.Memory is a file system that meets the laws.
pub mod Memory
use mini_sync.Common.{
  ℕ, ◌/◌, ◌%◌, ◌==◌, ◌≤◌, ◌<◌, ◌≡◌, ◌≢◌, Bool, true, false, Option, none, some, List, [], ◌++◌,
  Text, length, take,
}
use mini_sync.Input.{Input, IsReadable, ReadReply}
use mini_sync.Output.{WriteReply, wrote, interrupted}

pub data MkdirReply : Type 0 where
  made : MkdirReply
  -- -1 with EEXIST
  exists : MkdirReply
  failed : MkdirReply

pub data RenameReply : Type 0 where
  renamed : RenameReply
  -- -1 with EXDEV
  cross_device : RenameReply
  failed : RenameReply

-- What stat(2) says of a path.
pub record Stat : Type 0 where
  pub is_reg : Bool
  pub is_dir : Bool
  pub size : ℕ

-- In a pair with a Boolean, true is 0 or a descriptor, and false is -1.
pub record FileSystem : Type 1 where
  pub State : Type 0
  -- Descriptors that are open for reading, and what lseek(2) does to them.
  pub input : Input
  pub seek : input.State → ℕ → Option input.State
  pub open_in : State → Text → Option input.State
  -- O_WRONLY | O_CREAT, and O_TRUNC if the flag is set.
  pub open_out : State → Text → (truncate : Bool) → (mode : ℕ) → Bool × State
  pub write : State → Text → List ℕ → WriteReply × State
  -- True if all bytes were written.
  pub pwrite : State → Text → List ℕ → (offset : ℕ) → Bool × State
  pub fsync : State → Text → Bool × State
  pub mkdir : State → Text → MkdirReply × State
  pub rename : State → (src dst : Text) → RenameReply × State
  pub unlink : State → Text → Bool × State
  pub stat : State → Text → Option Stat
  -- access(2) with F_OK
  pub access : State → Text → Bool
  pub chmod : State → Text → ℕ → State
  pub utime : State → Text → (actime modtime : ℕ) → Bool × State
  -- fcntl(2) with F_SETLK and F_RDLCK, on a descriptor for the path.
  pub read_lock : State → Text → Bool
  -- The text that strftime makes of the current time.
  pub timestamp : State → Option Text

module _ {S : Type 0} (content : S → Text → Option (List ℕ)) where
  -- Every regular file is as it was.
  abbrev pub Same : S → S → Type 0
  Same s t = (q : Text) → content t q ≡ content s q

  -- So is every one but `p` whose path is the only one that leads to it.
  abbrev pub SameBut : (Text → Type 0) → Text → S → S → Type 0
  SameBut Sole p s t = (q : Text) → Sole q → q ≢ p → content t q ≡ content s q

-- What the calls promise of the contents of regular files.
pub record IsFileSystem (F : FileSystem) : Type 1 where
  -- The bytes of the regular file that a path leads to.
  pub content : F.State → Text → Option (List ℕ)
  -- No other path leads to the file of this one.
  pub Sole : Text → Type 0
  pub readable : IsReadable F.input
  -- A bound on the writes to come that take no byte.
  pub retries : F.State → ℕ
  pub open_in-content :
      (s : F.State) (p : Text) (i : F.input.State)
      → F.open_in s p ≡ some i
      → content s p ≢ none
      → content s p ≡ some (readable.rest i)
  -- Anything else that opens is a directory, on which read(2) fails with EISDIR.
  pub open_in-directory :
      (s : F.State) (p : Text) (i : F.input.State) (n : ℕ)
      → F.open_in s p ≡ some i
      → content s p ≡ none
      → (F.input.read i n).0 ≡ ReadReply.failed
  -- A regular file is there, and is no directory.
  pub access-content :
      (s : F.State) (p : Text) (b : List ℕ) → content s p ≡ some b → F.access s p ≡ true
  pub stat-content :
      (s : F.State) (p : Text) (b : List ℕ) (st : Stat)
      → content s p ≡ some b
      → F.stat s p ≡ some st
      → st.is_dir ≡ false
  pub open_out-content :
      (s t : F.State) (p : Text) (mode : ℕ)
      → F.open_out s p true mode ≡ (true, t)
      → content t p ≡ some []
  -- Without O_TRUNC the file keeps its bytes.
  pub open_out-regular :
      (s t : F.State) (p : Text) (mode : ℕ)
      → F.open_out s p false mode ≡ (true, t)
      → (b : List ℕ) × (content t p ≡ some b)
  pub open_out-SameBut :
      (s : F.State) (p : Text) (truncate : Bool) (mode : ℕ)
      → SameBut content Sole p s (F.open_out s p truncate mode).1
  pub open_out-Same :
      (s : F.State) (p : Text) (truncate : Bool) (mode : ℕ)
      → (F.open_out s p truncate mode).0 ≡ false
      → Same content s (F.open_out s p truncate mode).1
  -- After O_TRUNC each write is at the end of the file.
  pub write-content :
      (s t : F.State) (p : Text) (bs b : List ℕ) (n : ℕ)
      → F.write s p bs ≡ (wrote n, t)
      → content s p ≡ some b
      → content t p ≡ some (b ++ take n bs)
  pub write_at_most :
      (s t : F.State) (p : Text) (bs : List ℕ) (n : ℕ)
      → F.write s p bs ≡ (wrote n, t)
      → n ≤ length bs
  pub write_interrupted :
      (s t : F.State) (p : Text) (bs : List ℕ)
      → F.write s p bs ≡ (interrupted, t)
      → content t p ≡ content s p
  pub write-SameBut :
      (s : F.State) (p : Text) (bs : List ℕ) → SameBut content Sole p s (F.write s p bs).1
  pub retries-write :
      (s : F.State) (p : Text) (bs : List ℕ) → retries (F.write s p bs).1 ≤ retries s
  pub retries-wrote_zero :
      (s t : F.State) (p : Text) (bs : List ℕ)
      → 0 < length bs
      → F.write s p bs ≡ (wrote 0, t)
      → retries t < retries s
  pub retries-interrupted :
      (s t : F.State) (p : Text) (bs : List ℕ)
      → F.write s p bs ≡ (interrupted, t)
      → retries t < retries s
  pub retries-open_out :
      (s : F.State) (p : Text) (truncate : Bool) (mode : ℕ)
      → retries (F.open_out s p truncate mode).1 ≤ retries s
  pub pwrite-SameBut :
      (s : F.State) (p : Text) (bs : List ℕ) (offset : ℕ)
      → SameBut content Sole p s (F.pwrite s p bs offset).1
  -- Also a write that fails leaves a regular file.
  pub pwrite-regular :
      (s : F.State) (p : Text) (bs b : List ℕ) (offset : ℕ)
      → content s p ≡ some b
      → (b' : List ℕ) × (content (F.pwrite s p bs offset).1 p ≡ some b')
  pub fsync-Same : (s : F.State) (p : Text) → Same content s (F.fsync s p).1
  pub retries-fsync : (s : F.State) (p : Text) → retries (F.fsync s p).1 ≤ retries s
  pub mkdir-Same : (s : F.State) (p : Text) → Same content s (F.mkdir s p).1
  pub retries-mkdir : (s : F.State) (p : Text) → retries (F.mkdir s p).1 ≤ retries s
  pub chmod-Same : (s : F.State) (p : Text) (mode : ℕ) → Same content s (F.chmod s p mode)
  pub utime-Same : (s : F.State) (p : Text) (a m : ℕ) → Same content s (F.utime s p a m).1
  -- Renaming a regular file. Two links to one file both stay.
  pub rename-content :
      (s t : F.State) (src dst : Text) (b : List ℕ)
      → F.rename s src dst ≡ (renamed, t)
      → content s src ≡ some b
      → content t dst ≡ some b
  pub rename-gone :
      (s t : F.State) (src dst : Text) (b : List ℕ)
      → F.rename s src dst ≡ (renamed, t)
      → content s src ≡ some b
      → Sole src
      → src ≢ dst
      → content t src ≡ none
  pub rename-SameBut :
      (s t : F.State) (src dst q : Text) (b : List ℕ)
      → F.rename s src dst ≡ (renamed, t)
      → content s src ≡ some b
      → Sole q
      → q ≢ src
      → q ≢ dst
      → content t q ≡ content s q
  pub rename-Same :
      (s : F.State) (src dst : Text)
      → (F.rename s src dst).0 ≢ renamed
      → Same content s (F.rename s src dst).1
  pub retries-rename : (s : F.State) (src dst : Text) → retries (F.rename s src dst).1 ≤ retries s
  pub unlink-SameBut : (s : F.State) (p : Text) → SameBut content Sole p s (F.unlink s p).1

-- S_ISDIR
abbrev pub is_dir_mode : ℕ → Bool
is_dir_mode mode = mode / 4096 % 16 == 4
