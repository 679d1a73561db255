-- ===== src/FileSystem/Memory.antt =====
-- A file system in memory that meets the laws of FileSystem: no call fails or is interrupted, every path leads to
-- a file of its own, and there are no directories. The tests run on it.
use mathlib.Core.Logic.{ite}
use mini_sync.Common.{
  ℕ, zero, suc, ◌≡◌, refl, ◌≢◌, ap, sym, ◌∙◌, Bool, true, false, false≢true, Option, none, some,
  List, [], ◌∷◌, ◌++◌, arith, Text, codes, Text-discrete, length, take, drop, take_all,
  if◌then◌else◌,
}
use mini_sync.Input.Scheduled.{Stream, stream, stream-IsReadable}
use mini_sync.Output.{WriteReply, wrote}
use mini_sync.FileSystem.{FileSystem, IsFileSystem, made, RenameReply, renamed, Stat}

abbrev pub Files : Type 0
Files = Text → Option (List ℕ)

unfoldable pub set : Text → Option (List ℕ) → Files → Files
unfolding Text-discrete
set p o s q = ite (Text-discrete q p) o (s q)

pub set_same : (p : Text) (o : Option (List ℕ)) (s : Files) → set p o s p ≡ o
unfolding set
set_same p o s = elim (Text-discrete p p) as (λ d. ite d o (s p) ≡ o) [
  | yes e ↦ refl
  | no n ↦ absurd (n refl)
]

pub set_other : (p q : Text) (o : Option (List ℕ)) (s : Files) → q ≢ p → set p o s q ≡ s q
unfolding set
set_other p q o s ne = elim (Text-discrete q p) as (λ d. ite d o (s q) ≡ s q) [
  | yes e ↦ absurd (ne e)
  | no n ↦ refl
]

-- A file with zeros in its gaps.
abbrev pub patch : List ℕ → List ℕ → ℕ → List ℕ
patch file buf zero = buf ++ drop (length buf) file
patch [] buf (suc offset) = 0 ∷ patch [] buf offset
patch (b ∷ file) buf (suc offset) = b ∷ patch file buf offset

abbrev pub bytes_or_none : Option (List ℕ) → List ℕ
bytes_or_none none = []
bytes_or_none (some b) = b

abbrev pub opened : Option (List ℕ) → Option Stream
opened none = none
opened (some b) = some (record { bytes = b; events = [] })

abbrev pub move : Files → (src dst : Text) → Option (List ℕ) → RenameReply × Files
move s src dst none = (RenameReply.failed, s)
move s src dst (some b) = (renamed, set dst (some b) (set src none s))

abbrev pub stat_of : Option (List ℕ) → Option Stat
stat_of none = none
stat_of (some b) = some (record { is_reg = true; is_dir = false; size = length b })

abbrev pub is_some : Option (List ℕ) → Bool
is_some none = false
is_some (some b) = true

abbrev pub memory : FileSystem
memory = record {
  State = Files;
  input = stream;
  seek = λ i offset. some (record { bytes = drop offset i.bytes; events = i.events });
  open_in = λ s p. opened (s p);
  open_out =
      λ s p truncate mode. (true, set p (some (if truncate then [] else bytes_or_none (s p))) s);
  write = λ s p bs. (wrote (length bs), set p (some (bytes_or_none (s p) ++ bs)) s);
  pwrite = λ s p bs offset. (true, set p (some (patch (bytes_or_none (s p)) bs offset)) s);
  fsync = λ s p. (true, s);
  mkdir = λ s p. (made, s);
  rename = λ s src dst. move s src dst (s src);
  unlink = λ s p. (true, set p none s);
  stat = λ s p. stat_of (s p);
  access = λ s p. is_some (s p);
  chmod = λ s p mode. s;
  utime = λ s p a m. (true, s);
  read_lock = λ s p. true;
  timestamp = λ s. some (codes "2024-05-06_07-08-09");
}

abbrev Sole : Text → Type 0
Sole p = Unit

pub opened_lem : (o : Option (List ℕ)) (i : Stream) → opened o ≡ some i → o ≡ some i.bytes
opened_lem none i e = cc
opened_lem (some b) i e =
    let same : record { bytes = b; events = [] } ≡ i = cc in ap (λ j. some j.bytes) same

pub opened-none : (o : Option (List ℕ)) (i : Stream) → o ≡ none → opened o ≢ some i
opened-none none i missing e = cc
opened-none (some b) i missing e = cc

pub move-failed :
    (s : Files) (src dst : Text) (o : Option (List ℕ))
    → (move s src dst o).0 ≢ renamed
    → (move s src dst o).1 ≡ s
move-failed s src dst none ne = refl
move-failed s src dst (some b) ne = absurd (ne refl)

pub memory-OneDevice :
    (s : Files) (src dst : Text) → (memory.rename s src dst).0 ≢ RenameReply.cross_device
memory-OneDevice s src dst = one (s src)
  where
    one : (o : Option (List ℕ)) → (move s src dst o).0 ≢ RenameReply.cross_device
    one none e = cc
    one (some b) e = cc

pub moved :
    (s t : Files) (src dst : Text) (b : List ℕ) (reply : RenameReply)
    → move s src dst (s src) ≡ (reply, t)
    → s src ≡ some b
    → t ≡ set dst (some b) (set src none s)
moved s t src dst b reply e at = sym (ap (λ o. o.1) e) ∙ ap (λ o. (move s src dst o).1) at

pub wrote-ne-interrupted :
    (s t : Files) (p : Text) (bs : List ℕ) → memory.write s p bs ≢ (WriteReply.interrupted, t)
wrote-ne-interrupted s t p bs e =
    let same : wrote (length bs) ≡ WriteReply.interrupted = ap (λ o. o.0) e in cc

pub stat_lem :
    (o : Option (List ℕ)) (b : List ℕ) (st : Stat)
    → o ≡ some b
    → stat_of o ≡ some st
    → st.is_dir ≡ false
stat_lem none b st e k = cc
stat_lem (some c) b st e k =
    let same : record { is_reg = true; is_dir = false; size = length c } ≡ st = cc in
    ap (λ r. r.is_dir) (sym same)

pub wrote_all :
    (s t : Files) (p : Text) (bs : List ℕ) (n : ℕ)
    → memory.write s p bs ≡ (wrote n, t)
    → length bs ≡ n
wrote_all s t p bs n e = let same : wrote (length bs) ≡ wrote n = ap (λ o. o.0) e in cc

pub wrote_lem :
    (s t : Files) (p : Text) (bs b : List ℕ) (n : ℕ)
    → memory.write s p bs ≡ (wrote n, t)
    → s p ≡ some b
    → t p ≡ some (b ++ take n bs)
wrote_lem s t p bs b n e at =
    ap (λ o. o.1 p) (sym e)
    ∙ set_same p (some (bytes_or_none (s p) ++ bs)) s
    ∙ ap (λ o. some (bytes_or_none o ++ bs)) at
    ∙ ap (λ x. some (b ++ x)) (sym (take_all n bs (omega (arith, wrote_all s t p bs n e))))

abbrev pub memory-IsFileSystem : IsFileSystem memory
memory-IsFileSystem = record {
  content = λ s p. s p;
  Sole = Sole;
  readable = stream-IsReadable;
  retries = λ s. 0;
  open_in-content = λ s p i e file. opened_lem (s p) i e;
  open_in-directory = λ s p i n e missing. absurd (opened-none (s p) i missing e);
  access-content = λ s p b e. ap is_some e;
  stat-content = λ s p b st e k. stat_lem (s p) b st e k;
  open_out-content = λ s t p mode e. ap (λ o. o.1 p) (sym e) ∙ set_same p (some []) s;
  open_out-regular =
      λ s t p mode e. (bytes_or_none (s p), ap (λ o. o.1 p) (sym e) ∙ set_same p _ s);
  open_out-SameBut = λ s p truncate mode q sole ne. set_other p q _ s ne;
  open_out-Same = λ s p truncate mode e. absurd (false≢true (sym e));
  write-content = λ s t p bs b n e at. wrote_lem s t p bs b n e at;
  write_at_most = λ s t p bs n e. omega (arith, wrote_all s t p bs n e);
  write_interrupted = λ s t p bs e. absurd (wrote-ne-interrupted s t p bs e);
  write-SameBut = λ s p bs q sole ne. set_other p q _ s ne;
  retries-write = λ s p bs. omega arith;
  retries-wrote_zero = λ s t p bs h e. absurd (omega (arith, wrote_all s t p bs 0 e));
  retries-interrupted = λ s t p bs e. absurd (wrote-ne-interrupted s t p bs e);
  retries-open_out = λ s p truncate mode. omega arith;
  pwrite-SameBut = λ s p bs offset q sole ne. set_other p q _ s ne;
  pwrite-regular = λ s p bs b offset at. (patch (bytes_or_none (s p)) bs offset, set_same p _ s);
  fsync-Same = λ s p q. refl;
  retries-fsync = λ s p. omega arith;
  mkdir-Same = λ s p q. refl;
  retries-mkdir = λ s p. omega arith;
  chmod-Same = λ s p mode q. refl;
  utime-Same = λ s p a m q. refl;
  rename-content = λ s t src dst b e at.
      ap (λ f. f dst) (moved s t src dst b renamed e at) ∙ set_same dst (some b) (set src none s);
  rename-gone = λ s t src dst b e at sole ne.
      ap (λ f. f src) (moved s t src dst b renamed e at)
      ∙ set_other dst src (some b) (set src none s) ne
      ∙ set_same src none s;
  rename-SameBut = λ s t src dst q b e at sole ne ne'.
      ap (λ f. f q) (moved s t src dst b renamed e at)
      ∙ set_other dst q (some b) (set src none s) ne'
      ∙ set_other src q none s ne;
  rename-Same = λ s src dst ne q. ap (λ f. f q) (move-failed s src dst (s src) ne);
  retries-rename = λ s src dst. omega arith;
  unlink-SameBut = λ s p q sole ne. set_other p q none s ne;
}
