-- ===== src/Tests/Places.antt =====
-- Paths, files and a layout of them in memory that the tests on files share.
use mathlib.Core.Path.{subst}
use mathlib.Core.Logic.{ite}
use mini_sync.Common.{
  ℕ, ◌+◌, ◌<◌, ◌≡◌, refl, ◌≢◌, ◌∙◌, sym, ap, true, false, false≢true, none, some, List, [], ◌++◌,
  arith, Text, codes, text_eq, Text-discrete, length,
}
use mini_sync.Input.Scheduled.{signals}
use mini_sync.FilePath.{
  skip_slashes, is_slash_at, join_path, sanitize_rel_path, contains, starts_with,
}
use mini_sync.FilePath.Target.{max_path_len, current_path}
use mini_sync.FileSystem.{IsFileSystem}
use mini_sync.FileSystem.Memory.{Files, opened, memory, memory-IsFileSystem, set}
use mini_sync.FileOps.{syncing_path, stamped_path}
use mini_sync.FileOps.Copy.{EnoughFor}
use mini_sync.FileOps.Kept.{IsVersion, Apart, Placed}
use mini_sync.FileOps.Checked.{AmpleAt}
use mini_sync.Local.Sync.{IsLaidOut}

abbrev pub L : IsFileSystem memory
L = memory-IsFileSystem

pub text_self : (q : Text) → text_eq q q ≡ true
text_self q = elim (Text-discrete q q) as (λ d. ite d true false ≡ true) [
  | yes e ↦ refl
  | no n ↦ absurd (n refl)
]

-- Two texts that the comparison tells apart.
pub ne : (p q : Text) → text_eq p q ≡ false → p ≢ q
ne p q e same = absurd (false≢true (sym e ∙ ap (λ x. text_eq x q) same ∙ text_self q))

pub memory-Ample :
    (fuel : ℕ) (b : List ℕ)
    → length b < fuel
    → (t : Files) (p : Text) → t p ≡ some b
    → EnoughFor memory L fuel t p
memory-Ample fuel b enough t p at i e =
    let found : some (record { bytes = b; events = [] }) ≡ some i = ap opened (sym at) ∙ e in
    let same : record { bytes = b; events = [] } ≡ i = cc in
    subst (λ j. length j.bytes + signals j.events + 0 < fuel) same (omega (arith, enough))

abbrev pub root : Text
root = codes "/b"

abbrev pub rel : Text
rel = codes "f"

abbrev pub source : Text
source = codes "/s/f"

abbrev pub target : Text
target = codes "/b/current/f"

abbrev pub temporary : Text
temporary = codes "/b/current/f.syncing"

abbrev pub version : Text
version = codes "/b/.versions/2024-05-06_07-08-09/f"

pub target-at : current_path max_path_len root rel ≡ some target
unfolding current_path join_path skip_slashes is_slash_at sanitize_rel_path contains starts_with
    Text-discrete
target-at = refl

pub version-at : (s : Files) → stamped_path memory s root (codes ".versions") rel ≡ some version
unfolding stamped_path join_path skip_slashes is_slash_at
version-at s = refl

pub trash-at :
    (s : Files)
    → stamped_path memory s root (codes ".trash") rel
      ≡ some (codes "/b/.trash/2024-05-06_07-08-09/f")
unfolding stamped_path join_path skip_slashes is_slash_at
trash-at s = refl

pub temporary-at : syncing_path target ≡ some temporary
unfolding syncing_path
temporary-at = refl

pub version_temporary-at : syncing_path version ≡ some (version ++ codes ".syncing")
unfolding syncing_path
version_temporary-at = refl

pub the_version : (v : Text) → IsVersion memory L root rel v → version ≡ v
the_version v (s, e) = let same : some version ≡ some v = sym (version-at s) ∙ e in cc

pub apart :
    (p : Text)
    → text_eq p version ≡ false
    → text_eq p (version ++ codes ".syncing") ≡ false
    → Apart memory L root rel p
apart p e e' v tmp is = (
  λ same. ne p version e (same ∙ sym (the_version v is)),
  λ named same. ne p (version ++ codes ".syncing") e' (same ∙ temporary_of named),
)
  where
    temporary_of : syncing_path v ≡ some tmp → tmp ≡ version ++ codes ".syncing"
    temporary_of named =
        let same : some tmp ≡ some (version ++ codes ".syncing") =
          sym named ∙ ap syncing_path (sym (the_version v is)) ∙ version_temporary-at in
        cc

pub placed : Placed memory L root rel target
unfolding Text-discrete
placed = record {
  at = target-at;
  sole = tt;
  versions_sole = λ v is. tt;
  apart = apart target refl refl;
}

pub laid_out : IsLaidOut memory L root rel source target temporary
unfolding Text-discrete
laid_out = record {
  placed = placed;
  named = temporary-at;
  src_sole = tt;
  src_apart = apart source refl refl;
  src-dst = ne source target refl;
  src-tmp = ne source temporary refl;
  versions-tmp = λ v is e. ne version temporary refl (the_version v is ∙ e);
}

-- A source that is newer than its target.
abbrev pub files : Files
files = set source (some (codes "new text")) (set target (some (codes "old")) (λ p. none))

pub AmpleAt-of_length :
    (fuel : ℕ) (s : Files) (p : Text) (c : List ℕ)
    → s p ≡ some c
    → length c < fuel
    → AmpleAt memory L fuel s p
AmpleAt-of_length fuel s p c at enough t q same = memory-Ample fuel c enough t q (same ∙ at)

pub source-at : files source ≡ some (codes "new text")
unfolding set Text-discrete
source-at = refl

pub target_holds : files target ≡ some (codes "old")
unfolding set Text-discrete
target_holds = refl
