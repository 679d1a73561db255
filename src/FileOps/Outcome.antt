-- ===== src/FileOps/Outcome.antt =====
-- Statements about a step of src/file_utils.c that returns 0 or -1 and needs no more fuel than it has.
use mini_sync.Net.{Io, done, broken, out_of_fuel, and_then}
use mini_sync.FileOps.{or_clean}

-- Enough fuel; `P` holds of the state after 0, `Q` of that after -1.
abbrev pub Outcome {ℓ} : {S : Type ℓ} → (P Q : S → Type 0) → Io (Unit {0}) S → Type 0
Outcome P Q (done _ s) = P s
Outcome P Q (broken s) = Q s
Outcome P Q out_of_fuel = ⊥

module _ {ℓ} {S : Type ℓ} (P Q P' Q' : S → Type 0) where
  pub Outcome-and_then :
      (r : Io (Unit {0}) S) (k : Unit {0} → S → Io (Unit {0}) S)
      → Outcome P Q r
      → ((s : S) → P s → Outcome P' Q' (k tt s))
      → ((s : S) → Q s → Q' s)
      → Outcome P' Q' (and_then r k)
  Outcome-and_then (done _ s) k h next fail = next s h
  Outcome-and_then (broken s) k h next fail = fail s h
  Outcome-and_then out_of_fuel k h next fail = absurd h

  pub Outcome-weaken :
      (r : Io (Unit {0}) S)
      → Outcome P Q r
      → ((s : S) → P s → P' s)
      → ((s : S) → Q s → Q' s)
      → Outcome P' Q' r
  Outcome-weaken (done _ s) h good bad = good s h
  Outcome-weaken (broken s) h good bad = bad s h
  Outcome-weaken out_of_fuel h good bad = absurd h

  pub Outcome-or_clean :
      (r : Io (Unit {0}) S) (clean : S → S)
      → Outcome P Q r
      → ((s : S) → P s → P' s)
      → ((s : S) → Q s → Q' (clean s))
      → Outcome P' Q' (or_clean r clean)
  Outcome-or_clean (done _ s) clean h good bad = good s h
  Outcome-or_clean (broken s) clean h good bad = bad s h
  Outcome-or_clean out_of_fuel clean h good bad = absurd h
