-- ===== src/Common/Strings.antt =====
-- C strings: the bytes before the terminating NUL, as a list of numbers.
use Prim.Native.Nat.{ℕ}
use Prim.Native.Char.{code}
use Prim.Native.String.{String}
use mathlib.Core.Path.{refl, ap, ap₂}
use mathlib.Core.Logic.{ite, dite}
use mathlib.Core.Bool.{Bool, true, false}
use mathlib.Core.List.{List, [], ◌∷◌, tail}
use native.Mathlib.Decide.{ℕ_discrete}

abbrev pub Text : Type 0
Text = List ℕ

abbrev head_or : ℕ → Text → ℕ
head_or d [] = d
head_or d (x ∷ xs) = x

-- The bytes of an ASCII literal.
abbrev pub codes : String → Text
codes String.[] = []
codes (String.◌∷◌ c s) = code c ∷ codes s

unfoldable pub Text-discrete : Discrete Text
unfolding ℕ_discrete
Text-discrete [] [] = yes refl
Text-discrete [] (b ∷ t) = no (λ e. cc)
Text-discrete (a ∷ s) [] = no (λ e. cc)
Text-discrete (a ∷ s) (b ∷ t) =
    let rest = Text-discrete s t in
    dite (ℕ_discrete a b) (λ p. dite rest (λ q. yes (ap₂ ◌∷◌ p q)) (λ n. no (λ e. n (ap tail e))))
      (λ n. no (λ e. n (ap (head_or a) e)))

-- `strcmp(a, b) == 0`
abbrev pub text_eq : Text → Text → Bool
text_eq a b = ite (Text-discrete a b) true false
