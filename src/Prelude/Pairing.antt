-- ===== src/Prelude/Pairing.antt =====
-- An injective pairing of texts, of which the tests make a hash without collisions, and texts that
-- write a time as so many characters.
use Prim.Native.Nat.{ℕ, zero, suc}
use Prim.Native.String.{String, [], ◌∷◌}
use mathlib.Core.Path.{◌≡◌, refl, ap}
use mathlib.Core.Bool.{Bool, true, false}
use mathlib.Core.Option.{Option, none, some}
use text.Mathlib.Text.{◌==◌}
use native.Mathlib.Omega.{arith}

unfoldable pub pair_text : String → String → String
pair_text [] t = "n" ∷ t
pair_text (c ∷ s) t = "c" ∷ c ∷ pair_text s t

unfoldable pub option_text : Option String → String
option_text none = []
option_text (some t) = "s" ∷ t

abbrev pub is_empty : String → Bool
is_empty [] = true
is_empty (c ∷ s) = false

abbrev tag : String → String
tag [] = "x"
tag (c ∷ s) = c ∷ []

pub pair_text_injective : (s t u v : String) → pair_text s t ≡ pair_text u v → (s ≡ u) × (t ≡ v)
unfolding pair_text
pair_text_injective [] t [] v e = ground (arith, e)
pair_text_injective [] t (d ∷ u) v e = absurd (ground (arith, ap (λ x. tag x == "n") e))
pair_text_injective (c ∷ s) t [] v e = absurd (ground (arith, ap (λ x. tag x == "n") e))
pair_text_injective (c ∷ s) t (d ∷ u) v e =
    let same : pair_text s t ≡ pair_text u v = ground (arith, e) in
    let rest = pair_text_injective s t u v same in ground (arith, e, rest)

pub option_text_injective : (a b : Option String) → option_text a ≡ option_text b → a ≡ b
unfolding option_text
option_text_injective none none e = refl
option_text_injective none (some t) e = absurd (ground (arith, ap (λ x. tag x == "x") e))
option_text_injective (some s) none e = absurd (ground (arith, ap (λ x. tag x == "x") e))
option_text_injective (some s) (some t) e = ground (arith, e)

unfoldable pub marks : ℕ → String
marks zero = []
marks (suc n) = "|" ∷ marks n

unfoldable pub count_marks : String → ℕ
count_marks [] = 0
count_marks (c ∷ s) = suc (count_marks s)

pub count_marks-marks : (n : ℕ) → count_marks (marks n) ≡ n
unfolding count_marks marks
count_marks-marks zero = refl
count_marks-marks (suc n) = ap suc (count_marks-marks n)
