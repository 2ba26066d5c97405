-- ===== src/Base/Texts.antt =====
-- Equality of texts as a decision, on which the tactics split, and as a Boolean test.
use Prim.Native.String.{String}
use mathlib.Core.Path.{◌≡◌}
use mathlib.Core.Bool.{Bool, true, false}
use mathlib.Core.Logic.{◌⊎◌, inl, inr}
use text.Mathlib.Text.{◌==◌}
use text.Mathlib.TextEquality.{eq_iff}

Bool-split : (b : Bool) → (b ≡ true) ⊎ (b ≡ false)
Bool-split true = inl (λ i. true)
Bool-split false = inr (λ i. false)

unfoldable pub String-discrete : Discrete String
unfolding Bool-split
String-discrete s t = elim (Bool-split (s == t)) [
  | inl h ↦ yes ((eq_iff s t).0 h)
  | inr h ↦ no (λ e. cc ((eq_iff s t).1 e))
]

abbrev pub same : String → String → Bool
same s t = elim (String-discrete s t) [ yes _ ↦ true | no _ ↦ false ]
