-- ===== src/Base/Order.antt =====
-- Python's order on texts, by the code points.
use Prim.Native.Char.{code}
use Prim.Native.String as Str
use Prim.Native.String.{String}
use mathlib.Core.Path.{◌≡◌, refl}
use mathlib.Core.Bool.{Bool, true, false}
use native.Mathlib.Omega.{arith}
use assist.Base.Tests.{ltb, ◌==◌, if◌then◌else◌}

-- s < t
unfoldable pub before : String → String → Bool
before s Str.[] = false
before Str.[] (Str.◌∷◌ d t) = true
before (Str.◌∷◌ c s) (Str.◌∷◌ d t) =
    let rest = before s t in
    if ltb (code c) (code d) then true else if code c == code d then rest else false

pub before_irrefl : (s : String) → before s s ≡ false
unfolding before
before_irrefl Str.[] = refl
before_irrefl (Str.◌∷◌ c s) = ground (arith, before_irrefl s)

pub before_trans : (s t u : String) → before s t ≡ true → before t u ≡ true → before s u ≡ true
unfolding before
before_trans s Str.[] u h k = absurd (cc h)
before_trans s (Str.◌∷◌ d t) Str.[] h k = absurd (cc k)
before_trans Str.[] (Str.◌∷◌ d t) (Str.◌∷◌ e u) h k = refl
before_trans (Str.◌∷◌ c s) (Str.◌∷◌ d t) (Str.◌∷◌ e u) h k =
    ground (arith, h, k, before_trans s t u)

pub before_cotrans : (s t u : String) → before s u ≡ true → before t u ≡ false → before s t ≡ true
unfolding before
before_cotrans s t Str.[] h k = absurd (cc h)
before_cotrans s Str.[] (Str.◌∷◌ e u) h k = absurd (cc k)
before_cotrans Str.[] (Str.◌∷◌ d t) (Str.◌∷◌ e u) h k = refl
before_cotrans (Str.◌∷◌ c s) (Str.◌∷◌ d t) (Str.◌∷◌ e u) h k =
    ground (arith, h, k, before_cotrans s t u)
