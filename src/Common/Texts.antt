-- ===== src/Common/Texts.antt =====
-- Comparison of texts, of optional texts, and of lists of texts.
use Prim.Native.String.{String}
use mathlib.Core.Path.{◌≡◌, refl, ap}
use mathlib.Core.Logic.{◌↔◌}
use mathlib.Core.Bool.{Bool, true, false}
use mathlib.Core.Option.{Option, none, some}
use mathlib.Core.List.{List, [], ◌∷◌}
use native.Mathlib.Omega.{arith}
use text.Mathlib.Text.{◌==◌}
use text.Mathlib.TextEquality.{eq_iff}
use real_time_logistics_plat.Common.Tests.{if◌then◌else◌}

-- `a === b` where each side may be `undefined`: two `undefined`s are equal.
unfoldable pub same_text? : Option String → Option String → Bool
same_text? none none = true
same_text? none (some t) = false
same_text? (some s) none = false
same_text? (some s) (some t) = s == t

pub same_text?_iff : (a b : Option String) → (same_text? a b ≡ true) ↔ (a ≡ b)
unfolding same_text?
same_text?_iff none none = (λ _. refl, λ _. refl)
same_text?_iff none (some t) = (λ e. cc, λ e. cc)
same_text?_iff (some s) none = (λ e. cc, λ e. cc)
same_text?_iff (some s) (some t) =
    (λ e. ap some ((eq_iff s t).0 e), λ e. (eq_iff s t).1 (ground arith))

-- `xs.includes(s)`.
unfoldable pub includes : List String → String → Bool
includes [] s = false
includes (x ∷ xs) s = if x == s then true else includes xs s
