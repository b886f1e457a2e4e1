-- ===== src/Base/Texts.antt =====
-- Go's `==` on strings and `strings.Contains`. `==` goes by a decision that stays shut in proofs,
-- so that a split on it yields the equation.
use Prim.Native.String.{String}
use mathlib.Core.Path.{◌≡◌}
use mathlib.Core.Logic.{ite, dite}
use mathlib.Core.Bool.{Bool, true, false, Bool-discrete}
use mathlib.Core.Option.{none, some}
use text.Mathlib.Text
use text.Mathlib.Text.{find?}
use text.Mathlib.TextEquality.{eq_iff}
use native.Mathlib.Omega.{arith}

unfoldable pub string_dec : Discrete String
string_dec s t =
    dite (Bool-discrete (Text.◌==◌ s t) true) (λ same. yes ((eq_iff s t).0 same))
      (λ differ. no (λ p. differ ((eq_iff s t).1 p)))

infix 50 ◌==◌
abbrev pub ◌==◌ : String → String → Bool
s == t = ite (string_dec s t) true false

-- `strings.Contains(s, part)`
unfoldable pub contains : String → String → Bool
contains s part = elim (find? s part) [ none ↦ false | some _ ↦ true ]

pub ==-refl : (s : String) → (s == s) ≡ true
==-refl s = ground arith

pub ==→eq : (s t : String) → (s == t) ≡ true → s ≡ t
==→eq s t h = ground arith
