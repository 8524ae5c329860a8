-- ===== src/Common/Decimal.antt =====
-- Decimal numerals, as `%d` of Go's fmt writes a number that is not negative.
use Prim.Native.Nat.{ℕ, zero, suc, ◌+◌, ◌*◌, ◌/◌, ◌%◌, ◌<◌}
use mathlib.Core.Path.{◌≡◌, ap, ◌∙◌}
use mathlib.Core.Logic.{inl, inr}
use mathlib.Core.List.{[], ◌∷◌, ◌++◌}
use native.Mathlib.Omega.{arith}
use go_cli_messenger.Common.Tests.{ltb, if◌then◌else◌, Bool-cases}
use go_cli_messenger.Common.Bytes.{Text}

-- The digits of a number below 10 ^ fuel.
decimal_from : ℕ → ℕ → Text
decimal_from zero n = []
decimal_from (suc f) n =
    let high = decimal_from f (n / 10) in
    if ltb n 10 then (b'0' + n) ∷ [] else high ++ (b'0' + n % 10) ∷ []

unfoldable pub decimal : ℕ → Text
unfolding decimal_from
decimal n = decimal_from (n + 1) n

-- A reader that takes the digits one by one reads the number back.
module _ {ℓ} {S : Type ℓ} (state : ℕ → S) (run : Text → S → S)
    (run-append : (s t : Text) (x : S) → run (s ++ t) x ≡ run t (run s x))
    (one : (n d : ℕ) → d < 10 → run ((b'0' + d) ∷ []) (state n) ≡ state (n * 10 + d)) where
  read_from : (f n : ℕ) → n < f → run (decimal_from f n) (state 0) ≡ state n
  unfolding decimal_from
  read_from zero n h = elim h [ ]
  read_from (suc f) n h = elim (Bool-cases (ltb n 10)) [
    | inl small ↦ rw small (one 0 n (ground arith) ∙ ap state (omega arith))
    | inr large ↦ rw large (
        run-append (decimal_from f (n / 10)) ((b'0' + n % 10) ∷ []) (state 0)
        ∙ ap (run ((b'0' + n % 10) ∷ [])) (read_from f (n / 10) (ground arith))
        ∙ one (n / 10) (n % 10) (omega arith)
        ∙ ap state (omega arith))
  ]

  pub read-decimal : (n : ℕ) → run (decimal n) (state 0) ≡ state n
  unfolding decimal
  read-decimal n = read_from (n + 1) n (omega arith)
