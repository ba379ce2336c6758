-- ===== src/Base/Loops.antt =====
-- The `while` loop on fuel, with the rule that proves an invariant and that the loop ends by its
-- test.
use Prim.Native.Nat.{ℕ, zero, suc, ◌<◌}
use mathlib.Core.Path.{◌≡◌}
use mathlib.Core.Bool.{Bool, true, false}
use native.Mathlib.Omega.{arith}

module _ {ℓ} {State : Type ℓ} (goes_on : State → Bool) (round : State → State) where
  unfoldable pub while : ℕ → State → State
  while zero s = s
  while (suc fuel) s =
      let later = while fuel (round s) in elim (goes_on s) [ false ↦ s | true ↦ later ]

  -- What a round must do: keep the invariant and shrink the state.
  abbrev pub Shrinks {κ} : (State → Type κ) → (State → ℕ) → Type (ℓ ⊔ κ)
  Shrinks Inv size =
      (s : State) → goes_on s ≡ true → Inv s → (size (round s) < size s) × Inv (round s)

  -- With more fuel than the size of the first state the loop ends by its test, and the invariant
  -- holds.
  pub while_inv {κ} :
      (Inv : State → Type κ) (size : State → ℕ) (rounds : Shrinks Inv size) (fuel : ℕ) (s : State)
      → Inv s
      → size s < fuel
      → (goes_on (while fuel s) ≡ false) × Inv (while fuel s)
  unfolding while
  while_inv Inv size rounds zero s i enough = absurd (omega arith)
  while_inv Inv size rounds (suc fuel) s i enough =
      ground (arith, rounds s, while_inv Inv size rounds fuel (round s))
