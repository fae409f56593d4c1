-- ===== src/Prelude/Int.antt =====
-- Signed integers over the native numbers: `negsuc n` is -(n + 1).
use Prim.Native.Nat.{ℕ, zero, suc}
use mathlib.Core.Path.{◌≡◌, refl}
use mathlib.Core.Logic.{◌↔◌}
use mathlib.Core.Bool.{Bool, true, false}
use native.Mathlib.Omega.{arith}

pub data ℤ : Type 0 where
  pos : ℕ → ℤ
  negsuc : ℕ → ℤ

abbrev pub is_zero : ℤ → Bool
is_zero (pos zero) = true
is_zero (pos (suc n)) = false
is_zero (negsuc n) = false

pub is_zero_iff : (a : ℤ) → (is_zero a ≡ true) ↔ (a ≡ pos 0)
is_zero_iff (pos zero) = (λ _. refl, λ _. refl)
is_zero_iff (pos (suc n)) = (λ h. ground arith, λ h. ground arith)
is_zero_iff (negsuc n) = (λ h. ground arith, λ h. ground arith)
