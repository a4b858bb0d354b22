-- ===== src/Prelude/Int.antt =====
-- Redis counters: signed integers with INCR, DECR and the comparison of a Lua script.
use Prim.Native.Nat.{ℕ, zero, suc}
use mathlib.Core.Path.{◌≡◌, refl}
use mathlib.Core.Bool.{Bool, true, false}
use stask_service.Prelude.Tests.{ltb}

-- `negsuc n` is -(n + 1).
pub data ℤ : Type 0 where
  pos : ℕ → ℤ
  negsuc : ℕ → ℤ

-- INCR
abbrev pub succ : ℤ → ℤ
succ (pos n) = pos (suc n)
succ (negsuc zero) = pos 0
succ (negsuc (suc n)) = negsuc n

-- DECR
abbrev pub pred : ℤ → ℤ
pred (pos zero) = negsuc 0
pred (pos (suc n)) = pos n
pred (negsuc n) = negsuc (suc n)

-- `n < z`, for a limit `n` that is not negative
abbrev pub exceeds : ℤ → ℕ → Bool
exceeds (pos z) n = ltb n z
exceeds (negsuc z) n = false

abbrev pub is_negative : ℤ → Bool
is_negative (pos z) = false
is_negative (negsuc z) = true

abbrev pub IsNat : ℤ → Type 0
IsNat (pos n) = Unit
IsNat (negsuc n) = ⊥

pub pred-succ : (z : ℤ) → pred (succ z) ≡ z
pred-succ (pos n) = refl
pred-succ (negsuc zero) = refl
pred-succ (negsuc (suc n)) = refl
