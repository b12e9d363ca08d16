-- ===== src/Common/Int.antt =====
-- A counter that code increments and decrements with no check: it may fall below 0.
use Prim.Native.Nat.{ℕ, zero, suc}
use mathlib.Core.Path.{◌≡◌, refl}
use mathlib.Core.Bool.{Bool, false}
use state_channels.Common.Tests.{◌==◌}

-- `negsuc n` is -(n + 1).
pub data ℤ : Type 0 where
  pos : ℕ → ℤ
  negsuc : ℕ → ℤ

-- `counter++`
unfoldable pub increment : ℤ → ℤ
increment (pos n) = pos (suc n)
increment (negsuc zero) = pos 0
increment (negsuc (suc n)) = negsuc n

-- `counter--`
unfoldable pub decrement : ℤ → ℤ
decrement (pos zero) = negsuc 0
decrement (pos (suc n)) = pos n
decrement (negsuc n) = negsuc (suc n)

-- `counter === n`
abbrev pub equals : ℤ → ℕ → Bool
equals (pos m) n = m == n
equals (negsuc m) n = false

pub decrement-increment : (z : ℤ) → decrement (increment z) ≡ z
unfolding increment decrement
decrement-increment (pos n) = refl
decrement-increment (negsuc zero) = refl
decrement-increment (negsuc (suc n)) = refl

pub increment-pos : (n : ℕ) → increment (pos n) ≡ pos (suc n)
unfolding increment
increment-pos n = refl

pub decrement-pos : (n : ℕ) → decrement (pos (suc n)) ≡ pos n
unfolding decrement
decrement-pos n = refl
