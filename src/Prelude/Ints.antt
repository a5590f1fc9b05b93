-- ===== src/Prelude/Ints.antt =====
-- `int`s that bound a count.
use Prim.Native.Nat.{ℕ}
use mathlib.Core.Bool.{Bool, true}
use polymarket_live_maker.Prelude.Tests.{ltb, leb}

pub data ℤ : Type 0 where
  pos : ℕ → ℤ
  negsuc : ℕ → ℤ

-- `n >= z` and `n > z` for a count `n`.
abbrev pub reaches : ℕ → ℤ → Bool
reaches n (ℤ.pos m) = leb m n
reaches n (ℤ.negsuc m) = true

abbrev pub exceeds : ℕ → ℤ → Bool
exceeds n (ℤ.pos m) = ltb m n
exceeds n (ℤ.negsuc m) = true
