-- ===== src/Prelude/Int.antt =====
-- The integers that Python's `int` reads; `negsuc n` is -(n + 1).
use Prim.Native.Nat.{ℕ}
use mathlib.Core.Option.{Option, none, some}

pub data ℤ : Type 0 where
  pos : ℕ → ℤ
  negsuc : ℕ → ℤ

-- `value if value >= 0 else None`
abbrev pub non_negative : Option ℤ → Option ℕ
non_negative none = none
non_negative (some (pos n)) = some n
non_negative (some (negsuc _)) = none
