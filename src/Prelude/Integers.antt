-- ===== src/Prelude/Integers.antt =====
-- Go's `int` as a sign and a native number: the library's names over another representation.
use Prim.Native.Nat.{ℕ}
use mathlib.Core.Bool.{Bool, false, ◌&&◌}
use kernel_su_tun2proxy.Prelude.Tests.{leb}

pub data ℤ : Type 0 where
  pos : ℕ → ℤ
  negsuc : ℕ → ℤ

-- `low <= i && i <= high`, for bounds that are not negative.
abbrev pub between : ℕ → ℕ → ℤ → Bool
between low high (pos n) = leb low n && leb n high
between low high (negsuc n) = false

-- `uint32(i)`
abbrev pub to_nat : ℤ → ℕ
to_nat (pos n) = n
to_nat (negsuc n) = 0
