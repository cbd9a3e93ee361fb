-- ===== src/Base/Bits.antt =====
-- The bits of a word, as `trailing_zeros` and masks see them.
use Prim.Native.Nat.{ℕ, zero, suc, ◌+◌, ◌*◌, ◌/◌, ◌%◌}
use mathlib.Core.Bool.{Bool}
use embassy.Base.Tests.{◌==◌, if◌then◌else◌}

-- `x & (1 << b) != 0`.
abbrev pub bit : ℕ → ℕ → Bool
bit x zero = x % 2 == 1
bit x (suc b) = bit (x / 2) b

-- `x & !(1 << b)`.
abbrev pub clear_bit : ℕ → ℕ → ℕ
clear_bit x zero = x / 2 * 2
clear_bit x (suc b) = clear_bit (x / 2) b * 2 + x % 2

-- That of a word of so many bits.
abbrev pub trailing_zeros : ℕ → ℕ → ℕ
trailing_zeros zero x = 0
trailing_zeros (suc w) x = let rest = trailing_zeros w (x / 2) in if x % 2 == 1 then 0 else suc rest
