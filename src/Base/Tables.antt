-- ===== src/Base/Tables.antt =====
-- Arrays as functions of the index, such as a bank of registers.
use Prim.Native.Nat.{ℕ}
use mathlib.Core.Bool.{false}
use mathlib.Core.Path.{◌≡◌, refl}
use embassy.Base.Tests.{◌==◌, if◌then◌else◌, ==_refl}

-- An array with one element replaced.
abbrev pub put {ℓ} : {A : Type ℓ} → (ℕ → A) → ℕ → A → ℕ → A
put f n a m = if m == n then a else f m

pub put_self {ℓ} : {A : Type ℓ} (f : ℕ → A) (n : ℕ) (a : A) → put f n a n ≡ a
put_self f n a = rw (==_refl n) refl

pub put_other {ℓ} :
    {A : Type ℓ} (f : ℕ → A) (n m : ℕ) (a : A) → (m == n) ≡ false → put f n a m ≡ f m
put_other f n m a e = rw e refl
