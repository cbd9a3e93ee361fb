-- ===== src/Base/Words.antt =====
-- Exclusive or with a bit above some digits of a word.
use Prim.Native.Nat.{
  ℕ, zero, suc, ◌+◌, ◌-◌, ◌*◌, ◌/◌, ◌%◌, ◌≤◌, ◌<◌, bit_xor, bit_xor-bitwise, digits, differ,
}
use mathlib.Core.Path.{◌≡◌, refl, sym, ap, ap₂, ◌∙◌}
use mathlib.Core.Logic.{◌⊎◌}
use native.Mathlib.Nat.{add_assoc, add-mul}
use native.Mathlib.Omega.{arith}

abbrev xor_digits : ℕ → ℕ → ℕ → ℕ
xor_digits n a b = digits (λ b. b) differ n a b

xor_digits_fuel : (n m a b : ℕ) → a ≤ n → a ≤ m → xor_digits n a b ≡ xor_digits m a b
xor_digits_fuel zero zero a b p q = refl
xor_digits_fuel zero (suc m) zero b p q = refl
xor_digits_fuel zero (suc m) (suc a) b p q = absurd (omega arith)
xor_digits_fuel (suc n) zero zero b p q = refl
xor_digits_fuel (suc n) zero (suc a) b p q = absurd (omega arith)
xor_digits_fuel (suc n) (suc m) zero b p q = refl
xor_digits_fuel (suc n) (suc m) (suc a) b p q =
    omega (arith, xor_digits_fuel n m (suc a / 2) (b / 2) (omega arith) (omega arith))

zero-bit_xor : (b : ℕ) → bit_xor 0 b ≡ b
zero-bit_xor b = bit_xor-bitwise 0 b

differ_zero : (x : ℕ) → differ x 0 ≡ x
differ_zero zero = refl
differ_zero (suc x) = refl

-- The lowest digit stays if the other number is even.
bit_xor-even : (a b : ℕ) → bit_xor a (b * 2) ≡ bit_xor (a / 2) b * 2 + a % 2
bit_xor-even zero b = omega (arith, zero-bit_xor (b * 2), zero-bit_xor b)
bit_xor-even (suc a) b =
    let half : b * 2 / 2 ≡ b = omega arith in
    let even : b * 2 % 2 ≡ 0 = omega arith in
    let rest : xor_digits a (suc a / 2) (b * 2 / 2) ≡ bit_xor (suc a / 2) b = rw half (
      xor_digits_fuel a (suc a / 2) (suc a / 2) b (omega arith) (omega arith)
      ∙ sym (bit_xor-bitwise (suc a / 2) b)) in
    let last : differ (suc a % 2) (b * 2 % 2) ≡ suc a % 2 = rw even (differ_zero (suc a % 2)) in
    bit_xor-bitwise (suc a) (b * 2) ∙ ap₂ (λ x y. x * 2 + y) rest last

-- The digits below a power of two stay.
abbrev Keeps : ℕ → Type 0
Keeps m = (a b : ℕ) → bit_xor a (b * m) ≡ bit_xor (a / m) b * m + a % m

-- So do they below a product of two such powers; the laws are of the numerals.
Keeps-mul :
    (m n k : ℕ)
    → Keeps m
    → Keeps n
    → ((a : ℕ) → a / m / n ≡ a / k)
    → ((a : ℕ) → a / m % n * m + a % m ≡ a % k)
    → ((b : ℕ) → b * n * m ≡ b * k)
    → Keeps k
Keeps-mul m n k keeps_m keeps_n quotient rest product a b =
    let q = bit_xor (a / k) b in
    let high : bit_xor (a / m) (b * n) ≡ q * n + a / m % n =
      keeps_n (a / m) b ∙ ap (λ x. bit_xor x b * n + a / m % n) (quotient a) in
    let spread : (q * n + a / m % n) * m + a % m ≡ q * n * m + (a / m % n * m + a % m) =
      ap (λ x. x + a % m) (add-mul (q * n) (a / m % n) m)
      ∙ add_assoc (q * n * m) (a / m % n * m) (a % m) in
    ap (bit_xor a) (sym (product b))
    ∙ keeps_m a (b * n)
    ∙ ap (λ x. x * m + a % m) high
    ∙ spread
    ∙ ap₂ ◌+◌ (product q) (rest a)

Keeps-4 : Keeps 4
Keeps-4 =
    Keeps-mul 2 2 4 bit_xor-even bit_xor-even (λ a. omega arith) (λ a. omega arith)
      (λ b. omega arith)

Keeps-16 : Keeps 16
Keeps-16 = Keeps-mul 4 4 16 Keeps-4 Keeps-4 (λ a. omega arith) (λ a. omega arith) (λ b. omega arith)

Keeps-256 : Keeps 256
Keeps-256 =
    Keeps-mul 16 16 256 Keeps-16 Keeps-16 (λ a. omega arith) (λ a. omega arith) (λ b. omega arith)

Keeps-8192 : Keeps 8192
Keeps-8192 =
    Keeps-mul 256 32 8192 Keeps-256
      (Keeps-mul 16 2 32 Keeps-16 bit_xor-even (λ a. omega arith) (λ a. omega arith)
        (λ b. omega arith))
      (λ a. omega arith) (λ a. omega arith) (λ b. omega arith)

Keeps-8388608 : Keeps 0x800000
Keeps-8388608 =
    Keeps-mul 8192 1024 0x800000 Keeps-8192
      (Keeps-mul 256 4 1024 Keeps-256 Keeps-4 (λ a. omega arith) (λ a. omega arith)
        (λ b. omega arith))
      (λ a. omega arith) (λ a. omega arith) (λ b. omega arith)

Keeps-32768 : Keeps 0x8000
Keeps-32768 =
    Keeps-mul 8192 4 0x8000 Keeps-8192 Keeps-4 (λ a. omega arith) (λ a. omega arith)
      (λ b. omega arith)

bit_xor-one : (q : ℕ) → q < 2 → bit_xor q 1 ≡ 1 - q
bit_xor-one zero h = refl
bit_xor-one (suc zero) h = refl
bit_xor-one (suc (suc q)) h = absurd (omega arith)

-- Exclusive or with the highest bit of a word of 24 bits, and of one of 16.
pub bit_xor-top24 : (a : ℕ) → a < 0x1000000 → bit_xor a 0x800000 ≡ (a + 0x800000) % 0x1000000
bit_xor-top24 a h =
    let e : bit_xor a 0x800000 ≡ bit_xor (a / 0x800000) 1 * 0x800000 + a % 0x800000 =
      Keeps-8388608 a 1 in
    omega (arith, e, bit_xor-one (a / 0x800000) (omega arith))

pub bit_xor-top16 : (a : ℕ) → a < 0x10000 → bit_xor a 0x8000 ≡ (a + 0x8000) % 0x10000
bit_xor-top16 a h =
    let e : bit_xor a 0x8000 ≡ bit_xor (a / 0x8000) 1 * 0x8000 + a % 0x8000 = Keeps-32768 a 1 in
    omega (arith, e, bit_xor-one (a / 0x8000) (omega arith))

bit_xor-zero_fuel : (n a : ℕ) → a ≤ n → bit_xor a 0 ≡ a
bit_xor-zero_fuel n zero h = refl
bit_xor-zero_fuel zero (suc a) h = absurd (omega arith)
bit_xor-zero_fuel (suc n) (suc a) h =
    omega (arith, bit_xor-even (suc a) 0, bit_xor-zero_fuel n (suc a / 2) (omega arith))

pub bit_xor-zero : (a : ℕ) → bit_xor a 0 ≡ a
bit_xor-zero a = bit_xor-zero_fuel a a (omega arith)

pub parity : (n : ℕ) → (n % 2 ≡ 0) ⊎ (n % 2 ≡ 1)
parity n = ground arith
