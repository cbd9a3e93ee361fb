-- ===== src/Nrf/Gpiote/Bits.antt =====
-- A loop over `BitIter` sees each bit that is set once, in ascending order.
use mathlib.Core.Option
use embassy.Base.{
  ℕ, zero, suc, ◌*◌, ◌/◌, ◌%◌, ◌≤◌, ◌≡◌, refl, sym, ap, ◌∙◌, inl, inr, true, false, ◌&&◌, ◌||◌,
  Option, none, some, List, [], ◌∷◌, map, arith, ltb, ◌==◌, if◌then◌else◌, Bool-cases,
}
use embassy.Base.Words.{parity}
use embassy.Base.Bits.{bit, trailing_zeros}
use embassy.Executor.{mem}
use embassy.Nrf.Gpiote.{next_bit, bit_iter}

-- The indices of the bits that are set, of so many bits.
unfoldable pub set_bits : ℕ → ℕ → List ℕ
set_bits zero x = []
set_bits (suc w) x =
    let rest = map suc (set_bits w (x / 2)) in if x % 2 == 1 then 0 ∷ rest else rest

-- The next bit of twice a word.
abbrev doubled : ℕ × ℕ → ℕ × ℕ
doubled (b, rest) = (suc b, rest * 2)

next_bit-double : (w x : ℕ) → next_bit (suc w) (x * 2) ≡ Option.map doubled (next_bit w x)
unfolding next_bit
next_bit-double w x =
    let even : x * 2 % 2 ≡ 0 = omega arith in
    let half : x * 2 / 2 ≡ x = omega arith in
    let b = trailing_zeros w x in
    rw (even, half)
      (elim (Bool-cases (b == w)) [
        | inl all ↦ let all' : (suc b == suc w) ≡ true = ground arith in rw (all, all') refl
        | inr other ↦
            let other' : (suc b == suc w) ≡ false = ground arith in
            rw (other, other') (ap (λ r. some (suc b, r)) (omega arith))
      ])

next_bit-odd : (w x : ℕ) → x % 2 ≡ 1 → next_bit (suc w) x ≡ some (0, x / 2 * 2)
unfolding next_bit
next_bit-odd w x odd = let first : (0 == suc w) ≡ false = ground arith in rw (odd, first) refl

-- The rounds of a loop on twice a word, if those after the first are known.
rounds :
    (fuel w : ℕ)
    → ((y : ℕ) → bit_iter fuel (suc w) (y * 2) ≡ map suc (bit_iter fuel w y))
    → (o : Option (ℕ × ℕ))
    → elim (Option.map doubled o) as (λ y. List ℕ) [
      | none ↦ []
      | some c ↦ c.0 ∷ bit_iter fuel (suc w) c.1
    ]
      ≡ map suc (elim o as (λ y. List ℕ) [ none ↦ [] | some c ↦ c.0 ∷ bit_iter fuel w c.1 ])
rounds fuel w later none = refl
rounds fuel w later (some (b, rest)) = ap (λ l. suc b ∷ l) (later rest)

bit_iter-double : (fuel w x : ℕ) → bit_iter fuel (suc w) (x * 2) ≡ map suc (bit_iter fuel w x)
unfolding bit_iter
bit_iter-double zero w x = refl
bit_iter-double (suc fuel) w x =
    ap (λ o. elim o as (λ y. List ℕ) [ none ↦ [] | some c ↦ c.0 ∷ bit_iter fuel (suc w) c.1 ])
      (next_bit-double w x)
    ∙ rounds fuel w (λ y. bit_iter-double fuel w y) (next_bit w x)

-- As many rounds as a word has bits, or more, see the bits that are set, in ascending order.
pub bit_iter-set_bits : (w fuel x : ℕ) → w ≤ fuel → bit_iter fuel w x ≡ set_bits w x
unfolding bit_iter set_bits next_bit
bit_iter-set_bits zero zero x enough = refl
bit_iter-set_bits zero (suc fuel) x enough = refl
bit_iter-set_bits (suc w) zero x enough = absurd (omega arith)
bit_iter-set_bits (suc w) (suc fuel) x enough = elim (parity x) [
  | inl even ↦
      let whole : x ≡ x / 2 * 2 = omega arith in
      ap (bit_iter (suc fuel) (suc w)) whole
      ∙ bit_iter-double (suc fuel) w (x / 2)
      ∙ ap (map suc) (bit_iter-set_bits w (suc fuel) (x / 2) (omega arith))
      ∙ sym (rw even refl)
  | inr odd ↦
      first_round odd
      ∙ ap (λ l. 0 ∷ l)
          (bit_iter-double fuel w (x / 2)
            ∙ ap (map suc) (bit_iter-set_bits w fuel (x / 2) (omega arith)))
      ∙ sym (rw odd refl)
]
  where
    first_round : x % 2 ≡ 1 → bit_iter (suc fuel) (suc w) x ≡ 0 ∷ bit_iter fuel (suc w) (x / 2 * 2)
    first_round odd =
        ap (λ o. elim o as (λ y. List ℕ) [ none ↦ [] | some c ↦ c.0 ∷ bit_iter fuel (suc w) c.1 ])
          (next_bit-odd w x odd)

-- What `set_bits` holds.
mem-map-suc : (b : ℕ) (l : List ℕ) → mem (suc b) (map suc l) ≡ mem b l
mem-map-suc b [] = refl
mem-map-suc b (x ∷ l) =
    let same : (suc b == suc x) ≡ (b == x) = ground arith in
    rw same (ap (λ m. (b == x) || m) (mem-map-suc b l))

zero-map-suc : (l : List ℕ) → mem 0 (map suc l) ≡ false
zero-map-suc [] = refl
zero-map-suc (x ∷ l) = let other : (0 == suc x) ≡ false = ground arith in rw other (zero-map-suc l)

mem-set_bits : (w b x : ℕ) → mem b (set_bits w x) ≡ (ltb b w && bit x b)
unfolding set_bits
mem-set_bits zero b x = ground arith
mem-set_bits (suc w) zero x = let none_more = zero-map-suc (set_bits w (x / 2)) in ground arith
mem-set_bits (suc w) (suc b) x =
    let rest : mem (suc b) (map suc (set_bits w (x / 2))) ≡ (ltb b w && bit (x / 2) b) =
      mem-map-suc b (set_bits w (x / 2)) ∙ mem-set_bits w b (x / 2) in
    let bound : ltb (suc b) (suc w) ≡ ltb b w = ground arith in ground arith

-- A loop over the bits of a word of 32 bits sees a bit if it is set.
pub mem-bit_iter : (b bits : ℕ) → mem b (bit_iter 32 32 bits) ≡ (ltb b 32 && bit bits b)
mem-bit_iter b bits =
    ap (mem b) (bit_iter-set_bits 32 32 bits (omega arith)) ∙ mem-set_bits 32 b bits
