-- ===== src/Base/Slices.antt =====
-- Writing a run of elements into a list at an index, as a client does through `&mut buf[i..]`.
use Prim.Native.Nat.{ℕ, ◌+◌, ◌-◌, ◌≤◌}
use mathlib.Core.Path.{◌≡◌, ap, ◌∙◌}
use mathlib.Core.List.{List, ◌++◌}
use native.Mathlib.Omega.{arith}
use embassy.Base.Lists.{
  length, take, drop, length-append, length-take, length-drop, take-append, take_all, drop-drop,
  drop-append_right, take-append_right,
}

module _ {ℓ} {A : Type ℓ} where
  abbrev pub overwrite : List A → ℕ → List A → List A
  overwrite xs i ys = take i xs ++ (ys ++ drop (i + length ys) xs)

module _ {ℓ} {A : Type ℓ} (xs : List A) (i : ℕ) (ys : List A) (h : i + length ys ≤ length xs) where
  length_prefix : length (take i xs) ≡ i
  length_prefix = omega (arith, length-take {ℓ} i xs)

  -- A write in range keeps the length.
  pub length-overwrite : length (overwrite xs i ys) ≡ length xs
  length-overwrite = omega (
    arith,
    length-append {ℓ} (take i xs) (ys ++ drop (i + length ys) xs),
    length-append {ℓ} ys (drop (i + length ys) xs),
    length-drop {ℓ} (i + length ys) xs,
    length_prefix,
  )

  -- It changes nothing before the index.
  pub take-overwrite : take i (overwrite xs i ys) ≡ take i xs
  take-overwrite =
      take-append i (take i xs) (ys ++ drop (i + length ys) xs) (omega (arith, length_prefix))
      ∙ take_all i (take i xs) (omega (arith, length_prefix))

  -- Up to the end of what was written it holds the old elements, then the new ones.
  pub take-overwrite_end : take (i + length ys) (overwrite xs i ys) ≡ take i xs ++ ys
  take-overwrite_end =
      let rest = drop (i + length ys) xs in
      let e : i + length ys ≡ length (take i xs) + length ys = omega (arith, length_prefix) in
      ap (λ k. take k (overwrite xs i ys)) e
      ∙ take-append_right (length ys) (take i xs) (ys ++ rest)
      ∙ ap (λ zs. take i xs ++ zs)
          (take-append (length ys) ys rest (omega arith) ∙ take_all (length ys) ys (omega arith))

  -- It changes nothing past the end of what was written.
  pub drop-overwrite : (j : ℕ) → i + length ys ≤ j → drop j (overwrite xs i ys) ≡ drop j xs
  drop-overwrite j le =
      let rest = drop (i + length ys) xs in
      let e : j ≡ length (take i xs) + (j - i) = omega (arith, length_prefix) in
      let e2 : j - i ≡ length ys + (j - i - length ys) = omega arith in
      let e3 : i + length ys + (j - i - length ys) ≡ j = omega arith in
      ap (λ k. drop k (overwrite xs i ys)) e
      ∙ drop-append_right (j - i) (take i xs) (ys ++ rest)
      ∙ ap (λ k. drop k (ys ++ rest)) e2
      ∙ drop-append_right (j - i - length ys) ys rest
      ∙ drop-drop (j - i - length ys) (i + length ys) xs
      ∙ ap (λ k. drop k xs) e3
