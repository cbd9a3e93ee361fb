-- ===== src/Executor/Chains.antt =====
-- Lemmas on the linked lists of task headers and on membership.
use embassy.Base.{
  ℕ, ◌≡◌, refl, ap, inl, inr, true, false, ◌||◌, Option, List, [], ◌∷◌, ◌++◌, arith, ◌==◌, ==_iff,
  ==_refl, Bool-cases,
}
use embassy.Executor.{mem, Chain, Distinct}

pub mem_self : (t : ℕ) (xs : List ℕ) → mem t (t ∷ xs) ≡ true
mem_self t xs = ground (arith, ==_refl t)

pub mem-append : (t : ℕ) (xs ys : List ℕ) → mem t (xs ++ ys) ≡ (mem t xs || mem t ys)
mem-append t [] ys = refl
mem-append t (x ∷ xs) ys = ground (arith, mem-append t xs ys)

-- A chain depends on the links of its members only.
pub Chain-ext :
    (next next' : ℕ → Option ℕ) (head : Option ℕ) (xs : List ℕ)
    → ((u : ℕ) → mem u xs ≡ true → next' u ≡ next u)
    → Chain next head xs
    → Chain next' head xs
Chain-ext next next' head [] same c = c
Chain-ext next next' head (x ∷ xs) same c = (
  c.0,
  rw (same x (mem_self x xs))
      (Chain-ext next next' (next x) xs (λ u m. same u (ground (arith, m))) c.1),
)

pub Distinct-middle :
    (t : ℕ) (xs ys : List ℕ)
    → Distinct (xs ++ (t ∷ ys))
    → (mem t (xs ++ ys) ≡ false) × Distinct (xs ++ ys)
Distinct-middle t [] ys d = d
Distinct-middle t (x ∷ xs) ys d = ground (
  arith,
  Distinct-middle t xs ys d.1,
  mem-append x xs (t ∷ ys),
  mem-append x xs ys,
  ==_iff t x,
  ==_iff x t,
)

pub mem_middle : (u t : ℕ) (xs ys : List ℕ) → mem u (xs ++ (t ∷ ys)) ≡ (u == t || mem u (xs ++ ys))
mem_middle u t xs ys = ground (arith, mem-append u xs (t ∷ ys), mem-append u xs ys)

pub mem_append_false :
    (t : ℕ) (xs ys : List ℕ) → mem t (xs ++ ys) ≡ false → (mem t xs ≡ false) × (mem t ys ≡ false)
mem_append_false t xs ys h = ground (arith, mem-append t xs ys)

-- Members of a list differ from what is not in it.
pub member_ne : (t u : ℕ) (xs : List ℕ) → mem t xs ≡ false → mem u xs ≡ true → (t == u) ≡ false
member_ne t u xs out within = elim (Bool-cases (t == u)) [
  | inl same ↦ let e : t ≡ u = ground arith in cc (ap (λ v. mem v xs) e)
  | inr ne ↦ ne
]

pub member_ne' : (t u : ℕ) (xs : List ℕ) → mem t xs ≡ false → mem u xs ≡ true → (u == t) ≡ false
member_ne' t u xs out within = let ne = member_ne t u xs out within in ground arith
