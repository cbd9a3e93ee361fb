-- ===== src/Base/Options.antt =====
-- Chains of computations that may fail.
use mathlib.Core.Path.{◌≡◌, refl, ap}
use mathlib.Core.Option
use mathlib.Core.Option.{Option, none, some}

infixl 5 ◌>>=◌
abbrev pub ◌>>=◌ {ℓ κ} : {A : Type ℓ} {B : Type κ} → Option A → (A → Option B) → Option B
none >>= f = none
some a >>= f = f a

pub >>=-some {ℓ} :
    {A B : Type ℓ} (o : Option A) (f : A → Option B) (b : B)
    → (o >>= f) ≡ some b
    → (a : A) × (o ≡ some a) × (f a ≡ some b)
>>=-some none f b e = cc
>>=-some (some a) f b e = (a, refl, e)

pub >>=-none {ℓ} :
    {A B : Type ℓ} (o : Option A) (f : A → Option B) → ((a : A) → f a ≡ none) → (o >>= f) ≡ none
>>=-none none f e = refl
>>=-none (some a) f e = e a

pub >>=-eq {ℓ} :
    {A B : Type ℓ} (o : Option A) (f : A → Option B) (a : A) → o ≡ some a → (o >>= f) ≡ f a
>>=-eq o f a e = ap (λ x. x >>= f) e

pub bind-some {ℓ} :
    {A B : Type ℓ} (o : Option A) (f : A → Option B) (b : B)
    → elim o as (λ x. Option B) [ none ↦ none | some a ↦ f a ] ≡ some b
    → (a : A) × (o ≡ some a) × (f a ≡ some b)
bind-some none f b e = cc
bind-some (some a) f b e = (a, refl, e)

pub map-some {ℓ} :
    {A B : Type ℓ} (o : Option A) (f : A → B) (b : B)
    → Option.map f o ≡ some b
    → (a : A) × (o ≡ some a) × (f a ≡ b)
map-some none f b e = cc
map-some (some a) f b e = (a, refl, cc)

pub bind {ℓ} :
    {A B : Type ℓ} (o : Option A) (a : A) (f : A → Option B)
    → o ≡ some a
    → elim o as (λ x. Option B) [ none ↦ none | some b ↦ f b ] ≡ f a
bind {B} o a f e = ap (λ x. elim x as (λ y. Option B) [ none ↦ none | some b ↦ f b ]) e

pub some-injective {ℓ} : {A : Type ℓ} {a b : A} → some a ≡ some b → a ≡ b
some-injective e = cc
