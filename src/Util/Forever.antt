-- ===== src/Util/Forever.antt =====
-- embassy/src/util/forever.rs: a static that is written once. `none` is a panic; what is not yet
-- written is `none` too.
use mathlib.Core.Option
use embassy.Base.{◌≡◌, refl, Bool, true, false, Option, none, some, if◌then◌else◌}

pub record Forever (T : Type 0) : Type 0 where
  pub used : Bool
  pub value : Option T

unfoldable pub new_forever : {T : Type 0} → Forever T
new_forever = record { used = false; value = none }

-- `Forever::put`: the reference that it returns reads `value`.
unfoldable pub put : {T : Type 0} → T → Forever T → Option (Forever T)
put val f = if f.used then none else some (record { used = true; value = some val })

-- `Forever::put_with`: the closure runs when the static is marked already, and may use it or panic.
unfoldable pub put_with : {T : Type 0} → (Forever T → Option T) → Forever T → Option (Forever T)
put_with val f =
    let marked = record f { used = true } in
    let written = Option.map (λ v. record marked { value = some v }) (val marked) in
    if f.used then none else written

-- `Forever::steal`: what a reference to the value would read.
unfoldable pub steal : {T : Type 0} → Forever T → Option T
steal f = f.value

-- A static that is new is written by `put` with its value, and by `put_with` with that of a closure
-- that returns; after either it holds that value, and writing again, in either way, panics. A closure
-- that puts into the same static panics.
written_once :
    {T : Type 0} (v w : T) (val : Forever T → Option T)
    → (f : Forever T) × (put v new_forever ≡ some f)
      × (put_with (λ g. some v) new_forever ≡ some f)
      × (steal f ≡ some v)
      × (put w f ≡ none)
      × (put_with val f ≡ none)
      × (put_with (λ g. elim (put w g) [ none ↦ none | some h ↦ steal h ]) new_forever ≡ none)
unfolding new_forever put put_with steal
written_once v w val = (record { used = true; value = some v }, refl, refl, refl, refl, refl, refl)
