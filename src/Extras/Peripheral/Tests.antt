-- ===== src/Extras/Peripheral/Tests.antt =====
-- The exclusion at a counter that the interrupt and the owner share.
use embassy.Base.{ℕ, suc, ◌+◌, ◌≡◌, refl, Bool, true, false, none, some}
use embassy.Interrupt.{Nvic, MaskLaws, Line, disable}
use embassy.Extras.Peripheral.{new_mutex, register_interrupt, with_state}
use embassy.Extras.Peripheral.Exclusion.{raise, with_excludes}

abbrev one_bit : Nvic Bool
one_bit = record { mask = λ b. false; unmask = λ b. true; unpend = λ b. b; is_enabled = λ b. b }

abbrev one_bit-MaskLaws : MaskLaws one_bit
one_bit-MaskLaws = record { masked = λ b. refl; unmasked = λ b. refl }

abbrev unused : Line Bool
unused = record { func = none; ctx = none; controller = false }

-- The owner adds 10 and reads the sum, the interrupt adds 1.
abbrev add_ten : ℕ → Line Bool → ℕ × ℕ × Line Bool
add_ten n l = (n + 10, n + 10, l)

with_excludes_example :
    let fresh = new_mutex {S = ℕ} 5 unused in
    let ready = register_interrupt one_bit 64 fresh in
    let after = (with_state one_bit add_ten ready).1 in
    (raise one_bit suc 64 (record ready { irq = disable one_bit ready.irq })
      ≡ some (record ready { irq = disable one_bit ready.irq }))
    × (raise one_bit suc 64 after ≡ some (record after { state = 16 }))
    × (raise one_bit suc 64 (with_state one_bit add_ten fresh).1 ≡ none)
unfolding new_mutex register_interrupt
with_excludes_example =
    with_excludes one_bit one_bit-MaskLaws suc 64 5 unused add_ten (λ n l. refl) (λ n l. refl) refl
