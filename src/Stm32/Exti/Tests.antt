-- ===== src/Stm32/Exti/Tests.antt =====
-- The theorems on pins with a controller that is its mask and a pin that is its level.
use embassy.Base.{refl, Bool, true, false, not, none, some}
use embassy.Executor.{new_header, System, new_system}
use embassy.Interrupt.{Nvic, MaskLaws}
use embassy.Stm32.Exti.{Instance, ExtiPin}

abbrev one_bit : Nvic Bool
one_bit = record { mask = λ b. false; unmask = λ b. true; unpend = λ b. b; is_enabled = λ b. b }

abbrev one_bit-MaskLaws : MaskLaws one_bit
one_bit-MaskLaws = record { masked = λ b. refl; unmasked = λ b. refl }

abbrev level : Instance Bool
level = record {
  make_source = λ b. b;
  clear_pending_bit = λ b. b;
  trigger_edge = λ edge b. b;
  is_high = λ b. some b;
  is_low = λ b. some (not b);
}

-- A pin that is low.
abbrev low : ExtiPin Bool Bool
low = record { pin = false; interrupt = record { func = none; ctx = none; controller = false } }

abbrev running : System
running = record new_system { headers = λ t. record new_header { spawned = true } }
