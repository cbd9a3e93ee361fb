-- ===== src/Interrupt.antt =====
-- embassy/src/interrupt.rs and the trampoline of embassy-macros/src/lib.rs: one interrupt, its handler
-- and its context. The interrupt controller is the cortex-m crate's: it is a parameter, with the laws
-- of its mask that the code relies on.
use embassy.Base.{ℕ, ◌≡◌, ap, ap₂, Bool, true, false, Option, none, some, if◌then◌else◌}

pub record Nvic (N : Type 0) : Type 0 where
  pub mask : N → N
  pub unmask : N → N
  pub unpend : N → N
  pub is_enabled : N → Bool

pub record MaskLaws {N : Type 0} (nvic : Nvic N) : Type 0 where
  pub masked : (n : N) → nvic.is_enabled (nvic.mask n) ≡ false
  pub unmasked : (n : N) → nvic.is_enabled (nvic.unmask n) ≡ true

-- The functions that may be handlers: the one of util/signal.rs, and others.
pub data HandlerFunc : Type 0 where
  irq_wake : HandlerFunc
  other_func : ℕ → HandlerFunc

-- `Handler` and the controller's state: null is `none`, and a context is a task.
pub record Line (N : Type 0) : Type 0 where
  pub func : Option HandlerFunc
  pub ctx : Option ℕ
  pub controller : N

module _ {N : Type 0} (nvic : Nvic N) where
  unfoldable pub set_handler : HandlerFunc → Line N → Line N
  set_handler f l = record l { func = some f }

  unfoldable pub remove_handler : Line N → Line N
  remove_handler l = record l { func = none }

  unfoldable pub set_handler_context : Option ℕ → Line N → Line N
  set_handler_context c l = record l { ctx = c }

  unfoldable pub enable : Line N → Line N
  enable l = record l { controller = nvic.unmask l.controller }

  unfoldable pub disable : Line N → Line N
  disable l = record l { controller = nvic.mask l.controller }

  unfoldable pub unpend : Line N → Line N
  unpend l = record l { controller = nvic.unpend l.controller }

  unfoldable pub is_enabled : Line N → Bool
  is_enabled l = nvic.is_enabled l.controller

-- The function in the vector table calls the handler with the context; with none it is a jump to null,
-- which is `none`. `run` says what each handler does to the state.
unfoldable pub trampoline :
    {S N : Type 0} → (HandlerFunc → Option ℕ → S → Option S) → Line N → S → Option S
trampoline run l s = elim l.func [ none ↦ none | some f ↦ run f l.ctx s ]

-- The interrupt comes: while it is masked, it waits.
unfoldable pub interrupted :
    {S N : Type 0} → Nvic N → (HandlerFunc → Option ℕ → S → Option S) → Line N → S → Option S
unfolding trampoline is_enabled
interrupted nvic run l s = if is_enabled nvic l then trampoline run l s else some s

module _ {S N : Type 0} (nvic : Nvic N) (run : HandlerFunc → Option ℕ → S → Option S) (l : Line N)
    (s : S) where
  pub interrupted-masked : nvic.is_enabled l.controller ≡ false → interrupted nvic run l s ≡ some s
  unfolding interrupted is_enabled
  interrupted-masked off = ap (λ b. if b then trampoline run l s else some s) off

  pub interrupted-trampoline :
      nvic.is_enabled l.controller ≡ true → interrupted nvic run l s ≡ trampoline run l s
  unfolding interrupted is_enabled
  interrupted-trampoline on = ap (λ b. if b then trampoline run l s else some s) on

  pub trampoline-none : l.func ≡ none → trampoline run l s ≡ none
  unfolding trampoline
  trampoline-none e = ap (λ g. elim g [ none ↦ none | some f ↦ run f l.ctx s ]) e

  pub trampoline-some :
      (f : HandlerFunc) (c : Option ℕ)
      → l.func ≡ some f
      → l.ctx ≡ c
      → trampoline run l s ≡ run f c s
  unfolding trampoline
  trampoline-some f c e e' = ap₂ (λ g d. elim g [ none ↦ none | some h ↦ run h d s ]) e e'
