-- ===== src/Nrf/BufferedUarte/Interrupts.antt =====
-- The interrupt handler: each of its two loops leaves the other half of the port alone.
use embassy.Base.{
  ℕ, ◌≡◌, refl, sym, ◌∙◌, subst, inl, inr, true, Option, none, some, List, ◌==◌, Bool-cases,
}
use embassy.Base.Options.{bind-some, some-injective}
use embassy.Executor.{System}
use embassy.Extras.RingBuffer
use embassy.Extras.RingBuffer.{RingBuffer, push_buf, pop_buf}
use embassy.Nrf.BufferedUarte.{
  RxState, rx_idle, receiving, TxState, tx_idle, transmitting, Uarte, Pass, start_rx, end_rx, rx_in,
  start_tx, end_tx, tx_in, again, irq_loop, rx_loop, tx_loop, on_interrupt,
}
use embassy.Nrf.BufferedUarte.Receiving.{receiver, IsFed, rx_loop-IsFed}
use embassy.Nrf.BufferedUarte.Sending.{sender, IsStream, tx_loop-IsStream}

start_rx-sender : (width : ℕ) (u : Uarte) → sender (start_rx width u) ≡ sender u
unfolding start_rx
start_rx-sender width u = elim (Bool-cases ((push_buf u.rx).len == 0)) [
  | inl e ↦ rw e refl
  | inr e ↦ rw e refl
]

start_tx-receiver : (width : ℕ) (u : Uarte) → receiver (start_tx width u) ≡ receiver u
unfolding start_tx
start_tx-receiver width u = elim (Bool-cases ((pop_buf u.tx).len == 0)) [
  | inl e ↦ rw e refl
  | inr e ↦ rw e refl
]

-- What is left keeps a part of the state, where there is something left.
abbrev Keeps : {P : Type 0} → (Uarte → P) → Uarte → Option (Uarte × System) → Type 0
Keeps part u none = Unit
Keeps part u (some o) = part o.0 ≡ part u

again-Keeps :
    {P : Type 0} (part : Uarte → P) (u : Uarte) (s : System) (p : Option RingBuffer)
    (u' : RingBuffer → Uarte) (rest : Uarte → System → Option (Uarte × System))
    → ((b : RingBuffer) → Keeps part u (rest (u' b) s))
    → Keeps part u
        (again rest (elim p as (λ x. Pass) [ none ↦ none | some b ↦ some (true, u' b, s) ]))
again-Keeps part u s none u' rest keeps = tt
again-Keeps part u s (some b) u' rest keeps = keeps b

rx_loop-Keeps : (width : ℕ) (u : Uarte) (s : System) → Keeps sender u (rx_loop width u s)
unfolding rx_loop end_rx
rx_loop-Keeps width u s = go u.rx_state
  where
    go :
        (st : RxState)
        → Keeps sender u
            (again (irq_loop (λ v s'. rx_in width v.rx_state v s') 1) (rx_in width st u s))
    go rx_idle = start_rx-sender width u
    go receiving = elim (Bool-cases u.rxd.ended) [
      | inr runs ↦ rw runs refl
      | inl ended ↦ rw ended (
          again-Keeps sender u _ (RingBuffer.push u.rx u.rxd.amount) _ _
            (λ b. start_rx-sender width _))
    ]

tx_loop-Keeps : (width : ℕ) (u : Uarte) (s : System) → Keeps receiver u (tx_loop width u s)
unfolding tx_loop end_tx
tx_loop-Keeps width u s = go u.tx_state
  where
    go :
        (st : TxState)
        → Keeps receiver u
            (again (irq_loop (λ v s'. tx_in width v.tx_state v s') 1) (tx_in width st u s))
    go tx_idle = start_tx-receiver width u
    go (transmitting n) = elim (Bool-cases u.txd.ended) [
      | inr runs ↦ rw runs refl
      | inl ended ↦
          rw ended
            (again-Keeps receiver u _ (RingBuffer.pop u.tx n) _ _ (λ b. start_tx-receiver width _))
    ]

-- The interrupt handler, if the receiver's part of it does not panic.
pub on_interrupt-IsStream :
    (width : ℕ) (line all : List ℕ) (u u' : Uarte) (s s' : System)
    → on_interrupt width u s ≡ some (u', s')
    → IsStream width (sender u) line all
    → IsStream width (sender u') line all
unfolding on_interrupt
on_interrupt-IsStream width line all u u' s s' e k =
    let first = bind-some (rx_loop width u s) (λ o. tx_loop width o.0 o.1) (u', s') e in
    let o = first.0 in
    let same = subst (Keeps sender u) first.1 (rx_loop-Keeps width u s) in
    let k' = subst (λ q. IsStream width q line all) (sym same) k in
    let last = tx_loop-IsStream width line all o.0 o.1 k' in
    let eq = some-injective (sym last.1 ∙ first.2) in
    subst (λ x. IsStream width (sender x.0) line all) eq last.2

-- The interrupt handler, if the sender's part of it does not panic.
pub on_interrupt-IsFed :
    (width : ℕ) (taken all : List ℕ) (u u' : Uarte) (s s' : System)
    → on_interrupt width u s ≡ some (u', s')
    → IsFed (receiver u) taken all
    → IsFed (receiver u') taken all
unfolding on_interrupt
on_interrupt-IsFed width taken all u u' s s' e k =
    let first = bind-some (rx_loop width u s) (λ o. tx_loop width o.0 o.1) (u', s') e in
    let o = first.0 in
    let fed = rx_loop-IsFed width taken all u s k in
    let k' =
      subst (λ x. IsFed (receiver x.0) taken all) (some-injective (sym fed.1 ∙ first.1)) fed.2 in
    let same = subst (Keeps receiver o.0) first.2 (tx_loop-Keeps width o.0 o.1) in
    subst (λ q. IsFed q taken all) (sym same) k'
