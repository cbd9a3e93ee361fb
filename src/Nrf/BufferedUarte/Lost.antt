-- ===== src/Nrf/BufferedUarte/Lost.antt =====
-- What a run of data that is too long for MAXCNT comes to.
use native.Mathlib.Nat.{mod-lt}
use embassy.Base.{
  ℕ, ◌%◌, ◌^◌, ◌≤◌, ◌<◌, ◌≡◌, refl, ap, ◌∙◌, inl, inr, true, false, some, arith, ◌==◌, Bool-cases,
  drop,
}
use embassy.Executor.{System}
use embassy.Extras.RingBuffer
use embassy.Extras.RingBuffer.{RingBuffer, pop_buf}
use embassy.Extras.RingBuffer.Bounds.{IsValid}
use embassy.Extras.RingBuffer.Queue.{contents}
use embassy.Extras.RingBuffer.Queue.Pop.{pop_removes}
use embassy.Nrf.BufferedUarte.{tx_idle, transmitting, Uarte, start_dma, start_tx, tx_loop}
use embassy.Nrf.BufferedUarte.Sending.{tx_loop_ends}

-- The transfer that was set up is done.
abbrev pub transferred : Uarte → Uarte
transferred u = record u {
  txd = record u.txd { amount = u.txd.maxcnt; running = false; ended = true };
}

start_tx-tx : (width : ℕ) (u : Uarte) → (start_tx width u).tx ≡ u.tx
unfolding start_tx
start_tx-tx width u = elim (Bool-cases ((pop_buf u.tx).len == 0)) [
  | inl e ↦ rw e refl
  | inr e ↦ rw e refl
]

start_tx-started :
    (width : ℕ) (u : Uarte)
    → 0 < (pop_buf u.tx).len
    → start_tx width u ≡ record u {
      tx_state = transmitting (pop_buf u.tx).len;
      txd = start_dma width u.txd (pop_buf u.tx).from (pop_buf u.tx).len;
    }
unfolding start_tx
start_tx-started width u h = let e : ((pop_buf u.tx).len == 0) ≡ false = ground arith in rw e refl

-- If the first run of a valid ring is too long for MAXCNT, then the transfer that is started sends
-- fewer bytes than the run has, but when it is done the whole run is taken from the ring.
pub long_run_lost :
    (width : ℕ) (u : Uarte) (s : System)
    → IsValid u.tx
    → 0 < 2 ^ width
    → 2 ^ width ≤ (pop_buf u.tx).len
    → u.tx_state ≡ tx_idle
    → ((transferred (start_tx width u)).txd.amount < (pop_buf u.tx).len)
      × ((o : Uarte × System) × (tx_loop width (transferred (start_tx width u)) s ≡ some o)
          × (contents o.0.tx ≡ drop (pop_buf u.tx).len (contents u.tx)))
long_run_lost width u s v pos long idle =
    let n = (pop_buf u.tx).len in
    let started = start_tx-started width u (omega arith) in
    let u' = transferred (start_tx width u) in
    let cut = mod-lt n pos in
    let amount : u'.txd.amount ≡ n % 2 ^ width = ap (λ x. x.txd.maxcnt) started in
    let ring = start_tx-tx width u in
    let o = pop_removes n v (omega arith) in
    let taken = ap (λ b. RingBuffer.pop b n) ring ∙ o.1 in
    let run = tx_loop_ends width u' s n o.0 (ap (λ x. x.tx_state) started) refl taken in
    (omega arith, (_, run, ap contents (start_tx-tx width _) ∙ o.3))
