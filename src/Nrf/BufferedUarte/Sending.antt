-- ===== src/Nrf/BufferedUarte/Sending.antt =====
-- The sending half of the port, and that its operations keep the stream of bytes.
use native.Mathlib.Nat.{mod-eq_of_lt}
use embassy.Base.{
  ℕ, ◌^◌, ◌≤◌, ◌<◌, ◌≡◌, refl, sym, ap, ◌∙◌, subst, ◌⊎◌, inl, inr, true, false, some, List, ◌++◌,
  arith, ◌==◌, if◌then◌else◌, Bool-cases, length, drop,
}
use embassy.Base.Options.{bind}
use embassy.Executor.{System}
use embassy.Util.Waker.{wake_waker}
use embassy.Extras.RingBuffer
use embassy.Extras.RingBuffer.{RingBuffer, pop_buf}
use embassy.Extras.RingBuffer.Bounds.{IsValid, pop_buf_in}
use embassy.Extras.RingBuffer.Queue.{contents}
use embassy.Extras.RingBuffer.Queue.Pop.{pop_removes}
use embassy.Extras.RingBuffer.Loans.{length-pop}
use embassy.Nrf.BufferedUarte.{
  TxState, tx_idle, transmitting, Dma, Uarte, start_tx, end_tx, tx_in, again, irq_loop, tx_loop,
}

-- What the sender works on.
abbrev pub Sender : Type 0
Sender = RingBuffer × TxState × Dma

abbrev pub sender : Uarte → Sender
sender u = (u.tx, u.tx_state, u.txd)

-- How many bytes of the ring have been sent already.
abbrev pub progress : TxState → Dma → ℕ
progress tx_idle d = 0
progress (transmitting n) d = d.amount

-- A transfer that was not yet ended runs on the first run of the ring's data.
pub record IsFlight (b : RingBuffer) (n : ℕ) (d : Dma) : Type 0 where
  pub some_bytes : 0 < n
  pub lent : n ≤ (pop_buf b).len
  pub at : d.ptr ≡ (pop_buf b).from
  pub whole : d.maxcnt ≡ n
  pub upto : d.amount ≤ n
  pub phase :
      ((d.running ≡ true) × (d.ended ≡ false))
      ⊎ ((d.running ≡ false) × (d.ended ≡ true) × (d.amount ≡ n))

abbrev pub Flies : RingBuffer → TxState → Dma → Type 0
Flies b tx_idle d = (d.running ≡ false) × (d.ended ≡ false)
Flies b (transmitting n) d = IsFlight b n d

-- The bytes on the line, followed by those of the ring that were not sent, are those accepted.
pub record IsStream (width : ℕ) (q : Sender) (line all : List ℕ) : Type 0 where
  pub valid : IsValid q.0
  pub fits : length q.0.buf < 2 ^ width
  pub flies : Flies q.0 q.1 q.2
  pub streams : line ++ drop (progress q.1 q.2) (contents q.0) ≡ all

TxState-cases : (st : TxState) → (st ≡ tx_idle) ⊎ ((n : ℕ) × (st ≡ transmitting n))
TxState-cases tx_idle = inl refl
TxState-cases (transmitting n) = inr (n, refl)

module _ (width : ℕ) where
  tx_loop_idle :
      (u : Uarte) (s : System)
      → u.tx_state ≡ tx_idle
      → tx_loop width u s ≡ some (start_tx width u, s)
  unfolding tx_loop
  tx_loop_idle u s idle = rw idle refl

  tx_loop_runs :
      (u : Uarte) (s : System) (n : ℕ)
      → u.tx_state ≡ transmitting n
      → u.txd.ended ≡ false
      → tx_loop width u s ≡ some (u, s)
  unfolding tx_loop
  tx_loop_runs u s n busy runs = rw (busy, runs) refl

  abbrev pub after_tx : Uarte → System → RingBuffer → Uarte
  after_tx u s b = record u {
    tx = b;
    txd = record u.txd { ended = false };
    tx_waker = (wake_waker u.tx_waker s).0;
    tx_state = tx_idle;
  }

  end_tx-after_tx :
      (u : Uarte) (s : System) (n : ℕ) (b : RingBuffer)
      → RingBuffer.pop u.tx n ≡ some b
      → end_tx n u s ≡ some (true, after_tx u s b, (wake_waker u.tx_waker s).1)
  unfolding end_tx
  end_tx-after_tx u s n b taken =
      bind (RingBuffer.pop u.tx n) b (λ x. some (true, after_tx u s x, (wake_waker u.tx_waker s).1))
        taken

  pub tx_loop_ends :
      (u : Uarte) (s : System) (n : ℕ) (b : RingBuffer)
      → u.tx_state ≡ transmitting n
      → u.txd.ended ≡ true
      → RingBuffer.pop u.tx n ≡ some b
      → tx_loop width u s ≡ some (start_tx width (after_tx u s b), (wake_waker u.tx_waker s).1)
  unfolding tx_loop
  tx_loop_ends u s n b busy ended taken =
      ap (again (irq_loop (λ u' s'. tx_in width u'.tx_state u' s') 1)) (
        ap (λ st. tx_in width st u s) busy
        ∙ ap (λ e. if e then end_tx n u s else some (false, u, s)) ended
        ∙ end_tx-after_tx u s n b taken)

module _ (width : ℕ) (line all : List ℕ) where
  start_tx-IsStream :
      (u : Uarte)
      → u.tx_state ≡ tx_idle
      → IsStream width (sender u) line all
      → IsStream width (sender (start_tx width u)) line all
  unfolding start_tx
  start_tx-IsStream u idle k =
      let len = (pop_buf u.tx).len in
      let waits : line ++ contents u.tx ≡ all =
        subst (λ st. line ++ drop (progress st u.txd) (contents u.tx) ≡ all) idle k.streams in
      elim (Bool-cases (len == 0)) [
        | inl none_waits ↦ rw none_waits k
        | inr some_wait ↦
            let inside = pop_buf_in k.valid in
            let fits = k.fits in
            let small : len < 2 ^ width = omega arith in
            let still = subst (λ st. Flies u.tx st u.txd) idle k.flies in
            rw some_wait (record {
              valid = k.valid;
              fits = k.fits;
              flies = record {
                some_bytes = ground arith;
                lent = omega arith;
                at = refl;
                whole = mod-eq_of_lt small;
                upto = omega arith;
                phase = inl (refl, still.1);
              };
              streams = waits;
            })
      ]

  after_tx-IsStream :
      (u : Uarte) (s : System) (n : ℕ)
      → u.tx_state ≡ transmitting n
      → u.txd.ended ≡ true
      → IsStream width (sender u) line all
      → (b : RingBuffer) × (RingBuffer.pop u.tx n ≡ some b)
        × IsStream width (sender (after_tx width u s b)) line all
  after_tx-IsStream u s n busy ended k =
      let f = subst (λ st. Flies u.tx st u.txd) busy k.flies in
      let o = pop_removes n k.valid f.lent in
      let fits = k.fits in
      let same_length = length-pop n k.valid f.lent o.1 in
      let (stops, all_sent) : (u.txd.running ≡ false) × (u.txd.amount ≡ n) = elim f.phase [
        | inl (on, off) ↦ cc
        | inr (off, on, sent) ↦ (off, sent)
      ] in
      (
        o.0,
        o.1,
        record {
          valid = o.2;
          fits = omega arith;
          flies = (stops, refl);
          streams =
              ap (λ xs. line ++ xs) o.3
              ∙ ap (λ m. line ++ drop m (contents u.tx)) (sym all_sent)
              ∙ subst (λ st. line ++ drop (progress st u.txd) (contents u.tx) ≡ all) busy k.streams;
        },
      )

  -- The sender's loop does not panic and ends, and keeps the stream.
  pub tx_loop-IsStream :
      (u : Uarte) (s : System)
      → IsStream width (sender u) line all
      → (o : Uarte × System) × (tx_loop width u s ≡ some o) × IsStream width (sender o.0) line all
  tx_loop-IsStream u s k = elim (TxState-cases u.tx_state) [
    | inl idle ↦ ((start_tx width u, s), tx_loop_idle width u s idle, start_tx-IsStream u idle k)
    | inr (n, busy) ↦ elim (Bool-cases u.txd.ended) [
      | inr runs ↦ ((u, s), tx_loop_runs width u s n busy runs, k)
      | inl ended ↦
          let a = after_tx-IsStream u s n busy ended k in
          (
            (start_tx width (after_tx width u s a.0), (wake_waker u.tx_waker s).1),
            tx_loop_ends width u s n a.0 busy ended a.1,
            start_tx-IsStream (after_tx width u s a.0) refl a.2,
          )
    ]
  ]
