-- ===== src/Nrf/BufferedUarte/Writing.antt =====
-- What `poll_write` and the transfer itself do to the stream of bytes.
use embassy.Base.{
  ℕ, ◌+◌, ◌≤◌, min, ◌≡◌, refl, sym, ap, ◌∙◌, subst, inl, inr, true, false, some, List, ◌++◌,
  append-nil, append_assoc, arith, ◌==◌, Bool-cases, length, take, drop, take-append-drop,
  length-take, drop-append, drop-drop,
}
use embassy.Base.Options.{bind}
use embassy.Io.{ok, Poll, pending, ready, accepted}
use embassy.Executor.{System}
use embassy.Util.Waker.{register_waker}
use embassy.Extras.RingBuffer
use embassy.Extras.RingBuffer.{RingBuffer, push_buf, fill}
use embassy.Extras.RingBuffer.Bounds.{IsValid}
use embassy.Extras.RingBuffer.Queue.{contents}
use embassy.Extras.RingBuffer.Queue.Push.{push_appends}
use embassy.Extras.RingBuffer.Loans.{lent_bytes, push_keeps_lent, length-push, length-lent}
use embassy.Nrf.BufferedUarte.{TxState, tx_idle, transmitting, Dma, Uarte, queue_tx, poll_write}
use embassy.Nrf.BufferedUarte.Sending.{sender, progress, Flies, IsStream}

-- A transfer that was started still runs on the front of the ring's data.
Flies-push :
    {b b' : RingBuffer} (bs : List ℕ) (st : TxState) (d : Dma)
    → IsValid b
    → length bs ≤ (push_buf b).len
    → RingBuffer.push (fill b bs) (length bs) ≡ some b'
    → Flies b st d
    → Flies b' st d
Flies-push bs tx_idle d v h e f = f
Flies-push {b} {b'} bs (transmitting n) d v h e f =
    let some_bytes = f.some_bytes in
    let within = f.lent in
    let kept = push_keeps_lent bs v h e (omega arith) in
    let more = kept.1 in
    record {
      some_bytes = f.some_bytes;
      lent = omega arith;
      at = f.at ∙ sym kept.0;
      whole = f.whole;
      upto = f.upto;
      phase = f.phase;
    }

progress-le :
    {b : RingBuffer} (st : TxState) (d : Dma)
    → IsValid b
    → Flies b st d
    → progress st d ≤ length (contents b)
progress-le tx_idle d v f = omega arith
progress-le (transmitting n) d v f =
    let whole = length-lent v in let within = f.lent in let upto = f.upto in omega arith

queue_tx-push :
    (u : Uarte) (bs : List ℕ) (b : RingBuffer)
    → RingBuffer.push (fill u.tx bs) (length bs) ≡ some b
    → queue_tx u bs ≡ some (record u { tx = b; irq_pending = true })
unfolding queue_tx
queue_tx-push u bs b taken =
    bind (RingBuffer.push (fill u.tx bs) (length bs)) b
      (λ x. some (record u { tx = x; irq_pending = true })) taken

module _ (width : ℕ) (line all : List ℕ) where
  push-IsStream :
      {b b' : RingBuffer} (bs : List ℕ) (st : TxState) (d : Dma)
      → length bs ≤ (push_buf b).len
      → RingBuffer.push (fill b bs) (length bs) ≡ some b'
      → IsValid b'
      → contents b' ≡ contents b ++ bs
      → IsStream width (b, st, d) line all
      → IsStream width (b', st, d) line (all ++ bs)
  push-IsStream {b} {b'} bs st d h e v' more k =
      let fits = k.fits in
      let same_length = length-push bs k.valid h e in
      let p = progress st d in
      record {
        valid = v';
        fits = omega arith;
        flies = Flies-push bs st d k.valid h e k.flies;
        streams =
            ap (λ xs. line ++ drop p xs) more
            ∙ ap (λ xs. line ++ xs)
                (drop-append p (contents b) bs (progress-le st d k.valid k.flies))
            ∙ sym (append_assoc line (drop p (contents b)) bs)
            ∙ ap (λ xs. xs ++ bs) k.streams;
      }

  -- A `poll_write` does not panic, and the stream grows by the bytes that it accepts.
  pub poll_write-IsStream :
      (t : ℕ) (u : Uarte) (s : System) (buf : List ℕ)
      → IsStream width (sender u) line all
      → (o : Poll ℕ × Uarte × System) × (poll_write t u s buf ≡ some o)
        × IsStream width (sender o.1) line (all ++ accepted o.0 buf)
  unfolding poll_write
  poll_write-IsStream t u s buf k = elim (Bool-cases ((push_buf u.tx).len == 0)) [
    | inl no_room ↦
        let w = register_waker t u.tx_waker s in
        (
          (pending, record u { tx_waker = w.0 }, w.1),
          rw no_room refl,
          subst (IsStream width (sender u) line) (sym (append-nil all)) k,
        )
    | inr room ↦
        let n = min (push_buf u.tx).len (length buf) in
        let bs = take n buf in
        let short = length-take {0} n buf in
        let h : length bs ≤ (push_buf u.tx).len = omega arith in
        let o = push_appends bs k.valid h in
        (
          (ready (ok n), record u { tx = o.0; irq_pending = true }, s),
          rw room (
              bind (queue_tx u bs) _ (λ x. some (ready (ok n), x, s)) (queue_tx-push u bs o.0 o.1)),
          push-IsStream bs u.tx_state u.txd h o.1 o.2 o.3 k,
        )
  ]

  -- What is sent by a transfer that runs is the front of the bytes that were not sent yet.
  pub send-IsStream :
      (b : RingBuffer) (st : TxState) (d : Dma) (k : ℕ)
      → IsStream width (b, st, d) line all
      → d.running ≡ true
      → d.amount + k ≤ d.maxcnt
      → IsStream width
          (b, st, record d { amount = d.amount + k })
          (line ++ take k (drop (d.ptr + d.amount) b.buf))
          all
  send-IsStream b tx_idle d k q runs upto = absurd cc
  send-IsStream b (transmitting n) d k q runs upto =
      let f = q.flies in
      let c = contents b in
      let whole = f.whole in
      let within = f.lent in
      let sent : take k (drop (d.ptr + d.amount) b.buf) ≡ take k (drop d.amount c) =
        ap (λ from. take k (drop (from + d.amount) b.buf)) f.at
        ∙ lent_bytes d.amount k q.valid (omega arith) in
      record {
        valid = q.valid;
        fits = q.fits;
        flies = record {
          some_bytes = f.some_bytes;
          lent = f.lent;
          at = f.at;
          whole = f.whole;
          upto = omega arith;
          phase = elim f.phase [ inl on ↦ inl on | inr off ↦ absurd cc ];
        };
        streams =
            ap (λ xs. (line ++ xs) ++ drop (d.amount + k) c) sent
            ∙ append_assoc line (take k (drop d.amount c)) (drop (d.amount + k) c)
            ∙ ap (λ xs. line ++ (take k (drop d.amount c) ++ xs)) (sym (drop-drop k d.amount c))
            ∙ ap (λ xs. line ++ xs) (take-append-drop k (drop d.amount c))
            ∙ q.streams;
      }

  pub done-IsStream :
      (b : RingBuffer) (st : TxState) (d : Dma)
      → IsStream width (b, st, d) line all
      → d.running ≡ true
      → d.amount ≡ d.maxcnt
      → IsStream width (b, st, record d { running = false; ended = true }) line all
  done-IsStream b tx_idle d q runs all_sent = absurd cc
  done-IsStream b (transmitting n) d q runs all_sent =
      let f = q.flies in
      record {
        valid = q.valid;
        fits = q.fits;
        flies = record {
          some_bytes = f.some_bytes;
          lent = f.lent;
          at = f.at;
          whole = f.whole;
          upto = f.upto;
          phase = inr (refl, refl, all_sent ∙ f.whole);
        };
        streams = q.streams;
      }
