-- ===== src/Nrf/BufferedUarte/Consuming.antt =====
-- What a reader that consumes bytes leaves of the receiver.
use embassy.Base.{
  ℕ, ◌≤◌, ◌≡◌, refl, sym, ap, ap₂, ◌∙◌, subst, true, some, List, ◌++◌, append_assoc, arith, take,
  drop, take-append-drop,
}
use embassy.Base.Options.{bind, some-injective}
use embassy.Extras.RingBuffer
use embassy.Extras.RingBuffer.{RingBuffer, pop_buf}
use embassy.Extras.RingBuffer.Bounds.{IsValid}
use embassy.Extras.RingBuffer.Queue.{contents}
use embassy.Extras.RingBuffer.Queue.Pop.{pop_removes}
use embassy.Extras.RingBuffer.Loans.{pop_keeps_room}
use embassy.Extras.RingBuffer.Landing.{pop_keeps_bytes}
use embassy.Nrf.BufferedUarte.{RxState, rx_idle, receiving, Dma, Uarte, consume_rx}
use embassy.Nrf.BufferedUarte.Receiving.{receiver, arrived, Lands, IsFed}

-- A transfer that was started still runs in the run that is lent to be filled.
pop-IsFed :
    {b b' : RingBuffer} (n : ℕ) (st : RxState) (d : Dma) (taken all : List ℕ)
    → n ≤ (pop_buf b).len
    → RingBuffer.pop b n ≡ some b'
    → IsValid b'
    → contents b' ≡ drop n (contents b)
    → IsFed (b, st, d) taken all
    → IsFed (b', st, d) (taken ++ take n (contents b)) all
pop-IsFed {b} {b'} n st d taken all h e v rest k = record {
  valid = v;
  lands = stays st k.lands;
  streams =
      append_assoc taken (take n c) (contents b' ++ arrived b' st d)
      ∙ ap₂ (λ xs ys. taken ++ (take n c ++ (xs ++ ys))) rest (same st k.lands)
      ∙ ap (λ xs. taken ++ xs) (sym (append_assoc (take n c) (drop n c) (arrived b st d)))
      ∙ ap (λ xs. taken ++ (xs ++ arrived b st d)) (take-append-drop n c)
      ∙ k.streams;
}
  where
    c : List ℕ
    c = contents b

    stays : (st' : RxState) → Lands b st' d → Lands b' st' d
    stays rx_idle l = l
    stays receiving l =
        let kept = pop_keeps_room n k.valid h e l.room in
        let room = l.room in
        let within = l.within in
        let more = kept.1 in
        record {
          room = omega arith;
          at = l.at ∙ sym kept.0;
          within = omega arith;
          upto = l.upto;
          phase = l.phase;
        }

    same : (st' : RxState) → Lands b st' d → arrived b' st' d ≡ arrived b st' d
    same rx_idle l = refl
    same receiving l =
        ap₂ (λ from xs. take d.amount (drop from xs)) (pop_keeps_room n k.valid h e l.room).0
          (pop_keeps_bytes n k.valid h e)

-- A reader that consumes no more than it was shown.
pub consume-IsFed :
    (u u' : Uarte) (n : ℕ) (taken all : List ℕ)
    → n ≤ (pop_buf u.rx).len
    → consume_rx u n ≡ some u'
    → IsFed (receiver u) taken all
    → IsFed (receiver u') (taken ++ take n (contents u.rx)) all
unfolding consume_rx
consume-IsFed u u' n taken all h e k =
    let o = pop_removes n k.valid h in
    let ran =
      bind (RingBuffer.pop u.rx n) o.0 (λ x. some (record u { rx = x; irq_pending = true })) o.1 in
    subst (λ x. IsFed (receiver x) (taken ++ take n (contents u.rx)) all)
      (some-injective (sym ran ∙ e)) (pop-IsFed n u.rx_state u.rxd taken all h o.1 o.2 o.3 k)
