-- ===== src/Nrf/BufferedUarte/Receiving.antt =====
-- The receiving half of the port, and that its operations keep the bytes that came in.
use native.Mathlib.Nat.{mod-le}
use embassy.Base.{
  ℕ, ◌+◌, ◌^◌, ◌≤◌, ◌<◌, ◌≡◌, refl, sym, ap, ap₂, ◌∙◌, subst, ◌⊎◌, inl, inr, true, false, some,
  List, [], ◌++◌, append-nil, append_assoc, arith, ◌==◌, if◌then◌else◌, Bool-cases, length, take,
  drop, overwrite,
}
use embassy.Base.Options.{bind}
use embassy.Executor.{System}
use embassy.Util.Waker.{wake_waker}
use embassy.Extras.RingBuffer
use embassy.Extras.RingBuffer.{RingBuffer, push_buf}
use embassy.Extras.RingBuffer.Bounds.{IsValid}
use embassy.Extras.RingBuffer.Queue.{contents}
use embassy.Extras.RingBuffer.Landing.{
  land, landed, contents-land, landed-land, push-landed, land-IsValid, push_buf-land,
}
use embassy.Nrf.BufferedUarte.{
  RxState, rx_idle, receiving, Dma, Uarte, start_rx, end_rx, rx_in, again, irq_loop, rx_loop,
}

-- What the receiver works on.
abbrev pub Receiver : Type 0
Receiver = RingBuffer × RxState × Dma

abbrev pub receiver : Uarte → Receiver
receiver u = (u.rx, u.rx_state, u.rxd)

-- The bytes that the present transfer has put in the storage.
abbrev pub arrived : RingBuffer → RxState → Dma → List ℕ
arrived b rx_idle d = []
arrived b receiving d = landed b d.amount

-- A transfer that was not yet handled puts bytes in the run that the ring lends to be filled.
pub record IsLanding (b : RingBuffer) (d : Dma) : Type 0 where
  pub room : 0 < (push_buf b).len
  pub at : d.ptr ≡ (push_buf b).from
  pub within : d.maxcnt ≤ (push_buf b).len
  pub upto : d.amount ≤ d.maxcnt
  pub phase : ((d.running ≡ true) × (d.ended ≡ false)) ⊎ ((d.running ≡ false) × (d.ended ≡ true))

abbrev pub Lands : RingBuffer → RxState → Dma → Type 0
Lands b rx_idle d = (d.running ≡ false) × (d.ended ≡ false)
Lands b receiving d = IsLanding b d

-- The bytes that were taken from the ring, those in it, and those that have landed are all that
-- came in.
pub record IsFed (q : Receiver) (taken all : List ℕ) : Type 0 where
  pub valid : IsValid q.0
  pub lands : Lands q.0 q.1 q.2
  pub streams : taken ++ (contents q.0 ++ arrived q.0 q.1 q.2) ≡ all

RxState-cases : (st : RxState) → (st ≡ rx_idle) ⊎ (st ≡ receiving)
RxState-cases rx_idle = inl refl
RxState-cases receiving = inr refl

module _ (width : ℕ) where
  rx_loop_idle :
      (u : Uarte) (s : System)
      → u.rx_state ≡ rx_idle
      → rx_loop width u s ≡ some (start_rx width u, s)
  unfolding rx_loop
  rx_loop_idle u s idle_now = rw idle_now refl

  rx_loop_runs :
      (u : Uarte) (s : System)
      → u.rx_state ≡ receiving
      → u.rxd.ended ≡ false
      → rx_loop width u s ≡ some (u, s)
  unfolding rx_loop
  rx_loop_runs u s busy runs = rw (busy, runs) refl

  abbrev after_rx : Uarte → System → RingBuffer → Uarte
  after_rx u s b = record u {
    timer_runs = false;
    rx = b;
    rxd = record u.rxd { ended = false };
    rx_waker = (wake_waker u.rx_waker s).0;
    rx_state = rx_idle;
  }

  end_rx-after_rx :
      (u : Uarte) (s : System) (b : RingBuffer)
      → RingBuffer.push u.rx u.rxd.amount ≡ some b
      → end_rx u s ≡ some (true, after_rx u s b, (wake_waker u.rx_waker s).1)
  unfolding end_rx
  end_rx-after_rx u s b e =
      bind (RingBuffer.push u.rx u.rxd.amount) b
        (λ x. some (true, after_rx u s x, (wake_waker u.rx_waker s).1)) e

  rx_loop_ends :
      (u : Uarte) (s : System) (b : RingBuffer)
      → u.rx_state ≡ receiving
      → u.rxd.ended ≡ true
      → RingBuffer.push u.rx u.rxd.amount ≡ some b
      → rx_loop width u s ≡ some (start_rx width (after_rx u s b), (wake_waker u.rx_waker s).1)
  unfolding rx_loop
  rx_loop_ends u s b busy ended e =
      ap (again (irq_loop (λ u' s'. rx_in width u'.rx_state u' s') 1)) (
        ap (λ st. rx_in width st u s) busy
        ∙ ap (λ x. if x then end_rx u s else some (false, u, s)) ended
        ∙ end_rx-after_rx u s b e)

module _ (width : ℕ) (taken all : List ℕ) where
  start_rx-IsFed :
      (u : Uarte)
      → u.rx_state ≡ rx_idle
      → IsFed (receiver u) taken all
      → IsFed (receiver (start_rx width u)) taken all
  unfolding start_rx
  start_rx-IsFed u idle_now k =
      let len = (push_buf u.rx).len in
      let still = subst (λ st. Lands u.rx st u.rxd) idle_now k.lands in
      elim (Bool-cases (len == 0)) [
        | inl full ↦ rw full k
        | inr room ↦ rw room (record {
          valid = k.valid;
          lands = record {
            room = ground arith;
            at = refl;
            within = mod-le len (2 ^ width);
            upto = omega arith;
            phase = inl (refl, still.1);
          };
          streams =
              subst (λ st. taken ++ (contents u.rx ++ arrived u.rx st u.rxd) ≡ all) idle_now
                k.streams;
        })
      ]

  -- The receiver's loop does not panic and ends, and loses no byte.
  pub rx_loop-IsFed :
      (u : Uarte) (s : System)
      → IsFed (receiver u) taken all
      → (o : Uarte × System) × (rx_loop width u s ≡ some o) × IsFed (receiver o.0) taken all
  rx_loop-IsFed u s k = elim (RxState-cases u.rx_state) [
    | inl idle_now ↦
        ((start_rx width u, s), rx_loop_idle width u s idle_now, start_rx-IsFed u idle_now k)
    | inr busy ↦ elim (Bool-cases u.rxd.ended) [
      | inr runs ↦ ((u, s), rx_loop_runs width u s busy runs, k)
      | inl ended ↦
          let f = subst (λ st. Lands u.rx st u.rxd) busy k.lands in
          let within = f.within in
          let upto = f.upto in
          let o = push-landed u.rxd.amount k.valid (omega arith) in
          let stops : u.rxd.running ≡ false = elim f.phase [
            | inl (on, off) ↦ absurd cc
            | inr (off, on) ↦ off
          ] in
          let kept =
            ap (λ xs. taken ++ xs) (append-nil (contents o.0) ∙ o.3)
            ∙ subst (λ st. taken ++ (contents u.rx ++ arrived u.rx st u.rxd) ≡ all) busy
                k.streams in
          (
            (start_rx width (after_rx width u s o.0), (wake_waker u.rx_waker s).1),
            rx_loop_ends width u s o.0 busy ended o.1,
            start_rx-IsFed (after_rx width u s o.0) refl
                (record { valid = o.2; lands = (stops, refl); streams = kept }),
          )
    ]
  ]

-- Bytes that come in while the transfer runs.
pub land-IsFed :
    (b : RingBuffer) (st : RxState) (d : Dma) (taken all bs : List ℕ)
    → IsFed (b, st, d) taken all
    → d.running ≡ true
    → d.amount + length bs ≤ d.maxcnt
    → IsFed
        (
          record b { buf = overwrite b.buf (d.ptr + d.amount) bs },
          st,
          record d { amount = d.amount + length bs },
        )
        taken
        (all ++ bs)
land-IsFed b rx_idle d taken all bs k runs h = absurd cc
land-IsFed b receiving d taken all bs k runs h =
    let f = k.lands in
    let within = f.within in
    let b' = land b d.amount bs in
    let lent = push_buf-land b d.amount bs k.valid (omega arith) in
    let here : IsFed (b', receiving, record d { amount = d.amount + length bs }) taken (all ++ bs) =
      record {
        valid = land-IsValid b d.amount bs k.valid (omega arith);
        lands = record {
          room = subst (λ q. 0 < q.len) (sym lent) f.room;
          at = f.at ∙ sym (ap (λ q. q.from) lent);
          within = subst (λ q. d.maxcnt ≤ q.len) (sym lent) f.within;
          upto = h;
          phase = elim f.phase [ inl on ↦ inl on | inr off ↦ absurd cc ];
        };
        streams =
            ap₂ (λ xs ys. taken ++ (xs ++ ys))
              (contents-land b d.amount bs k.valid f.room (omega arith))
              (ap (λ q. take (d.amount + length bs) (drop q.from b'.buf)) lent
                ∙ landed-land b d.amount bs k.valid (omega arith))
            ∙ ap (λ xs. taken ++ xs) (sym (append_assoc (contents b) (landed b d.amount) bs))
            ∙ sym (append_assoc taken (contents b ++ landed b d.amount) bs)
            ∙ ap (λ xs. xs ++ bs) k.streams;
      } in
    subst
      (λ p.
        IsFed
          (
            record b { buf = overwrite b.buf (p + d.amount) bs },
            receiving,
            record d { amount = d.amount + length bs },
          )
          taken (all ++ bs))
      (sym f.at) here

pub end-IsFed :
    (b : RingBuffer) (st : RxState) (d : Dma) (taken all : List ℕ)
    → IsFed (b, st, d) taken all
    → d.running ≡ true
    → IsFed (b, st, record d { running = false; ended = true }) taken all
end-IsFed b rx_idle d taken all k runs = absurd cc
end-IsFed b receiving d taken all k runs =
    let f = k.lands in
    record {
      valid = k.valid;
      lands = record {
        room = f.room;
        at = f.at;
        within = f.within;
        upto = f.upto;
        phase = inr (refl, refl);
      };
      streams = k.streams;
    }
