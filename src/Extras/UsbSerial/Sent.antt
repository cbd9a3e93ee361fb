-- ===== src/Extras/UsbSerial/Sent.antt =====
-- The bytes that the port accepts are sent once, and in order.
use embassy.Base.{
  ℕ, ◌≤◌, min, ◌≡◌, refl, sym, ap, ap₂, ◌∙◌, subst, inl, inr, true, false, Option, none, some, List,
  [], ◌++◌, append-nil, append_assoc, arith, ltb, ◌==◌, Bool-cases, length, take, drop,
  take-append-drop, length-take, take_all, take-take,
}
use embassy.Io.{ok, err, Poll, pending, ready, accepted}
use embassy.Io.ErrorKinds
use embassy.Executor.{System}
use embassy.Util.Waker.{register_waker, wake_waker}
use embassy.Extras.RingBuffer
use embassy.Extras.RingBuffer.{RingBuffer, push_buf, pop_buf}
use embassy.Extras.RingBuffer.Bounds.{IsValid}
use embassy.Extras.RingBuffer.Queue.{contents}
use embassy.Extras.RingBuffer.Queue.Pop.{pop_removes, pop_buf_front}
use embassy.Extras.RingBuffer.Queue.Push.{push_appends}
use embassy.Extras.UsbSerial.{
  UsbResult, done, would_block, usb_error, CdcAcm, UsbSerial, full_size_packets, popped_by,
  max_size, packet, flush_data, flush_end, flush_write, accept, poll_write, endpoint_in_complete,
}

-- How many bytes an answer says were written.
abbrev pub count_of : UsbResult ℕ → ℕ
count_of (done n) = n
count_of would_block = 0
count_of usb_error = 0

-- What the port relies on: what an endpoint has sent grows by as many bytes of the packet as it says,
-- and by none if it fails.
pub record Sends {C : Type 0} (cdc : CdcAcm C) : Type 0 where
  pub sent : C → List ℕ
  pub few : (c : C) (buf : List ℕ) → count_of (cdc.write_packet c buf).0 ≤ length buf
  pub grows :
      (c : C) (buf : List ℕ)
      → sent (cdc.write_packet c buf).1 ≡ sent c ++ take (count_of (cdc.write_packet c buf).0) buf

module _ {C : Type 0} (cdc : CdcAcm C) (sends : Sends cdc) where
  open sends use {sent, few, grows}

  -- What was accepted and not cleared: the bytes that are sent, and those that wait.
  abbrev pub stream : UsbSerial C → List ℕ
  stream u = sent u.inner ++ contents u.write_buf

  -- A step of the writer that ends, and keeps the stream and the ring valid.
  abbrev pub Flushes : UsbSerial C → Option (UsbSerial C) → Type 0
  Flushes u o = (u' : UsbSerial C) × (o ≡ some u') × IsValid u'.write_buf × (stream u' ≡ stream u)

  take-packet :
      (u : UsbSerial C) (n : ℕ)
      → IsValid u.write_buf
      → n ≤ length (packet cdc u)
      → (n ≤ (pop_buf u.write_buf).len) × (take n (packet cdc u) ≡ take n (contents u.write_buf))
  unfolding packet
  take-packet u n v h =
      let c = contents u.write_buf in
      let len = (pop_buf u.write_buf).len in
      let m = max_size cdc u in
      let front = (pop_buf_front v).0 in
      let short = length-take {0} m (take len c) in
      let shorter = length-take {0} len c in
      let h' : n ≤ length (take m (take len c)) = subst (λ xs. n ≤ length (take m xs)) front h in
      (
        omega arith,
        ap (λ xs. take n (take m xs)) front
            ∙ take-take n m (take len c) (omega arith)
            ∙ take-take n len c (omega arith),
      )

  -- After a packet, the bytes that were sent are popped.
  popped_by-Flushes :
      (u u' : UsbSerial C) (n : ℕ)
      → IsValid u.write_buf
      → n ≤ length (packet cdc u)
      → u'.write_buf ≡ u.write_buf
      → sent u'.inner ≡ sent u.inner ++ take n (packet cdc u)
      → Flushes u (popped_by u' n)
  popped_by-Flushes u u' n v h same grown =
      let front = take-packet u n v h in
      let c = contents u.write_buf in
      let o = pop_removes n v front.0 in
      let run : RingBuffer.pop u'.write_buf n ≡ some o.0 =
        ap (λ b. RingBuffer.pop b n) same ∙ o.1 in
      (
        record u' { write_buf = o.0 },
        ap
            (λ x. elim x as (λ y. Option (UsbSerial C)) [
              | none ↦ none
              | some b ↦ some (record u' { write_buf = b })
            ])
            run,
        o.2,
        ap₂ ◌++◌ (grown ∙ ap (λ xs. sent u.inner ++ xs) front.1) o.3
            ∙ append_assoc (sent u.inner) (take n c) (drop n c)
            ∙ ap (λ xs. sent u.inner ++ xs) (take-append-drop n c),
      )

  flush_data-Flushes :
      (u : UsbSerial C) (q : UsbResult ℕ × C)
      → IsValid u.write_buf
      → count_of q.0 ≤ length (packet cdc u)
      → sent q.1 ≡ sent u.inner ++ take (count_of q.0) (packet cdc u)
      → Flushes u (flush_data cdc u q)
  unfolding flush_data
  flush_data-Flushes u (done n, c) v h grown = popped_by-Flushes u _ n v h refl grown
  flush_data-Flushes u (would_block, c) v h grown = popped_by-Flushes u _ 0 v h refl grown
  flush_data-Flushes u (usb_error, c) v h grown = (
    record u { inner = c; write_error = true },
    refl,
    v,
    ap (λ xs. xs ++ contents u.write_buf) (grown ∙ append-nil (sent u.inner)),
  )

  flush_end-stream :
      (u : UsbSerial C) (q : UsbResult ℕ × C)
      → sent q.1 ≡ sent u.inner
      → IsValid u.write_buf
      → IsValid (flush_end cdc u q).write_buf × (stream (flush_end cdc u q) ≡ stream u)
  unfolding flush_end
  flush_end-stream u (done n, c) e v = (v, ap (λ xs. xs ++ contents u.write_buf) e)
  flush_end-stream u (would_block, c) e v = (v, ap (λ xs. xs ++ contents u.write_buf) e)
  flush_end-stream u (usb_error, c) e v = (v, ap (λ xs. xs ++ contents u.write_buf) e)

  flush_write-Flushes : (u : UsbSerial C) → IsValid u.write_buf → Flushes u (flush_write cdc u)
  unfolding flush_write
  flush_write-Flushes u v = elim (Bool-cases (length (packet cdc u) == 0)) [
    | inr some_data ↦
        let q = cdc.write_packet u.inner (packet cdc u) in
        rw some_data
          (flush_data-Flushes u q v (few u.inner (packet cdc u)) (grows u.inner (packet cdc u)))
    | inl no_data ↦ rw no_data (elim (Bool-cases (ltb 0 (full_size_packets u.write_state))) [
      | inr quiet ↦ rw quiet (u, refl, v, refl)
      | inl ends ↦
          let q = cdc.write_packet u.inner [] in
          let nothing : take (count_of q.0) [] ≡ [] =
            take_all {0} (count_of q.0) [] (omega arith) in
          let same : sent q.1 ≡ sent u.inner =
            grows u.inner [] ∙ ap (λ xs. sent u.inner ++ xs) nothing ∙ append-nil (sent u.inner) in
          let o = flush_end-stream u q same v in rw ends (flush_end cdc u q, refl, o.0, o.1)
    ])
  ]

  accept-Flushes :
      (u : UsbSerial C) (bytes : List ℕ)
      → IsValid u.write_buf
      → length bytes ≤ (push_buf u.write_buf).len
      → (u' : UsbSerial C) × (accept cdc u bytes ≡ some u')
        × IsValid u'.write_buf
        × (stream u' ≡ stream u ++ bytes)
  unfolding accept
  accept-Flushes u bytes v h =
      let o = push_appends bytes v h in
      let pushed = record u { write_buf = o.0 } in
      let w = flush_write-Flushes pushed o.2 in
      (
        w.0,
        ap
              (λ x. elim x as (λ y. Option (UsbSerial C)) [
                | none ↦ none
                | some b ↦ flush_write cdc (record u { write_buf = b })
              ])
              o.1
            ∙ w.1,
        w.2,
        w.3
            ∙ ap (λ xs. sent u.inner ++ xs) o.3
            ∙ sym (append_assoc (sent u.inner) (contents u.write_buf) bytes),
      )

  poll_write-accept :
      (t : ℕ) (u u' : UsbSerial C) (s : System) (buf : List ℕ)
      → u.write_error ≡ false
      → ((push_buf u.write_buf).len == 0) ≡ false
      → accept cdc u (take (min (push_buf u.write_buf).len (length buf)) buf) ≡ some u'
      → poll_write cdc t u s buf
        ≡ some (ready (ok (min (push_buf u.write_buf).len (length buf))), u', s)
  unfolding poll_write
  poll_write-accept t u u' s buf fine room taken = rw (fine, room, taken) refl

  -- If the writer's ring is valid, then a `poll_write` does not panic and keeps it valid, and the
  -- bytes that were sent, followed by those that wait, grow by just the bytes that its answer accepts.
  pub poll_write-stream :
      (t : ℕ) (u : UsbSerial C) (s : System) (buf : List ℕ)
      → IsValid u.write_buf
      → (o : Poll ℕ × UsbSerial C × System) × (poll_write cdc t u s buf ≡ some o)
        × IsValid o.1.write_buf
        × (stream o.1 ≡ stream u ++ accepted o.0 buf)
  unfolding poll_write
  poll_write-stream t u s buf v = elim (Bool-cases u.write_error) [
    | inl failed ↦ rw failed (
      (ready (err ErrorKinds.other), record u { write_error = false }, s),
      refl,
      v,
      sym (append-nil (stream u)),
    )
    | inr fine ↦ elim (Bool-cases ((push_buf u.write_buf).len == 0)) [
      | inl no_room ↦
          let w = register_waker t u.write_waker s in
          (
            (pending, record u { write_waker = w.0 }, w.1),
            rw (fine, no_room) refl,
            v,
            sym (append-nil (stream u)),
          )
      | inr room ↦
          let count = min (push_buf u.write_buf).len (length buf) in
          let short = length-take {0} count buf in
          let a = accept-Flushes u (take count buf) v (omega arith) in
          ((ready (ok count), a.0, s), poll_write-accept t u a.0 s buf fine room a.1, a.2, a.3)
    ]
  ]

  -- If the writer's ring is valid, then the completion of a packet does not panic, keeps it valid,
  -- and neither loses nor adds a byte.
  complete_stream :
      (addr : ℕ) (u : UsbSerial C) (s : System)
      → IsValid u.write_buf
      → (o : UsbSerial C × System) × (endpoint_in_complete cdc addr u s ≡ some o)
        × IsValid o.0.write_buf
        × (stream o.0 ≡ stream u)
  unfolding endpoint_in_complete
  complete_stream addr u s v =
      let w = wake_waker u.write_waker s in
      let f = flush_write-Flushes (record u { write_waker = w.0 }) v in
      elim (Bool-cases (addr == cdc.write_ep_address)) [
        | inl ours ↦ ((f.0, w.1), rw (ours, f.1) refl, f.2, f.3)
        | inr other ↦ ((u, s), rw other refl, v, refl)
      ]
