-- ===== src/Extras/UsbSerial/Received.antt =====
-- What the read endpoint delivers, and what the reader hears of it.
use embassy.Base.{
  ℕ, ◌≤◌, ◌≡◌, refl, sym, ap, ◌∙◌, ◌⊎◌, inl, inr, true, Option, some, List, [], ◌++◌, append-nil,
  arith, ◌==◌, ==_refl, Bool-cases, length, length-eq-zero,
}
use embassy.Io.{err, ready}
use embassy.Io.ErrorKinds
use embassy.Executor.{System}
use embassy.Util.Waker.{wake_waker}
use embassy.Extras.RingBuffer.{push_buf}
use embassy.Extras.RingBuffer.Bounds.{IsValid}
use embassy.Extras.RingBuffer.Queue.{contents}
use embassy.Extras.RingBuffer.Queue.Push.{push_appends}
use embassy.Extras.UsbSerial.{
  UsbResult, done, would_block, usb_error, CdcAcm, UsbSerial, poll_fill_buf, received, endpoint_out,
}

-- The bytes that an answer holds.
abbrev pub bytes_in : UsbResult (List ℕ) → List ℕ
bytes_in (done xs) = xs
bytes_in would_block = []
bytes_in usb_error = []

abbrev pub IsError : UsbResult (List ℕ) → Type 0
IsError (done xs) = ⊥
IsError would_block = ⊥
IsError usb_error = Unit

-- What the port relies on: no more is read than the buffer holds.
abbrev pub ReadsFit : {C : Type 0} → CdcAcm C → Type 0
ReadsFit {C} cdc = (c : C) (n : ℕ) → length (bytes_in (cdc.read_packet c n).0) ≤ n

module _ {C : Type 0} (cdc : CdcAcm C) where
  -- A delivery does not panic; its bytes wait after the others, and wake the reader's task. An error
  -- is told to the next poll, and wakes no one.
  abbrev pub Delivers :
      ℕ → UsbSerial C → System → UsbResult (List ℕ) → Option (UsbSerial C × System) → Type 0
  Delivers t u s q o =
      (after : UsbSerial C × System) × (o ≡ some after)
      × IsValid after.0.read_buf
      × (contents after.0.read_buf ≡ contents u.read_buf ++ bytes_in q)
      × ((length (bytes_in q) ≡ 0) ⊎ (after.1 ≡ (wake_waker u.read_waker s).1))
      × ((¬ IsError q)
          ⊎ ((after.1 ≡ s)
              × ((poll_fill_buf cdc t after.0 after.1).0 ≡ ready (err ErrorKinds.other))))

  received-Delivers :
      (t : ℕ) (u : UsbSerial C) (s : System) (q : UsbResult (List ℕ) × C)
      → IsValid u.read_buf
      → length (bytes_in q.0) ≤ (push_buf u.read_buf).len
      → Delivers t u s q.0 (received cdc u s q)
  unfolding received poll_fill_buf
  received-Delivers t u s (usb_error, c) v h = (
    (record u { inner = c; read_error = true }, s),
    refl,
    v,
    sym (append-nil (contents u.read_buf)),
    inl refl,
    inr (refl, refl),
  )
  received-Delivers t u s (would_block, c) v h = (
    (record u { inner = c }, s),
    refl,
    v,
    sym (append-nil (contents u.read_buf)),
    inl refl,
    inl (elim [ ]),
  )
  received-Delivers t u s (done xs, c) v h = elim (Bool-cases (length xs == 0)) [
    | inl nothing ↦ (
      (record u { inner = c }, s),
      rw nothing refl,
      v,
      sym (
          ap (λ ys. contents u.read_buf ++ ys) (length-eq-zero xs (ground arith))
          ∙ append-nil (contents u.read_buf)),
      inl (ground arith),
      inl (elim [ ]),
    )
    | inr some_data ↦
        let a = push_appends xs v h in
        let w = wake_waker u.read_waker s in
        (
          (record u { inner = c; read_buf = a.0; read_waker = w.0 }, w.1),
          rw (some_data, a.1) refl,
          a.2,
          a.3,
          inr refl,
          inl (elim [ ]),
        )
  ]

  -- If the reader's ring is valid and the endpoint reads no more than fits, then a packet that arrives
  -- at the read endpoint does not panic and keeps the ring valid, its bytes wait after those before
  -- them, and if there are any the reader's waker is woken. If the endpoint fails, then the next poll
  -- of the reader answers with the error, but no task is woken.
  pub endpoint_out-Delivers :
      ReadsFit cdc
      → (t : ℕ) (u : UsbSerial C) (s : System) → IsValid u.read_buf
      → Delivers t u s
          (cdc.read_packet u.inner (push_buf u.read_buf).len).0
          (endpoint_out cdc cdc.read_ep_address u s)
  unfolding endpoint_out
  endpoint_out-Delivers fits t u s v = rw (==_refl cdc.read_ep_address) (
      received-Delivers t u s (cdc.read_packet u.inner (push_buf u.read_buf).len) v
        (fits u.inner (push_buf u.read_buf).len))
