-- ===== src/Io/ReadExact.antt =====
-- embassy/src/io/util/read_exact.rs: filling a whole buffer.
use embassy.Base.{
  ℕ, zero, suc, ◌-◌, ◌≤◌, ◌<◌, min, ◌≡◌, refl, sym, ap, ap₂, ◌∙◌, Bool, true, false, Option, none,
  some, List, [], ◌∷◌, ◌++◌, append-nil, append_assoc, arith, ◌==◌, if◌then◌else◌, length, take,
  drop,
}
use embassy.Io.{
  ok, err, Poll, pending, ready, AsyncBufRead, Chunk, run, wait, fail, shown, after_shown,
  after_consumed, Contract,
}
use embassy.Io.ErrorKinds.{Error}
use embassy.Io.Bytes.{Event, byte, no_data, broken, bytes_then, events, events-with_run}

-- `ReadExact`: the reader, how many bytes of the buffer are yet to fill, and those filled so far.
pub record ReadExact (R : Type 0) : Type 0 where
  pub reader : R
  pub left : ℕ
  pub got : List ℕ

module _ {R : Type 0} (rd : AsyncBufRead R) where
  -- One pass of the `while` loop of `poll` on the buffer that it was shown; the flag asks for another.
  pub pass : ReadExact R → Poll (List ℕ) × R → Poll (Unit {0}) × ReadExact R × Bool
  pass f (pending, r) = (pending, record f { reader = r }, false)
  pass f (ready (err e), r) = (ready (err e), record f { reader = r }, false)
  pass f (ready (ok []), r) = (ready (err Error.unexpected_eof), record f { reader = r }, false)
  pass f (ready (ok (b ∷ bs)), r) =
      let n = min f.left (length (b ∷ bs)) in
      (
        pending,
        record { reader = rd.consume r n; left = f.left - n; got = f.got ++ take n (b ∷ bs) },
        true,
      )

  -- `ReadExact::poll`; `none` is out of fuel.
  pub poll : ℕ → ReadExact R → Option (Poll (Unit {0}) × ReadExact R)
  unfolding pass
  poll zero f = none
  poll (suc fuel) f =
      let (p, f', again) = pass f (rd.poll_fill_buf f.reader) in
      let rest = poll fuel f' in
      if f.left == 0 then some (ready (ok tt), f) else if again then rest else some (p, f')

-- The same byte by byte: what is answered, what is left to read, how many bytes are wanted, and what
-- was read.
pub record Exact : Type 0 where
  pub answer : Poll (Unit {0})
  pub unread : List Event
  pub wanted : ℕ
  pub bytes : List ℕ

pub exact : ℕ → List Event → List ℕ → Exact
exact zero ev got = record { answer = ready (ok tt); unread = ev; wanted = 0; bytes = got }
exact (suc n) [] got = record {
  answer = ready (err Error.unexpected_eof);
  unread = [];
  wanted = suc n;
  bytes = got;
}
exact (suc n) (byte b ∷ ev) got = exact n ev (got ++ (b ∷ []))
exact (suc n) (no_data ∷ ev) got = record {
  answer = pending;
  unread = ev;
  wanted = suc n;
  bytes = got;
}
exact (suc n) (broken e ∷ ev) got = record {
  answer = ready (err e);
  unread = ev;
  wanted = suc n;
  bytes = got;
}

exact_zero :
    (m : ℕ) (ev : List Event) (got : List ℕ)
    → m ≡ 0
    → exact m ev got ≡ record { answer = ready (ok tt); unread = ev; wanted = m; bytes = got }
unfolding exact
exact_zero zero ev got e = refl
exact_zero (suc m) ev got e = absurd (omega arith)

-- Reading the front of a buffer is reading its bytes.
exact-bytes_then :
    (k n : ℕ) (bs : List ℕ) (ev : List Event) (got : List ℕ)
    → k ≤ n
    → k ≤ length bs
    → exact n (bytes_then bs ev) got ≡ exact (n - k) (bytes_then (drop k bs) ev) (got ++ take k bs)
unfolding exact
exact-bytes_then zero n bs ev got h le =
    let e : n ≡ n - 0 = omega arith in
    ap₂ (λ m g. exact m (bytes_then bs ev) g) e (sym (append-nil got))
exact-bytes_then (suc k) n [] ev got h le = absurd (omega arith)
exact-bytes_then (suc k) zero (b ∷ bs) ev got h le = absurd (omega arith)
exact-bytes_then (suc k) (suc n) (b ∷ bs) ev got h le =
    let e : n - k ≡ suc n - suc k = omega arith in
    exact-bytes_then k n bs ev (got ++ (b ∷ [])) (omega arith) (omega arith)
    ∙ ap₂ (λ m g. exact m (bytes_then (drop k bs) ev) g) e (append_assoc got (b ∷ []) (take k bs))

module _ {R : Type 0} (rd : AsyncBufRead R) (contract : Contract rd) where
  open contract use {script, fill_shows, fill_keeps, consume_drops}

  -- The state of a poll, byte by byte.
  abbrev pub as_bytes : Poll (Unit {0}) × ReadExact R → Exact
  as_bytes (p, f) = record {
    answer = p;
    unread = events (script f.reader);
    wanted = f.left;
    bytes = f.got;
  }

  -- What `poll` does after a pass.
  abbrev after_pass :
      ℕ → Poll (Unit {0}) × ReadExact R × Bool → Option (Poll (Unit {0}) × ReadExact R)
  after_pass fuel w = if w.2 then poll rd fuel w.1 else some (w.0, w.1)

  poll_step :
      (fuel : ℕ) (f : ReadExact R) (s : List Chunk)
      → (f.left == 0) ≡ false
      → script f.reader ≡ s
      → poll rd (suc fuel) f ≡ after_pass fuel (pass rd f (shown s, (rd.poll_fill_buf f.reader).1))
  unfolding poll
  poll_step fuel f s more e =
      let r = (rd.poll_fill_buf f.reader).1 in
      let stop : Option (Poll (Unit {0}) × ReadExact R) = some (ready (ok tt), f) in
      ap (λ b. if b then stop else after_pass fuel (pass rd f (rd.poll_fill_buf f.reader))) more
      ∙ ap (λ x. after_pass fuel (pass rd f (x, r))) (fill_shows f.reader ∙ ap shown e)

  poll_done :
      (fuel : ℕ) (f : ReadExact R)
      → (f.left == 0) ≡ true
      → poll rd (suc fuel) f ≡ some (ready (ok tt), f)
  unfolding poll
  poll_done fuel f done =
      let stop : Option (Poll (Unit {0}) × ReadExact R) = some (ready (ok tt), f) in
      ap (λ b. if b then stop else after_pass fuel (pass rd f (rd.poll_fill_buf f.reader))) done

  kept_script :
      (r : R) (s : List Chunk) → script r ≡ s → script (rd.poll_fill_buf r).1 ≡ after_shown s
  kept_script r s e = fill_keeps r ∙ ap after_shown e

  -- What is left after the front of a buffer is consumed.
  events-consume :
      (r : R) (b : ℕ) (bs : List ℕ) (s : List Chunk) (k : ℕ)
      → script r ≡ run b bs ∷ s
      → events (script (rd.consume r k)) ≡ bytes_then (drop k (b ∷ bs)) (events s)
  events-consume r b bs s k e =
      ap events (consume_drops r k ∙ ap (λ t. after_consumed t k) e)
      ∙ events-with_run (drop k (b ∷ bs)) s

  abbrev Ends : ℕ → ReadExact R → Type 0
  Ends fuel f =
      (o : Poll (Unit {0}) × ReadExact R) × (poll rd fuel f ≡ some o)
      × (as_bytes o ≡ exact f.left (events (script f.reader)) f.got)

  -- A poll that stops at a chunk which is no buffer.
  stopped :
      (f : ReadExact R) (n : ℕ) (s : List Chunk) (answer : Poll (Unit {0}))
      → f.left ≡ n
      → script f.reader ≡ s
      → let r = (rd.poll_fill_buf f.reader).1 in
        exact n (events s) f.got
          ≡ record { answer = answer; unread = events (after_shown s); wanted = n; bytes = f.got }
        → as_bytes (answer, record f { reader = r }) ≡ exact f.left (events (script f.reader)) f.got
  stopped f n s answer en es spec =
      let at = λ (u : List Event) (w : ℕ).
        let x : Exact = record { answer = answer; unread = u; wanted = w; bytes = f.got } in x in
      ap₂ at (ap events (kept_script f.reader s es)) en
      ∙ sym spec
      ∙ sym (ap₂ (λ m t. exact m (events t) f.got) en es)

  poll-Ends :
      (fuel : ℕ) (f : ReadExact R) (n : ℕ) (s : List Chunk)
      → f.left ≡ n
      → script f.reader ≡ s
      → f.left < fuel
      → Ends fuel f
  unfolding poll exact pass
  poll-Ends zero f n s en es h = absurd (omega arith)
  poll-Ends (suc fuel) f zero s en es h =
      ((ready (ok tt), f), poll_done fuel f (ground arith), sym (exact_zero f.left _ f.got en))
  poll-Ends (suc fuel) f (suc n) [] en es h =
      let r = (rd.poll_fill_buf f.reader).1 in
      (
        (ready (err Error.unexpected_eof), record f { reader = r }),
        poll_step fuel f [] (ground arith) es,
        stopped f (suc n) [] (ready (err Error.unexpected_eof)) en es refl,
      )
  poll-Ends (suc fuel) f (suc n) (wait ∷ s) en es h =
      let r = (rd.poll_fill_buf f.reader).1 in
      (
        (pending, record f { reader = r }),
        poll_step fuel f (wait ∷ s) (ground arith) es,
        stopped f (suc n) (wait ∷ s) pending en es refl,
      )
  poll-Ends (suc fuel) f (suc n) (fail e ∷ s) en es h =
      let r = (rd.poll_fill_buf f.reader).1 in
      (
        (ready (err e), record f { reader = r }),
        poll_step fuel f (fail e ∷ s) (ground arith) es,
        stopped f (suc n) (fail e ∷ s) (ready (err e)) en es refl,
      )
  poll-Ends (suc fuel) f (suc n) (run b bs ∷ s) en es h =
      let r = (rd.poll_fill_buf f.reader).1 in
      let k = min f.left (length (b ∷ bs)) in
      let f' : ReadExact R = record {
        reader = rd.consume r k;
        left = f.left - k;
        got = f.got ++ take k (b ∷ bs);
      } in
      let o = poll-Ends fuel f' f'.left (script f'.reader) refl refl (omega arith) in
      (
        o.0,
        poll_step fuel f (run b bs ∷ s) (ground arith) es ∙ o.1,
        o.2
            ∙ ap (λ ev. exact f'.left ev f'.got)
                (events-consume r b bs s k (kept_script f.reader (run b bs ∷ s) es))
            ∙ sym (exact-bytes_then k f.left (b ∷ bs) (events s) f.got (omega arith) (omega arith))
            ∙ sym (ap (λ t. exact f.left (events t) f.got) es),
      )

  -- With fuel above the number of bytes that are wanted, `poll` of a `ReadExact` over any lawful
  -- reader ends, and answers, reads and fills what reading byte by byte does, however the bytes are
  -- cut into buffers.
  pub poll-exact :
      (fuel : ℕ) (f : ReadExact R)
      → f.left < fuel
      → (o : Poll (Unit {0}) × ReadExact R) × (poll rd fuel f ≡ some o)
        × (as_bytes o ≡ exact f.left (events (script f.reader)) f.got)
  poll-exact fuel f h = poll-Ends fuel f f.left (script f.reader) refl refl h
