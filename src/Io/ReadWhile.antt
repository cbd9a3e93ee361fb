-- ===== src/Io/ReadWhile.antt =====
-- embassy/src/io/util/read_while.rs: what a poll answers, reads and fills.
use mathlib.Core.Option
use embassy.Base.{
  ℕ, zero, suc, ◌+◌, ◌-◌, ◌<◌, min, ◌≡◌, refl, sym, ap, ◌∙◌, inl, inr, Bool, not, Option, none,
  some, List, [], ◌∷◌, ◌++◌, append-nil, append_assoc, arith, ltb, if◌then◌else◌, le-or-lt,
  Bool-cases, Option-cases, length, take, drop, length-append, drop_all,
}
use embassy.Io.{
  ok, err, Poll, pending, ready, AsyncBufRead, Chunk, run, wait, fail, with_run, Contract, scripted,
}
use embassy.Io.ErrorKinds.{Error}
use embassy.Io.Bytes.{Event, byte, no_data, broken, bytes_then, events, events-with_run}
use embassy.Io.Loop.{Step, take_on, take_last, end_pass, poll_loop, on_script, poll_loop-scripted}
use embassy.Io.Readers.{position, Buffer, copy_fitting, read_while_pass, read_while}

-- One byte into what is left of the caller's buffer.
abbrev pub keep_byte : Buffer → ℕ → Buffer
keep_byte b x = if ltb (length b.got) b.room then record b { got = b.got ++ (x ∷ []) } else b

-- The same byte by byte: the answer, what is left to read, and the caller's buffer.
abbrev pub while_bytes : (ℕ → Bool) → Buffer → List Event → Poll ℕ × List Event × Buffer
while_bytes f b [] = (ready (err Error.unexpected_eof), [], b)
while_bytes f b (byte x ∷ ev) =
    let rest = while_bytes f (keep_byte b x) ev in
    if f x then rest else (ready (ok (length b.got)), byte x ∷ ev, b)
while_bytes f b (no_data ∷ ev) = (pending, ev, b)
while_bytes f b (broken e ∷ ev) = (ready (err e), ev, b)

copy_full : (b : Buffer) (xs : List ℕ) (k : ℕ) → k ≡ 0 → record b { got = b.got ++ take k xs } ≡ b
copy_full b xs k e =
    ap (λ n. record b { got = b.got ++ take n xs }) e
    ∙ ap (λ g. record b { got = g }) (append-nil b.got)

-- A byte at the front is kept first.
copy_suc :
    (b : Buffer) (p x : ℕ) (bs : List ℕ)
    → copy_fitting (keep_byte b x) p bs ≡ copy_fitting b (suc p) (x ∷ bs)
copy_suc b p x bs = elim (le-or-lt b.room (length b.got)) [
  | inl full ↦
      let same : keep_byte b x ≡ b = ground arith in
      ap (λ c. copy_fitting c p bs) same
      ∙ copy_full b bs (min p (b.room - length b.got)) (omega arith)
      ∙ sym (copy_full b (x ∷ bs) (min (suc p) (b.room - length b.got)) (omega arith))
  | inr room ↦
      let kept : keep_byte b x ≡ record b { got = b.got ++ (x ∷ []) } = ground arith in
      let one : length (b.got ++ (x ∷ [])) ≡ length b.got + 1 = length-append b.got (x ∷ []) in
      let k = min p (b.room - length (b.got ++ (x ∷ []))) in
      let more : suc k ≡ min (suc p) (b.room - length b.got) = omega arith in
      ap (λ c. copy_fitting c p bs) kept
      ∙ ap (λ g. record b { got = g }) (append_assoc b.got (x ∷ []) (take k bs))
      ∙ ap (λ n. record b { got = b.got ++ take n (x ∷ bs) }) more
]

module _ (f : ℕ → Bool) where
  -- A poll that is shown a whole buffer, by the position of the byte that ends it.
  abbrev shown_bytes : Buffer → List ℕ → List Event → Option ℕ → Poll ℕ × List Event × Buffer
  shown_bytes b bs ev none = while_bytes f (copy_fitting b (length bs) bs) ev
  shown_bytes b bs ev (some p) =
      let b' = copy_fitting b p bs in (ready (ok (length b'.got)), bytes_then (drop p bs) ev, b')

  shown_bytes-suc :
      (b : Buffer) (x : ℕ) (bs : List ℕ) (ev : List Event) (o : Option ℕ)
      → shown_bytes (keep_byte b x) bs ev o ≡ shown_bytes b (x ∷ bs) ev (Option.map (λ n. suc n) o)
  shown_bytes-suc b x bs ev none = ap (λ c. while_bytes f c ev) (copy_suc b (length bs) x bs)
  shown_bytes-suc b x bs ev (some p) =
      ap (λ c. (ready (ok (length c.got)), bytes_then (drop p bs) ev, c)) (copy_suc b p x bs)

  while_bytes-bytes_then :
      (b : Buffer) (bs : List ℕ) (ev : List Event)
      → while_bytes f b (bytes_then bs ev) ≡ shown_bytes b bs ev (position (λ x. not (f x)) bs)
  while_bytes-bytes_then b [] ev =
      ap (λ c. while_bytes f c ev)
        (sym (copy_full b [] (min 0 (b.room - length b.got)) (omega arith)))
  while_bytes-bytes_then b (x ∷ bs) ev = elim (Bool-cases (f x)) [
    | inl goes ↦
        rw goes (while_bytes-bytes_then (keep_byte b x) bs ev ∙ shown_bytes-suc b x bs ev _)
    | inr ends ↦ rw ends (
        let same = sym (copy_full b (x ∷ bs) (min 0 (b.room - length b.got)) (omega arith)) in
        ap (λ c. (ready (ok (length c.got)), byte x ∷ bytes_then bs ev, c)) same)
  ]

  -- The pass, by that position.
  abbrev pass_by : Buffer → List ℕ → Option ℕ → Step Buffer ℕ
  pass_by b rbuf none = take_on (length rbuf) (copy_fitting b (length rbuf) rbuf)
  pass_by b rbuf (some p) = let b' = copy_fitting b p rbuf in take_last p b' (ok (length b'.got))

  abbrev Ends : ℕ → List Chunk → Buffer → Type 0
  Ends fuel s b =
      (o : Poll ℕ × List Chunk × Buffer) × (read_while scripted fuel f s b ≡ some o)
      × ((o.0, events o.1, o.2) ≡ while_bytes f b (events s))

  read_while-Ends : (fuel : ℕ) (s : List Chunk) (b : Buffer) → length s < fuel → Ends fuel s b
  unfolding read_while poll_loop read_while_pass
  read_while-Ends zero s b h = absurd (omega arith)
  read_while-Ends (suc fuel) [] b h = ((ready (err Error.unexpected_eof), [], b), refl, refl)
  read_while-Ends (suc fuel) (wait ∷ s) b h = ((pending, s, b), refl, refl)
  read_while-Ends (suc fuel) (fail e ∷ s) b h = ((ready (err e), s, b), refl, refl)
  read_while-Ends (suc fuel) (run x xs ∷ s) b h =
      let rbuf = x ∷ xs in
      let shows = while_bytes-bytes_then b rbuf (events s) in
      let rest = poll_loop scripted (read_while_pass f) fuel in
      let step = λ (o : Option ℕ). end_pass scripted rest (pass_by b rbuf o) (run x xs ∷ s) b in
      elim (Option-cases (position (λ y. not (f y)) rbuf)) [
        | inl all ↦
            let b' = copy_fitting b (length rbuf) rbuf in
            let o = read_while-Ends fuel s b' (omega arith) in
            (
              o.0,
              ap step all
                  ∙ ap (λ l. rest (with_run l s) b') (drop_all (length rbuf) rbuf (omega arith))
                  ∙ o.1,
              o.2 ∙ sym (shows ∙ ap (shown_bytes b rbuf (events s)) all),
            )
        | inr (p, found) ↦
            let b' = copy_fitting b p rbuf in
            let answer : Poll ℕ = ready (ok (length b'.got)) in
            (
              (answer, with_run (drop p rbuf) s, b'),
              ap step found,
              ap (λ ev. (answer, ev, b')) (events-with_run (drop p rbuf) s)
                  ∙ sym (shows ∙ ap (shown_bytes b rbuf (events s)) found),
            )
      ]

-- With fuel above the length of the script, a poll of `ReadWhile` over any lawful reader ends, and
-- answers, reads and fills what reading byte by byte does: bytes are read up to the first that does
-- not satisfy the test, which stays unread, and those that do not fit are dropped.
pub read_while-while_bytes :
    {R : Type 0} (rd : AsyncBufRead R) (contract : Contract rd) (f : ℕ → Bool) (fuel : ℕ) (r : R)
    (b : Buffer)
    → length (contract.script r) < fuel
    → (o : Poll ℕ × List Chunk × Buffer) × (on_script rd contract (read_while rd fuel f r b)
        ≡ some o)
      × ((o.0, events o.1, o.2) ≡ while_bytes f b (events (contract.script r)))
unfolding read_while
read_while-while_bytes rd contract f fuel r b h =
    let o = read_while-Ends f fuel (contract.script r) b h in
    (o.0, poll_loop-scripted rd contract (read_while_pass f) fuel r b ∙ o.1, o.2)
