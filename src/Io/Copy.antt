-- ===== src/Io/Copy.antt =====
-- embassy/src/io/util/copy_buf.rs: what is read is written, once and in order.
use embassy.Base.{
  ℕ, zero, suc, ◌+◌, ◌-◌, ◌^◌, ◌≤◌, ◌<◌, ◌≡◌, refl, sym, ap, ap₂, ◌∙◌, subst, inl, inr, false,
  Option, some, List, [], ◌∷◌, ◌++◌, append-nil, append_assoc, arith, ◌==◌, if◌then◌else◌,
  Bool-cases, length, take, drop, length-append, take-append-drop, length-drop,
}
use embassy.Time.{Profile, dev, release, to_u32}
use embassy.Io.{
  ok, err, Poll, pending, ready, accepted, AsyncBufRead, Chunk, run, wait, fail, shown, after_shown,
  with_run, after_consumed, Contract,
}
use embassy.Io.ErrorKinds
use embassy.Io.Writers.{
  AsyncWrite, WriteContract, End, answers, panics, copy_written, copy_pass, copy_buf,
}

-- The bytes that a script has yet to show.
abbrev pub unread : List Chunk → List ℕ
unread [] = []
unread (run b bs ∷ s) = (b ∷ bs) ++ unread s
unread (wait ∷ s) = unread s
unread (fail e ∷ s) = unread s

unread-with_run : (bs : List ℕ) (s : List Chunk) → unread (with_run bs s) ≡ bs ++ unread s
unread-with_run [] s = refl
unread-with_run (b ∷ bs) s = refl

to_u32-some : (p : Profile) (n : ℕ) → n < 2 ^ 32 → to_u32 p n ≡ some n
to_u32-some dev n h = ground arith
to_u32-some release n h = ground arith

module _ {R W : Type 0} (rd : AsyncBufRead R) (wr : AsyncWrite W) (profile : Profile)
    (reader : Contract rd) (writer : WriteContract wr) where
  open reader use {script, fill_shows, fill_keeps, consume_drops}
  open writer use {written, grows, few}

  -- Success comes at the end of the reader, with the number of all bytes; nothing panics.
  abbrev pub CopyEnds : End ℕ → R → ℕ → Type 0
  CopyEnds (answers pending) r amt = Unit
  CopyEnds (answers (ready (err e))) r amt = Unit
  CopyEnds (answers (ready (ok n))) r amt = (n ≡ amt) × (unread (script r) ≡ [])
  CopyEnds panics r amt = ⊥

  abbrev pub Copies : R → W → ℕ → Option (End ℕ × R × W × ℕ) → Type 0
  Copies r w amt o =
      (e : End ℕ × R × W × ℕ) × (o ≡ some e)
      × (written e.2 ++ unread (script e.1) ≡ written w ++ unread (script r))
      × (e.3 + length (unread (script e.1)) ≡ amt + length (unread (script r)))
      × CopyEnds e.0 e.1 e.3

  written-Copies :
      (rest : R → W → ℕ → Option (End ℕ × R × W × ℕ)) (r : R) (w w' : W) (amt : ℕ) (buf : List ℕ)
      (s : List Chunk) (p : Poll ℕ)
      → unread (script r) ≡ buf ++ unread s
      → amt + length (unread (script r)) < 2 ^ 32
      → ((n : ℕ) → unread (script (rd.consume r n)) ≡ drop n buf ++ unread s)
      → ((n : ℕ)
          → 0 < n
          → n ≤ length buf
          → Copies (rd.consume r n) w' (amt + n) (rest (rd.consume r n) w' (amt + n)))
      → (wr.poll_write w buf).0 ≡ p
      → written w' ≡ written w ++ accepted p buf
      → Copies r w amt (copy_written rd wr profile rest p r w' amt)
  written-Copies rest r w w' amt buf s pending shows small after ih e g = (
    (answers pending, r, w', amt),
    refl,
    ap (λ xs. xs ++ unread (script r)) (g ∙ append-nil (written w)),
    refl,
    tt,
  )
  written-Copies rest r w w' amt buf s (ready (err x)) shows small after ih e g = (
    (answers (ready (err x)), r, w', amt),
    refl,
    ap (λ xs. xs ++ unread (script r)) (g ∙ append-nil (written w)),
    refl,
    tt,
  )
  written-Copies rest r w w' amt buf s (ready (ok n)) shows small after ih e g =
      let h = few w buf n e in
      let left = unread s in
      let total : length (unread (script r)) ≡ length buf + length left =
        ap length shows ∙ length-append {0} buf left in
      let sum : to_u32 profile (amt + n) ≡ some (amt + n) =
        to_u32-some profile (amt + n) (omega arith) in
      elim (Bool-cases (n == 0)) [
        | inl nothing ↦
            let zero_taken : n ≡ 0 = ground arith in
            (
              (answers (ready (err ErrorKinds.write_zero)), r, w', amt),
              rw nothing refl,
              ap (λ xs. xs ++ unread (script r))
                  (g ∙ ap (λ k. written w ++ take k buf) zero_taken ∙ append-nil (written w)),
              refl,
              tt,
            )
        | inr taken ↦
            let o = ih n (ground arith) h in
            let rests = after n in
            let split = take-append-drop n buf in
            let dropped : length (unread (script (rd.consume r n)))
                ≡ (length buf - n) + length left =
              ap length rests
              ∙ length-append {0} (drop n buf) left
              ∙ ap (λ k. k + length left) (length-drop {0} n buf) in
            let counted = o.3 in
            (
              o.0,
              rw (taken, sum) o.1,
              o.2
                  ∙ ap₂ ◌++◌ g rests
                  ∙ append_assoc (written w) (take n buf) (drop n buf ++ left)
                  ∙ ap (λ xs. written w ++ xs)
                      (sym (append_assoc (take n buf) (drop n buf) left)
                        ∙ ap (λ xs. xs ++ left) split
                        ∙ sym shows),
              omega arith,
              o.4,
            )
      ]

  -- One pass, by what the reader shows.
  pass-Copies :
      (rest : R → W → ℕ → Option (End ℕ × R × W × ℕ)) (r r' : R) (w : W) (amt : ℕ) (cs : List Chunk)
      → script r ≡ cs
      → script r' ≡ after_shown cs
      → amt + length (unread (script r)) < 2 ^ 32
      → ((n : ℕ) (w' : W)
          → 0 < n
          → n ≤ length (unread (script r))
          → length (unread (script (rd.consume r' n))) + n ≡ length (unread (script r))
          → Copies (rd.consume r' n) w' (amt + n) (rest (rd.consume r' n) w' (amt + n)))
      → Copies r w amt (copy_pass rd wr profile rest (shown cs) r' w amt)
  pass-Copies rest r r' w amt [] e e' small ih =
      let same : unread (script r') ≡ unread (script r) = ap unread (e' ∙ sym e) in
      (
        (answers (ready (ok amt)), r', w, amt),
        refl,
        ap (λ xs. written w ++ xs) same,
        ap (λ xs. amt + length xs) same,
        (refl, ap unread e'),
      )
  pass-Copies rest r r' w amt (wait ∷ s) e e' small ih =
      let same : unread (script r') ≡ unread (script r) = ap unread e' ∙ sym (ap unread e) in
      (
        (answers pending, r', w, amt),
        refl,
        ap (λ xs. written w ++ xs) same,
        ap (λ xs. amt + length xs) same,
        tt,
      )
  pass-Copies rest r r' w amt (fail x ∷ s) e e' small ih =
      let same : unread (script r') ≡ unread (script r) = ap unread e' ∙ sym (ap unread e) in
      (
        (answers (ready (err x)), r', w, amt),
        refl,
        ap (λ xs. written w ++ xs) same,
        ap (λ xs. amt + length xs) same,
        tt,
      )
  pass-Copies rest r r' w amt (run b bs ∷ s) e e' small ih =
      let buf = b ∷ bs in
      let same : unread (script r') ≡ unread (script r) = ap unread (e' ∙ sym e) in
      let q = wr.poll_write w buf in
      let not_empty : (length buf == 0) ≡ false = ground arith in
      let after = λ (n : ℕ).
        ap unread (consume_drops r' n ∙ ap (λ cs. after_consumed cs n) e')
        ∙ unread-with_run (drop n buf) s in
      let whole : length (unread (script r)) ≡ length buf + length (unread s) =
        ap (λ cs. length (unread cs)) e ∙ length-append {0} buf (unread s) in
      let o =
        written-Copies rest r' w q.1 amt buf s q.0 (ap unread e')
          (subst (λ xs. amt + length xs < 2 ^ 32) (sym same) small) after
          (λ n pos le.
            let dropped =
              ap length (after n)
              ∙ length-append {0} (drop n buf) (unread s)
              ∙ ap (λ k. k + length (unread s)) (length-drop {0} n buf) in
            ih n q.1 pos (omega arith) (omega arith))
          refl (grows w buf) in
      (
        o.0,
        ap
              (λ x.
                if x
                then some (answers (ready (ok amt)), r', w, amt)
                else copy_written rd wr profile rest q.0 r' q.1 amt)
              not_empty
            ∙ o.1,
        o.2 ∙ ap (λ xs. written w ++ xs) same,
        o.3 ∙ ap (λ xs. amt + length xs) same,
        o.4,
      )

  -- With fuel above the number of bytes that a lawful reader has yet to show, and where they and
  -- those copied before fit in 32 bits, a poll of `CopyBuf` ends and does not panic; what was
  -- written, followed by what is left to read, stays the same, and the count grows by what was
  -- copied. If it succeeds, then it answers with the count, and nothing is left to read.
  pub copy_buf-Copies :
      (fuel : ℕ) (r : R) (w : W) (amt : ℕ)
      → length (unread (script r)) < fuel
      → amt + length (unread (script r)) < 2 ^ 32
      → Copies r w amt (copy_buf rd wr profile fuel r w amt)
  unfolding copy_buf
  copy_buf-Copies zero r w amt h small = absurd (omega arith)
  copy_buf-Copies (suc fuel) r w amt h small =
      let f = rd.poll_fill_buf r in
      subst
        (λ p. Copies r w amt (copy_pass rd wr profile (copy_buf rd wr profile fuel) p f.1 w amt))
        (sym (fill_shows r))
        (pass-Copies (copy_buf rd wr profile fuel) r f.1 w amt (script r) refl (fill_keeps r) small
          (λ n w' pos le counted.
            copy_buf-Copies fuel (rd.consume f.1 n) w' (amt + n) (omega arith) (omega arith)))
