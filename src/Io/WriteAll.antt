-- ===== src/Io/WriteAll.antt =====
-- embassy/src/io/util/write_all.rs: every byte is written once.
use embassy.Base.{
  ℕ, zero, suc, ◌≤◌, ◌<◌, ◌≡◌, refl, ap, ◌∙◌, inl, inr, false, Option, some, List, [], ◌++◌,
  append-nil, append_assoc, arith, ltb, ◌==◌, Bool-cases, length, take, drop, take-append-drop,
  length-drop, length-eq-zero,
}
use embassy.Io.{ok, err, Poll, pending, ready, accepted}
use embassy.Io.Writers.{AsyncWrite, WriteContract, End, answers, panics, write_all_pass, write_all}

module _ {W : Type 0} (wr : AsyncWrite W) (contract : WriteContract wr) where
  open contract use {written, grows, few}

  -- After success no byte is left, and a panic comes where the writer took none of some bytes.
  abbrev pub EndsRight : End (Unit {0}) → List ℕ → Type 0
  EndsRight (answers pending) left = Unit
  EndsRight (answers (ready (err e))) left = Unit
  EndsRight (answers (ready (ok done))) left = left ≡ []
  EndsRight panics left =
      (w : W) × (buf : List ℕ) × (0 < length buf) × ((wr.poll_write w buf).0 ≡ ready (ok 0))

  abbrev pub WritesAll : W → List ℕ → Option (End (Unit {0}) × W × List ℕ) → Type 0
  WritesAll w buf o =
      (e : End (Unit {0}) × W × List ℕ) × (o ≡ some e)
      × (written e.1 ++ e.2 ≡ written w ++ buf)
      × EndsRight e.0 e.2

  pass-WritesAll :
      (rest : W → List ℕ → Option (End (Unit {0}) × W × List ℕ)) (w w' : W) (buf : List ℕ)
      (p : Poll ℕ)
      → 0 < length buf
      → ((n : ℕ) → 0 < n → n ≤ length buf → WritesAll w' (drop n buf) (rest w' (drop n buf)))
      → (wr.poll_write w buf).0 ≡ p
      → written w' ≡ written w ++ accepted p buf
      → WritesAll w buf (write_all_pass wr rest p w' buf)
  pass-WritesAll rest w w' buf pending some_left ih e g =
      ((answers pending, w', buf), refl, ap (λ xs. xs ++ buf) (g ∙ append-nil (written w)), tt)
  pass-WritesAll rest w w' buf (ready (err x)) some_left ih e g = (
    (answers (ready (err x)), w', buf),
    refl,
    ap (λ xs. xs ++ buf) (g ∙ append-nil (written w)),
    tt,
  )
  pass-WritesAll rest w w' buf (ready (ok n)) some_left ih e g =
      let h = few w buf n e in
      let no_panic : ltb (length buf) n ≡ false = ground arith in
      let whole : written w' ++ drop n buf ≡ written w ++ buf =
        ap (λ xs. xs ++ drop n buf) g
        ∙ append_assoc (written w) (take n buf) (drop n buf)
        ∙ ap (λ xs. written w ++ xs) (take-append-drop n buf) in
      elim (Bool-cases (n == 0)) [
        | inl nothing ↦
            let zero_taken : n ≡ 0 = ground arith in
            (
              (panics, w', drop n buf),
              rw (no_panic, nothing) refl,
              whole,
              (w, buf, some_left, e ∙ ap (λ k. ready (ok k)) zero_taken),
            )
        | inr taken ↦
            let o = ih n (ground arith) h in (o.0, rw (no_panic, taken) o.1, o.2 ∙ whole, o.3)
      ]

  -- With fuel above the number of bytes, a poll of `WriteAll` over any lawful writer ends; what was
  -- written, followed by the bytes that the poll keeps for the next one, is what was written before
  -- it and its bytes; if it succeeds it keeps none, and if it panics, then the writer accepted none
  -- of some bytes.
  pub write_all-WritesAll :
      (fuel : ℕ) (w : W) (buf : List ℕ)
      → length buf < fuel
      → WritesAll w buf (write_all wr fuel w buf)
  unfolding write_all
  write_all-WritesAll zero w buf h = absurd (omega arith)
  write_all-WritesAll (suc fuel) w buf h = elim (Bool-cases (length buf == 0)) [
    | inl nothing ↦
        rw nothing
          ((answers (ready (ok tt)), w, buf), refl, refl, length-eq-zero buf (ground arith))
    | inr some_left ↦
        let q = wr.poll_write w buf in
        rw some_left (
          pass-WritesAll (write_all wr fuel) w q.1 buf q.0 (ground arith)
            (λ n pos le.
              let shorter = length-drop {0} n buf in
              write_all-WritesAll fuel q.1 (drop n buf) (omega arith))
            refl (grows w buf))
  ]
