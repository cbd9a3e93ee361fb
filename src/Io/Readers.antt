-- ===== src/Io/Readers.antt =====
-- embassy/src/io/util/: read_while.rs, skip_while.rs, read_to_end.rs, read_byte.rs, read.rs,
-- read_buf.rs and drain.rs. A caller's buffer is its length and the bytes that it was filled with.
use mathlib.Core.Option
use embassy.Base.{
  ℕ, zero, suc, ◌+◌, ◌-◌, min, Bool, not, Option, none, some, List, [], ◌∷◌, ◌++◌, ◌==◌,
  if◌then◌else◌, length, take,
}
use embassy.Io.{ok, err, Poll, pending, ready, AsyncBufRead}
use embassy.Io.ErrorKinds.{Error}
use embassy.Io.Loop.{Step, stop, take_on, take_last, poll_loop}

-- `Iterator::position`.
abbrev pub position : (ℕ → Bool) → List ℕ → Option ℕ
position p [] = none
position p (b ∷ bs) = if p b then some 0 else Option.map (λ n. suc n) (position p bs)

pub record Buffer : Type 0 where
  pub room : ℕ
  pub got : List ℕ

-- `buf[n..n + p].copy_from_slice(&rbuf[..p])` with what fits of the first `p` bytes.
abbrev pub copy_fitting : Buffer → ℕ → List ℕ → Buffer
copy_fitting b p rbuf = record b { got = b.got ++ take (min p (b.room - length b.got)) rbuf }

-- A pass of `ReadWhile::poll`.
unfoldable pub read_while_pass : (ℕ → Bool) → Buffer → List ℕ → Step Buffer ℕ
read_while_pass f b [] = stop (err Error.unexpected_eof)
read_while_pass f b (r ∷ rs) = elim (position (λ x. not (f x)) (r ∷ rs)) [
  | some p ↦ let b' = copy_fitting b p (r ∷ rs) in take_last p b' (ok (length b'.got))
  | none ↦ let p = length (r ∷ rs) in take_on p (copy_fitting b p (r ∷ rs))
]

-- A pass of `SkipWhile::poll`.
unfoldable pub skip_while_pass : (ℕ → Bool) → Unit {0} → List ℕ → Step (Unit {0}) (Unit {0})
skip_while_pass f u [] = stop (err Error.unexpected_eof)
skip_while_pass f u (r ∷ rs) = elim (position (λ x. not (f x)) (r ∷ rs)) [
  | some p ↦ take_last p tt (ok tt)
  | none ↦ take_on (length (r ∷ rs)) tt
]

-- A pass of `ReadToEnd::poll`.
unfoldable pub read_to_end_pass : Buffer → List ℕ → Step Buffer ℕ
read_to_end_pass b [] = stop (ok (length b.got))
read_to_end_pass b (r ∷ rs) =
    let p = min (length (r ∷ rs)) (b.room - length b.got) in
    if length b.got == b.room
    then stop (err Error.truncated)
    else take_on p (copy_fitting b (length (r ∷ rs)) (r ∷ rs))

-- `ReadByte::poll`, which does not loop.
unfoldable pub read_byte_pass : Unit {0} → List ℕ → Step (Unit {0}) ℕ
read_byte_pass u [] = stop (err Error.unexpected_eof)
read_byte_pass u (r ∷ rs) = take_last 1 tt (ok r)

-- `Read::poll`, which does not loop: it takes what fits.
unfoldable pub read_pass : Buffer → List ℕ → Step Buffer ℕ
read_pass b rbuf =
    let n = min b.room (length rbuf) in take_last n (record b { got = take n rbuf }) (ok n)

module _ {R : Type 0} (rd : AsyncBufRead R) where
  unfoldable pub read_while : ℕ → (ℕ → Bool) → R → Buffer → Option (Poll ℕ × R × Buffer)
  unfolding poll_loop read_while_pass
  read_while fuel f r b = poll_loop rd (read_while_pass f) fuel r b

  unfoldable pub skip_while : ℕ → (ℕ → Bool) → R → Option (Poll (Unit {0}) × R × Unit {0})
  unfolding poll_loop skip_while_pass
  skip_while fuel f r = poll_loop rd (skip_while_pass f) fuel r tt

  unfoldable pub read_to_end : ℕ → R → Buffer → Option (Poll ℕ × R × Buffer)
  unfolding poll_loop read_to_end_pass
  read_to_end fuel r b = poll_loop rd read_to_end_pass fuel r b

  unfoldable pub read_byte : R → Option (Poll ℕ × R × Unit {0})
  unfolding poll_loop read_byte_pass
  read_byte r = poll_loop rd read_byte_pass 1 r tt

  unfoldable pub read : R → Buffer → Option (Poll ℕ × R × Buffer)
  unfolding poll_loop read_pass
  read r b = poll_loop rd read_pass 1 r b

  -- `ReadBuf::poll`: the buffer itself is handed out.
  unfoldable pub read_buf : R → Poll (List ℕ) × R
  read_buf r = rd.poll_fill_buf r

  -- A pass of `Drain::poll`: a poll that is not ready ends it. `rest` is the loop after it.
  abbrev pub drain_pass :
      (R → ℕ → Option (Poll ℕ × R)) → Poll (List ℕ) → R → ℕ → Option (Poll ℕ × R)
  drain_pass rest pending r n = some (ready (ok n), r)
  drain_pass rest (ready (err e)) r n = some (ready (err e), r)
  drain_pass rest (ready (ok buf)) r n = rest (rd.consume r (length buf)) (n + length buf)

  -- The loop of `Drain::poll`; `none` is out of fuel.
  unfoldable pub drain_from : ℕ → R → ℕ → Option (Poll ℕ × R)
  drain_from zero r n = none
  drain_from (suc fuel) r n =
      let (p, r') = rd.poll_fill_buf r in drain_pass (drain_from fuel) p r' n

  unfoldable pub drain : ℕ → R → Option (Poll ℕ × R)
  unfolding drain_from
  drain fuel r = drain_from fuel r 0
