-- ===== src/Io/Writers.antt =====
-- The futures of embassy/src/io/util/ that write: write.rs, write_all.rs, write_byte.rs, copy_buf.rs.
use embassy.Base.{
  ℕ, zero, suc, ◌+◌, ◌≤◌, ◌≡◌, Option, none, some, List, [], ◌∷◌, ◌++◌, ltb, ◌==◌, if◌then◌else◌,
  length, drop,
}
use embassy.Time.{Profile, to_u32}
use embassy.Io.{ok, err, Poll, pending, ready, accepted, AsyncBufRead}
use embassy.Io.ErrorKinds

-- `AsyncWrite` of io/traits.rs.
pub record AsyncWrite (W : Type 0) : Type 0 where
  pub poll_write : W → List ℕ → Poll ℕ × W

-- What a caller relies on: what was written grows by the bytes that an answer accepts, and no more
-- are accepted than there are.
pub record WriteContract {W : Type 0} (wr : AsyncWrite W) : Type 0 where
  pub written : W → List ℕ
  pub grows :
      (w : W) (buf : List ℕ)
      → written (wr.poll_write w buf).1 ≡ written w ++ accepted (wr.poll_write w buf).0 buf
  pub few : (w : W) (buf : List ℕ) (n : ℕ) → (wr.poll_write w buf).0 ≡ ready (ok n) → n ≤ length buf

-- How a poll ends.
pub data End (A : Type 0) : Type 0 where
  answers : Poll A → End A
  panics : End A

module _ {W : Type 0} (wr : AsyncWrite W) where
  -- `Write::poll`.
  unfoldable pub write : W → List ℕ → Poll ℕ × W
  write w buf = wr.poll_write w buf

  -- `WriteByte::poll` asserts that the one byte was written.
  abbrev pub byte_end : Poll ℕ → End (Unit {0})
  byte_end pending = answers pending
  byte_end (ready (err e)) = answers (ready (err e))
  byte_end (ready (ok n)) = if n == 1 then answers (ready (ok tt)) else panics

  unfoldable pub write_byte : W → ℕ → End (Unit {0}) × W
  write_byte w byte = let (p, w') = wr.poll_write w (byte ∷ []) in (byte_end p, w')

  -- The body of the loop of `WriteAll::poll`; `split_at` panics past the end.
  abbrev pub write_all_pass :
      (W → List ℕ → Option (End (Unit {0}) × W × List ℕ))
      → Poll ℕ
      → W
      → List ℕ
      → Option (End (Unit {0}) × W × List ℕ)
  write_all_pass rest pending w buf = some (answers pending, w, buf)
  write_all_pass rest (ready (err e)) w buf = some (answers (ready (err e)), w, buf)
  write_all_pass rest (ready (ok n)) w buf =
      let after = rest w (drop n buf) in
      if ltb (length buf) n
      then some (panics, w, [])
      else if n == 0
      then some (panics, w, drop n buf)
      else after

  -- The poll, and the bytes that it keeps for the next one; `none` is out of fuel.
  unfoldable pub write_all : ℕ → W → List ℕ → Option (End (Unit {0}) × W × List ℕ)
  write_all zero w buf = none
  write_all (suc fuel) w buf =
      let (p, w') = wr.poll_write w buf in
      let pass = write_all_pass (write_all fuel) p w' buf in
      if length buf == 0 then some (answers (ready (ok tt)), w, buf) else pass

module _ {R W : Type 0} (rd : AsyncBufRead R) (wr : AsyncWrite W) (profile : Profile) where
  -- The body of the loop of `CopyBuf::poll`, after the write and before it; `usize` has 32 bits.
  abbrev pub copy_written :
      (R → W → ℕ → Option (End ℕ × R × W × ℕ)) → Poll ℕ → R → W → ℕ → Option (End ℕ × R × W × ℕ)
  copy_written rest pending r w amt = some (answers pending, r, w, amt)
  copy_written rest (ready (err e)) r w amt = some (answers (ready (err e)), r, w, amt)
  copy_written rest (ready (ok i)) r w amt =
      let after = elim (to_u32 profile (amt + i)) as (λ x. Option (End ℕ × R × W × ℕ)) [
        | none ↦ some (panics, r, w, amt)
        | some sum ↦ rest (rd.consume r i) w sum
      ] in
      if i == 0 then some (answers (ready (err ErrorKinds.write_zero)), r, w, amt) else after

  abbrev pub copy_pass :
      (R → W → ℕ → Option (End ℕ × R × W × ℕ))
      → Poll (List ℕ)
      → R
      → W
      → ℕ
      → Option (End ℕ × R × W × ℕ)
  copy_pass rest pending r w amt = some (answers pending, r, w, amt)
  copy_pass rest (ready (err e)) r w amt = some (answers (ready (err e)), r, w, amt)
  copy_pass rest (ready (ok buf)) r w amt =
      let (p, w') = wr.poll_write w buf in
      let after = copy_written rest p r w' amt in
      if length buf == 0 then some (answers (ready (ok amt)), r, w, amt) else after

  unfoldable pub copy_buf : ℕ → R → W → ℕ → Option (End ℕ × R × W × ℕ)
  copy_buf zero r w amt = none
  copy_buf (suc fuel) r w amt =
      let (p, r') = rd.poll_fill_buf r in copy_pass (copy_buf fuel) p r' w amt
