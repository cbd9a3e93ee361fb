-- ===== src/Io.antt =====
-- embassy/src/io/: buffered asynchronous reading. A poll is `pending`, or `ready` with a value or an
-- error. A reader is any type with `poll_fill_buf` and `consume`; what a caller may rely on is stated
-- over the `script` of what the reader has yet to show.
pub mod ErrorKinds
pub mod Bytes
pub mod ReadExact
pub mod Loop
pub mod Readers
pub mod ReadWhile
pub mod ReadToEnd
pub mod Drain
pub mod Writers
pub mod WriteAll
pub mod Copy
mod Tests
use embassy.Base.{ℕ, ◌≡◌, refl, List, [], ◌∷◌, take, drop}
use embassy.Io.ErrorKinds.{Error}

pub data Result {ℓ} (A : Type ℓ) : Type ℓ where
  ok : A → Result A
  err : Error → Result A

pub data Poll {ℓ} (A : Type ℓ) : Type ℓ where
  pending : Poll A
  ready : Result A → Poll A

-- The bytes that an answer to `poll_write` accepts.
abbrev pub accepted : Poll ℕ → List ℕ → List ℕ
accepted pending buf = []
accepted (ready (err e)) buf = []
accepted (ready (ok n)) buf = take n buf

-- `AsyncBufRead` of io/traits.rs.
pub record AsyncBufRead (R : Type 0) : Type 0 where
  pub poll_fill_buf : R → Poll (List ℕ) × R
  pub consume : R → ℕ → R

-- What a reader has yet to show: a buffer that is not empty, a poll that is not ready, a poll that
-- fails; after the last there is the end of the stream.
pub data Chunk : Type 0 where
  run : ℕ → List ℕ → Chunk
  wait : Chunk
  fail : Error → Chunk

abbrev pub shown : List Chunk → Poll (List ℕ)
shown [] = ready (ok [])
shown (run b bs ∷ s) = ready (ok (b ∷ bs))
shown (wait ∷ s) = pending
shown (fail e ∷ s) = ready (err e)

abbrev pub after_shown : List Chunk → List Chunk
after_shown [] = []
after_shown (run b bs ∷ s) = run b bs ∷ s
after_shown (wait ∷ s) = s
after_shown (fail e ∷ s) = s

abbrev pub with_run : List ℕ → List Chunk → List Chunk
with_run [] s = s
with_run (b ∷ bs) s = run b bs ∷ s

abbrev pub after_consumed : List Chunk → ℕ → List Chunk
after_consumed [] n = []
after_consumed (run b bs ∷ s) n = with_run (drop n (b ∷ bs)) s
after_consumed (wait ∷ s) n = wait ∷ s
after_consumed (fail e ∷ s) n = fail e ∷ s

-- The contract of io/traits.rs: filling shows the next chunk and takes away only what is no buffer;
-- consuming takes the front off the buffer that is shown.
pub record Contract {R : Type 0} (reader : AsyncBufRead R) : Type 0 where
  pub script : R → List Chunk
  pub fill_shows : (r : R) → (reader.poll_fill_buf r).0 ≡ shown (script r)
  pub fill_keeps : (r : R) → script (reader.poll_fill_buf r).1 ≡ after_shown (script r)
  pub consume_drops : (r : R) (n : ℕ) → script (reader.consume r n) ≡ after_consumed (script r) n

-- A reader that is its own script.
abbrev pub scripted : AsyncBufRead (List Chunk)
scripted = record { poll_fill_buf = λ s. (shown s, after_shown s); consume = after_consumed }

abbrev pub scripted-Contract : Contract scripted
scripted-Contract = record {
  script = λ s. s;
  fill_shows = λ s. refl;
  fill_keeps = λ s. refl;
  consume_drops = λ s n. refl;
}
