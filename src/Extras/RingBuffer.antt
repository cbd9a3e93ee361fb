-- ===== src/Extras/RingBuffer.antt =====
-- embassy-extras/src/ring_buffer.rs: a byte ring that lends out its free and its filled run.
-- A lent slice is the pair of its offset in `buf` and its length; a client writes through the free
-- one with `fill`. `usize` has 32 bits, as on the Cortex-M targets. `none` is a panic.
pub mod Bounds
pub mod Queue
pub mod Loans
pub mod Landing
mod Tests
use embassy.Base.{
  ℕ, ◌+◌, ◌-◌, ◌%◌, ◌^◌, Bool, true, false, not, ◌&&◌, Option, none, some, List, leb, ◌==◌,
  if◌then◌else◌, length, take, drop, overwrite,
}

pub record RingBuffer : Type 0 where
  pub buf : List ℕ
  pub start : ℕ
  pub end : ℕ
  pub empty : Bool

pub record Slice : Type 0 where
  pub from : ℕ
  pub len : ℕ

abbrev pub no_bytes : Slice
no_bytes = record { from = 0; len = 0 }

unfoldable pub new : List ℕ → RingBuffer
new buf = record { buf = buf; start = 0; end = 0; empty = true }

-- `&mut self.buf[self.end..self.end + n]`, the free run after the data.
unfoldable pub push_buf : RingBuffer → Slice
push_buf r = if r.start == r.end && not r.empty then no_bytes else record {
  from = r.end;
  len = if leb r.start r.end then length r.buf - r.end else r.start - r.end;
}

-- `wrap` asserts that its argument is at most the length.
unfoldable pub wrap : RingBuffer → ℕ → Option ℕ
wrap r n = if leb n (length r.buf) then (if n == length r.buf then some 0 else some n) else none

abbrev pub add_usize : ℕ → ℕ → ℕ
add_usize a b = (a + b) % 2 ^ 32

unfoldable pub push : RingBuffer → ℕ → Option RingBuffer
unfolding wrap
push r n = if n == 0 then some r else elim (wrap r (add_usize r.end n)) [
  | none ↦ none
  | some e ↦ some (record r { end = e; empty = false })
]

-- The first run of data.
unfoldable pub pop_buf : RingBuffer → Slice
pop_buf r = if r.empty then no_bytes else record {
  from = r.start;
  len = if leb r.end r.start then length r.buf - r.start else r.end - r.start;
}

unfoldable pub pop : RingBuffer → ℕ → Option RingBuffer
unfolding wrap
pop r n = if n == 0 then some r else elim (wrap r (add_usize r.start n)) [
  | none ↦ none
  | some s ↦ some (record r { start = s; empty = s == r.end })
]

pub clear : RingBuffer → RingBuffer
clear r = record r { start = 0; end = 0; empty = true }

-- What a client does with the slice that `push_buf` lends: it writes bytes from its front on.
unfoldable pub fill : RingBuffer → List ℕ → RingBuffer
unfolding push_buf
fill r bytes = record r { buf = overwrite r.buf (push_buf r).from bytes }

-- The bytes of a lent slice.
pub bytes_of : RingBuffer → Slice → List ℕ
bytes_of r s = take s.len (drop s.from r.buf)
