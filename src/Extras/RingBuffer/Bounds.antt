-- ===== src/Extras/RingBuffer/Bounds.antt =====
-- The representation invariant of the ring, and that every operation keeps it.
use embassy.Base.{
  ℕ, ◌+◌, ◌^◌, ◌≤◌, ◌<◌, ◌≡◌, refl, ◌⊎◌, inr, true, false, some, List, arith, ◌==◌, if◌then◌else◌,
  length, length-overwrite,
}
use embassy.Extras.RingBuffer.{RingBuffer, new, push_buf, push, pop_buf, pop, clear, fill}

-- The indices stand inside the storage (both are 0 if it has no bytes), an empty ring has equal
-- indices, and the length is that of a slice in memory.
pub record IsValid (r : RingBuffer) : Type 0 where
  pub small : length r.buf < 2 ^ 31
  pub start_in : (r.start < length r.buf) ⊎ (r.start ≡ 0)
  pub end_in : (r.end < length r.buf) ⊎ (r.end ≡ 0)
  pub empty_eq : r.empty ≡ true → r.start ≡ r.end

pub new-IsValid : (buf : List ℕ) → length buf < 2 ^ 31 → IsValid (new buf)
unfolding new
new-IsValid buf h = record {
  small = h;
  start_in = inr refl;
  end_in = inr refl;
  empty_eq = λ _. refl;
}

pub clear-IsValid : {r : RingBuffer} → IsValid r → IsValid (clear r)
unfolding clear
clear-IsValid v = record {
  small = v.small;
  start_in = inr refl;
  end_in = inr refl;
  empty_eq = λ _. refl;
}

-- The free slice lies in the storage.
pub push_buf_in : {r : RingBuffer} → IsValid r → (push_buf r).from + (push_buf r).len ≤ length r.buf
unfolding push_buf
push_buf_in v = ground arith

-- So does the slice of data.
pub pop_buf_in : {r : RingBuffer} → IsValid r → (pop_buf r).from + (pop_buf r).len ≤ length r.buf
unfolding pop_buf
pop_buf_in v = ground arith

pub fill-IsValid :
    {r : RingBuffer} (bytes : List ℕ)
    → IsValid r
    → length bytes ≤ (push_buf r).len
    → IsValid (fill r bytes)
unfolding fill
fill-IsValid {r} bytes v h =
    let e = length-overwrite r.buf (push_buf r).from bytes (omega (arith, push_buf_in v)) in
    record {
      small = omega (arith, e, v.small);
      start_in = ground (arith, e, v.start_in);
      end_in = ground (arith, e, v.end_in);
      empty_eq = v.empty_eq;
    }

-- An index that reaches the end of the storage goes back to its start.
abbrev advance : RingBuffer → ℕ → ℕ
advance r k = if k == length r.buf then 0 else k

abbrev pub pushed : RingBuffer → ℕ → RingBuffer
pushed r n = if n == 0 then r else record r { end = advance r (r.end + n); empty = false }

abbrev pub popped : RingBuffer → ℕ → RingBuffer
popped r n =
    if n == 0
    then r
    else record r { start = advance r (r.start + n); empty = advance r (r.start + n) == r.end }

-- `push` of no more than was lent does not panic; the sum does not wrap.
pub push-eq-pushed :
    {r : RingBuffer} (n : ℕ) → IsValid r → n ≤ (push_buf r).len → push r n ≡ some (pushed r n)
unfolding push push_buf
push-eq-pushed {r} n v h = ground arith

pub pop-eq-popped :
    {r : RingBuffer} (n : ℕ) → IsValid r → n ≤ (pop_buf r).len → pop r n ≡ some (popped r n)
unfolding pop pop_buf
pop-eq-popped {r} n v h = ground arith

pub pushed-IsValid :
    {r : RingBuffer} (n : ℕ) → IsValid r → n ≤ (push_buf r).len → IsValid (pushed r n)
unfolding push_buf
pushed-IsValid {r} n v h = ground arith

pub popped-IsValid :
    {r : RingBuffer} (n : ℕ) → IsValid r → n ≤ (pop_buf r).len → IsValid (popped r n)
unfolding pop_buf
popped-IsValid {r} n v h = ground arith
