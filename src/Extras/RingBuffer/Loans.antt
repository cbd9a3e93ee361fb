-- ===== src/Extras/RingBuffer/Loans.antt =====
-- What is lent of a ring stays in place while the other end of the ring is used.
use embassy.Base.{
  ℕ, ◌+◌, ◌-◌, ◌≤◌, ◌<◌, ◌≡◌, refl, sym, ap, ◌∙◌, subst, inl, inr, some, List, [], arith, leb, ◌==◌,
  if◌then◌else◌, Bool-cases, length, take, drop, take-take, drop-drop, drop-take, length-overwrite,
}
use embassy.Base.Options.{some-injective}
use embassy.Extras.RingBuffer.Bounds.{
  IsValid, push_buf_in, fill-IsValid, pushed, popped, push-eq-pushed, pop-eq-popped,
}
use embassy.Extras.RingBuffer.Queue.{contents, length-contents}
use embassy.Extras.RingBuffer.Queue.Pop.{pop_buf_front}
use embassy.Extras.RingBuffer.Queue.Push.{room-fill}
use embassy.Extras.RingBuffer.{
  RingBuffer, no_bytes, new, push_buf, push, pop_buf, pop, fill, bytes_of,
}

-- Part of a lent run of data, read from the storage.
pub lent_bytes :
    {r : RingBuffer} (i k : ℕ)
    → IsValid r
    → i + k ≤ (pop_buf r).len
    → take k (drop ((pop_buf r).from + i) r.buf) ≡ take k (drop i (contents r))
unfolding bytes_of
lent_bytes {r} i k v h =
    let len = (pop_buf r).len in
    let c = contents r in
    let stored = drop (pop_buf r).from r.buf in
    let part = λ (xs : List ℕ). ap (drop i) (take-take (i + k) len xs h) ∙ drop-take i k xs in
    ap (take k) (sym (drop-drop i (pop_buf r).from r.buf))
    ∙ sym (part stored)
    ∙ ap (λ xs. drop i (take (i + k) xs)) (pop_buf_front v).0
    ∙ part c

pushed_keeps_lent :
    {r : RingBuffer} (n : ℕ)
    → IsValid r
    → n ≤ (push_buf r).len
    → 0 < (pop_buf r).len
    → ((pop_buf (pushed r n)).from ≡ (pop_buf r).from)
      × ((pop_buf r).len ≤ (pop_buf (pushed r n)).len)
unfolding push_buf pop_buf
pushed_keeps_lent {r} n v h lent = (ground arith, ground arith)

popped_keeps_room :
    {r : RingBuffer} (n : ℕ)
    → IsValid r
    → n ≤ (pop_buf r).len
    → 0 < (push_buf r).len
    → ((push_buf (popped r n)).from ≡ (push_buf r).from)
      × ((push_buf r).len ≤ (push_buf (popped r n)).len)
unfolding push_buf pop_buf
popped_keeps_room {r} n v h lent = (ground arith, ground arith)

length-pushed : (r : RingBuffer) (n : ℕ) → length (pushed r n).buf ≡ length r.buf
length-pushed r n = elim (Bool-cases (n == 0)) [ inl e ↦ rw e refl | inr e ↦ rw e refl ]

length-popped : (r : RingBuffer) (n : ℕ) → length (popped r n).buf ≡ length r.buf
length-popped r n = elim (Bool-cases (n == 0)) [ inl e ↦ rw e refl | inr e ↦ rw e refl ]

length-fill :
    {r : RingBuffer} (bs : List ℕ)
    → IsValid r
    → length bs ≤ (push_buf r).len
    → length (fill r bs).buf ≡ length r.buf
unfolding fill
length-fill {r} bs v h = length-overwrite r.buf (push_buf r).from bs (omega (arith, push_buf_in v))

pop_buf-fill :
    {r : RingBuffer} (bs : List ℕ)
    → IsValid r
    → length bs ≤ (push_buf r).len
    → pop_buf (fill r bs) ≡ pop_buf r
unfolding fill pop_buf
pop_buf-fill {r} bs v h =
    let e = length-fill bs v h in
    ap
      (λ n. if r.empty then no_bytes else record {
        from = r.start;
        len = if leb r.end r.start then n - r.start else r.end - r.start;
      })
      e

-- Bytes that are written behind the data leave the run that was lent of it where it is.
pub push_keeps_lent :
    {r r' : RingBuffer} (bs : List ℕ)
    → IsValid r
    → length bs ≤ (push_buf r).len
    → push (fill r bs) (length bs) ≡ some r'
    → 0 < (pop_buf r).len
    → ((pop_buf r').from ≡ (pop_buf r).from) × ((pop_buf r).len ≤ (pop_buf r').len)
push_keeps_lent {r} {r'} bs v h e lent =
    let v' = fill-IsValid bs v h in
    let h' : length bs ≤ (push_buf (fill r bs)).len = omega (arith, room-fill bs v h) in
    let same = pop_buf-fill bs v h in
    let kept = pushed_keeps_lent (length bs) v' h' (subst (λ b. 0 < b.len) (sym same) lent) in
    let eq = some-injective (sym e ∙ push-eq-pushed (length bs) v' h') in
    (
      ap (λ b. (pop_buf b).from) eq ∙ kept.0 ∙ ap (λ b. b.from) same,
      subst (λ b. (pop_buf r).len ≤ (pop_buf b).len) (sym eq)
          (subst (λ b. b.len ≤ (pop_buf (pushed (fill r bs) (length bs))).len) same kept.1),
    )

pub length-push :
    {r r' : RingBuffer} (bs : List ℕ)
    → IsValid r
    → length bs ≤ (push_buf r).len
    → push (fill r bs) (length bs) ≡ some r'
    → length r'.buf ≡ length r.buf
length-push {r} bs v h e =
    let v' = fill-IsValid bs v h in
    let h' : length bs ≤ (push_buf (fill r bs)).len = omega (arith, room-fill bs v h) in
    ap (λ b. length b.buf) (some-injective (sym e ∙ push-eq-pushed (length bs) v' h'))
    ∙ length-pushed (fill r bs) (length bs)
    ∙ length-fill bs v h

pub length-pop :
    {r r' : RingBuffer} (n : ℕ)
    → IsValid r
    → n ≤ (pop_buf r).len
    → pop r n ≡ some r'
    → length r'.buf ≡ length r.buf
length-pop {r} n v h e =
    ap (λ b. length b.buf) (some-injective (sym e ∙ pop-eq-popped n v h)) ∙ length-popped r n

-- Data that is popped leaves the run that was lent to be filled where it is.
pub pop_keeps_room :
    {r r' : RingBuffer} (n : ℕ)
    → IsValid r
    → n ≤ (pop_buf r).len
    → pop r n ≡ some r'
    → 0 < (push_buf r).len
    → ((push_buf r').from ≡ (push_buf r).from) × ((push_buf r).len ≤ (push_buf r').len)
pop_keeps_room {r} n v h e lent =
    let kept = popped_keeps_room n v h lent in
    let eq = some-injective (sym e ∙ pop-eq-popped n v h) in
    (
      ap (λ b. (push_buf b).from) eq ∙ kept.0,
      subst (λ b. (push_buf r).len ≤ (push_buf b).len) (sym eq) kept.1,
    )

pub length-lent : {r : RingBuffer} → IsValid r → (pop_buf r).len ≤ length (contents r)
unfolding pop_buf
length-lent {r} v = ground (arith, length-contents v)

-- A new ring holds nothing, in all of its storage.
pub contents-new : (buf : List ℕ) → contents (new buf) ≡ []
unfolding contents new
contents-new buf = refl

pub length-new : (buf : List ℕ) → length (new buf).buf ≡ length buf
unfolding new
length-new buf = refl
