-- ===== src/Extras/RingBuffer/Landing.antt =====
-- Bytes that land in the run that was lent to be filled, part by part, before they are pushed.
use embassy.Base.{
  ℕ, ◌+◌, ◌-◌, ◌^◌, ◌≤◌, ◌<◌, ◌≡◌, refl, sym, ap, ap₂, ◌∙◌, subst, ◌⊎◌, inl, inr, Bool, true, false,
  not, ◌&&◌, some, List, ◌++◌, arith, ltb, leb, ◌==◌, if◌then◌else◌, Bool-cases, length, take, drop,
  take-append-drop, length-take, length-drop, drop-append, take-take, drop-drop, drop-take,
  overwrite, length-overwrite, take-overwrite, take-overwrite_end, drop-overwrite,
}
use embassy.Base.Options.{some-injective}
use embassy.Extras.RingBuffer.Bounds.{IsValid, push_buf_in, popped, pop-eq-popped}
use embassy.Extras.RingBuffer.Queue.{held, contents}
use embassy.Extras.RingBuffer.Queue.Push.{push_from, push_appends}
use embassy.Extras.RingBuffer.{RingBuffer, no_bytes, push_buf, push, pop_buf, pop, fill}

-- Bytes that are written at an offset in that run.
abbrev pub land : RingBuffer → ℕ → List ℕ → RingBuffer
land r a bs = record r { buf = overwrite r.buf ((push_buf r).from + a) bs }

-- The bytes of the run up to an offset.
abbrev pub landed : RingBuffer → ℕ → List ℕ
landed r a = take a (drop (push_buf r).from r.buf)

held_same :
    (xs ys : List ℕ) (s e : ℕ) (empty : Bool)
    → take e ys ≡ take e xs
    → (ltb s e ≡ false → empty ≡ false → drop s ys ≡ drop s xs)
    → held ys s e empty ≡ held xs s e empty
held_same xs ys s e true te ds = refl
held_same xs ys s e false te ds = elim (Bool-cases (ltb s e)) [
  | inl linear ↦ rw linear (ap (drop s) te)
  | inr wrapped ↦ rw wrapped (ap₂ ◌++◌ (ds wrapped refl) te)
]

room_after :
    (r : RingBuffer)
    → IsValid r
    → 0 < (push_buf r).len
    → ltb r.start r.end ≡ false
    → r.empty ≡ false
    → r.end + (push_buf r).len ≤ r.start
unfolding push_buf
room_after r v h wrapped full = ground arith

pub contents-land :
    (r : RingBuffer) (a : ℕ) (bs : List ℕ)
    → IsValid r
    → 0 < (push_buf r).len
    → a + length bs ≤ (push_buf r).len
    → contents (land r a bs) ≡ contents r
unfolding contents
contents-land r a bs v pos h =
    let i = (push_buf r).from + a in
    let from = push_from r pos in
    let inside = push_buf_in v in
    let room : i + length bs ≤ length r.buf = omega arith in
    let ys = overwrite r.buf i bs in
    held_same r.buf ys r.start r.end r.empty
      (sym (take-take r.end i ys (omega arith))
        ∙ ap (take r.end) (take-overwrite r.buf i bs room)
        ∙ take-take r.end i r.buf (omega arith))
      (λ wrapped full.
        let after = room_after r v pos wrapped full in
        drop-overwrite r.buf i bs room r.start (omega arith))

pub landed-land :
    (r : RingBuffer) (a : ℕ) (bs : List ℕ)
    → IsValid r
    → a + length bs ≤ (push_buf r).len
    → take (a + length bs) (drop (push_buf r).from (land r a bs).buf) ≡ landed r a ++ bs
landed-land r a bs v h =
    let f = (push_buf r).from in
    let inside = push_buf_in v in
    let room : f + a + length bs ≤ length r.buf = omega arith in
    let ys = overwrite r.buf (f + a) bs in
    let e : f + (a + length bs) ≡ f + a + length bs = omega arith in
    let short = length-take {0} (f + a) r.buf in
    sym (drop-take f (a + length bs) ys)
    ∙ ap (λ k. drop f (take k ys)) e
    ∙ ap (drop f) (take-overwrite_end r.buf (f + a) bs room)
    ∙ drop-append f (take (f + a) r.buf) bs (omega arith)
    ∙ ap (λ xs. xs ++ bs) (drop-take f a r.buf)

-- What lies in the run already is filled in by nothing.
fill-landed : (r : RingBuffer) (n : ℕ) → IsValid r → n ≤ (push_buf r).len → fill r (landed r n) ≡ r
unfolding fill
fill-landed r n v h =
    let f = (push_buf r).from in
    let xs = r.buf in
    let inside = push_buf_in v in
    let count : length (landed r n) ≡ n =
      omega (arith, length-take {0} n (drop f xs), length-drop {0} f xs) in
    ap (λ b. record r { buf = b })
      (ap (λ k. take f xs ++ (take n (drop f xs) ++ drop (f + k) xs)) count
        ∙ ap (λ ys. take f xs ++ (take n (drop f xs) ++ ys)) (sym (drop-drop n f xs))
        ∙ ap (λ ys. take f xs ++ ys) (take-append-drop n (drop f xs))
        ∙ take-append-drop f xs)

-- Pushing what has landed does not panic and appends it.
pub push-landed :
    {r : RingBuffer} (n : ℕ)
    → IsValid r
    → n ≤ (push_buf r).len
    → (r' : RingBuffer) × (push r n ≡ some r')
      × IsValid r'
      × (contents r' ≡ contents r ++ landed r n)
push-landed {r} n v h =
    let f = (push_buf r).from in
    let inside = push_buf_in v in
    let count : length (landed r n) ≡ n =
      omega (arith, length-take {0} n (drop f r.buf), length-drop {0} f r.buf) in
    let o = push_appends (landed r n) v (omega arith) in
    (o.0, sym (ap₂ push (fill-landed r n v h) count) ∙ o.1, o.2, o.3)

pub pop_keeps_bytes :
    {r r' : RingBuffer} (n : ℕ)
    → IsValid r
    → n ≤ (pop_buf r).len
    → pop r n ≡ some r'
    → r'.buf ≡ r.buf
pop_keeps_bytes {r} n v h e = ap (λ b. b.buf) (some-injective (sym e ∙ pop-eq-popped n v h)) ∙ same
  where
    same : (popped r n).buf ≡ r.buf
    same = elim (Bool-cases (n == 0)) [ inl z ↦ rw z refl | inr z ↦ rw z refl ]

pub land-IsValid :
    (r : RingBuffer) (a : ℕ) (bs : List ℕ)
    → IsValid r
    → a + length bs ≤ (push_buf r).len
    → IsValid (land r a bs)
land-IsValid r a bs v h =
    let inside = push_buf_in v in
    let e = length-overwrite r.buf ((push_buf r).from + a) bs (omega arith) in
    record {
      small = subst (λ n. n < 2 ^ 31) (sym e) v.small;
      start_in = subst (λ n. (r.start < n) ⊎ (r.start ≡ 0)) (sym e) v.start_in;
      end_in = subst (λ n. (r.end < n) ⊎ (r.end ≡ 0)) (sym e) v.end_in;
      empty_eq = v.empty_eq;
    }

pub push_buf-land :
    (r : RingBuffer) (a : ℕ) (bs : List ℕ)
    → IsValid r
    → a + length bs ≤ (push_buf r).len
    → push_buf (land r a bs) ≡ push_buf r
unfolding push_buf
push_buf-land r a bs v h =
    let inside = push_buf_in v in
    let e = length-overwrite r.buf ((push_buf r).from + a) bs (omega arith) in
    ap
      (λ n. if r.start == r.end && not r.empty then no_bytes else record {
        from = r.end;
        len = if leb r.start r.end then n - r.end else r.start - r.end;
      })
      e
