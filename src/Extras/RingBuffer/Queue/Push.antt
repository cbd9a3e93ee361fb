-- ===== src/Extras/RingBuffer/Queue/Push.antt =====
-- `push_buf`, a write and `push` append the bytes to the queue.
use embassy.Base.{
  ℕ, ◌+◌, ◌≤◌, ◌<◌, ◌≡◌, refl, sym, ap, ◌∙◌, ◌↔◌, inl, inr, Bool, true, false, some, List, [], ◌∷◌,
  ◌++◌, append-nil, append_assoc, arith, ltb, leb, ◌==◌, if◌then◌else◌, lt→ltb, Bool-cases, length,
  take, drop, take-append-drop, length-take, drop-append, take_all, overwrite, length-overwrite,
  take-overwrite_end, drop-overwrite,
}
use embassy.Extras.RingBuffer.{RingBuffer, push_buf, push, fill}
use embassy.Extras.RingBuffer.Bounds.{
  IsValid, push_buf_in, fill-IsValid, pushed, push-eq-pushed, pushed-IsValid,
}
use embassy.Extras.RingBuffer.Queue.{segment, held, contents, segment-nil, length-contents}

module _ (xs ys : List ℕ) (s e : ℕ) (h : e + length ys ≤ length xs) where
  -- A write just past one run extends it.
  segment-overwrite : s ≤ e → segment (overwrite xs e ys) s (e + length ys) ≡ segment xs s e ++ ys
  segment-overwrite le =
      ap (drop s) (take-overwrite_end xs e ys h)
      ∙ drop-append s (take e xs) ys (omega (arith, length-take {0} e xs))

  -- The same where the run reaches the end of the storage.
  drop-overwrite_end :
      s ≤ e → e + length ys ≡ length xs → drop s (overwrite xs e ys) ≡ segment xs s e ++ ys
  drop-overwrite_end le full =
      let e1 = ap (λ k. take k (overwrite xs e ys)) full in
      let e2 =
        take_all (length xs) (overwrite xs e ys) (omega (arith, length-overwrite xs e ys h)) in
      ap (drop s) (sym (e1 ∙ e2)) ∙ segment-overwrite le

  -- A write past the second of two runs extends that.
  wrapped-overwrite :
      e + length ys ≤ s
      → drop s (overwrite xs e ys) ++ take (e + length ys) (overwrite xs e ys)
        ≡ (drop s xs ++ take e xs) ++ ys
  wrapped-overwrite le =
      rw (drop-overwrite xs e ys h s le, take-overwrite_end xs e ys h, append_assoc)

not_lt_zero : (n : ℕ) → ltb n 0 ≡ false
not_lt_zero n = ground arith

-- Where the data does not go round the end, or there is none, it is one run.
held-linear :
    (xs : List ℕ) (s e : ℕ) (empty : Bool)
    → s ≤ e
    → (empty ≡ true → s ≡ e)
    → (empty ≡ false → s < e)
    → held xs s e empty ≡ segment xs s e
held-linear xs s e true le h k = sym (segment-nil xs e) ∙ ap (λ i. segment xs i e) (sym (h refl))
held-linear xs s e false le h k = let t = k refl in ground arith

module _ (xs ys : List ℕ) (s e : ℕ) (empty : Bool) (h : e + length ys ≤ length xs)
    (some_bytes : 0 < length ys) where
  abbrev after : List ℕ
  after =
      let e' = if e + length ys == length xs then 0 else e + length ys in
      held (overwrite xs e ys) s e' false

  held-push_linear :
      s ≤ e → (empty ≡ true → s ≡ e) → (empty ≡ false → s < e) → after ≡ held xs s e empty ++ ys
  held-push_linear le a b =
      rw (held-linear xs s e empty le a b) (elim (Bool-cases (e + length ys == length xs)) [
        | inl t ↦ rw t (
            rw (not_lt_zero s) (
              append-nil (drop s (overwrite xs e ys))
              ∙ drop-overwrite_end xs ys s e h le (ground arith)))
        | inr f ↦
            rw f (rw (lt→ltb s (e + length ys) (omega arith)) (segment-overwrite xs ys s e h le))
      ])

  held-push_wrapped :
      e + length ys ≤ s → s < length xs → empty ≡ false → after ≡ held xs s e empty ++ ys
  held-push_wrapped le s_in f =
      let t : (e + length ys == length xs) ≡ false = ground arith in
      let u : ltb s (e + length ys) ≡ false = ground arith in
      let w : ltb s e ≡ false = ground arith in
      rw (t, u, f) (rw w (wrapped-overwrite xs ys s e h le))

pub push_from : (r : RingBuffer) → 0 < (push_buf r).len → (push_buf r).from ≡ r.end
unfolding push_buf
push_from r h = ground arith

fill-eq :
    (r : RingBuffer) (bs : List ℕ)
    → 0 < (push_buf r).len
    → fill r bs ≡ record r { buf = overwrite r.buf r.end bs }
unfolding fill
fill-eq r bs h = rw (push_from r h)

room_linear :
    {r : RingBuffer}
    → IsValid r
    → leb r.start r.end ≡ true
    → r.end + (push_buf r).len ≤ length r.buf
unfolding push_buf
room_linear v t = ground arith

room_wrapped :
    {r : RingBuffer} → IsValid r → leb r.start r.end ≡ false → r.end + (push_buf r).len ≤ r.start
unfolding push_buf
room_wrapped v t = ground arith

not_full :
    (r : RingBuffer)
    → 0 < (push_buf r).len
    → leb r.start r.end ≡ true
    → r.empty ≡ false
    → r.start < r.end
unfolding push_buf
not_full r h t f = ground arith

-- Writing into the lent slice and pushing as much appends those bytes.
fill-pushed :
    {r : RingBuffer} (bs : List ℕ)
    → IsValid r
    → 0 < length bs
    → length bs ≤ (push_buf r).len
    → contents (pushed (fill r bs) (length bs)) ≡ contents r ++ bs
unfolding contents
fill-pushed {r} bs v pos h = elim (Bool-cases (leb r.start r.end)) [
  | inl t ↦
      let room : r.end + length bs ≤ length r.buf = omega (arith, room_linear v t) in
      rw (fill-eq r bs (omega arith), nonzero, length-overwrite r.buf r.end bs room)
        (held-push_linear r.buf bs r.start r.end r.empty room pos (ground arith) v.empty_eq
          (not_full r (omega arith) t))
  | inr f ↦
      let below : r.end + length bs ≤ r.start = omega (arith, room_wrapped v f) in
      let s_in : r.start < length r.buf = ground arith in
      let room : r.end + length bs ≤ length r.buf = omega arith in
      rw (fill-eq r bs (omega arith), nonzero, length-overwrite r.buf r.end bs room)
        (held-push_wrapped r.buf bs r.start r.end r.empty room pos below s_in (ground arith))
]
  where
    nonzero : (length bs == 0) ≡ false
    nonzero = ground arith

fill_nothing : (r : RingBuffer) → fill r [] ≡ r
unfolding fill
fill_nothing r =
    let from = (push_buf r).from in
    let e : from + 0 ≡ from = omega arith in
    rw e (ap (λ xs. record r { buf = xs }) (take-append-drop from r.buf))

pub room-fill :
    {r : RingBuffer} (bs : List ℕ)
    → IsValid r
    → length bs ≤ (push_buf r).len
    → (push_buf (fill r bs)).len ≡ (push_buf r).len
unfolding push_buf fill
room-fill {r} bs v h =
    rw (length-overwrite r.buf (push_buf r).from bs (omega (arith, push_buf_in v))) refl

contents-pushed :
    {r : RingBuffer} (bs : List ℕ)
    → IsValid r
    → length bs ≤ (push_buf r).len
    → contents (pushed (fill r bs) (length bs)) ≡ contents r ++ bs
contents-pushed {r} [] v h = ap contents (fill_nothing r) ∙ sym (append-nil (contents r))
contents-pushed (b ∷ bs) v h = fill-pushed (b ∷ bs) v (omega arith) h

-- If a client of a valid ring writes no more bytes than `push_buf` lends and pushes as many, then
-- `push` does not panic, the ring is valid after it, and holds what it held before followed by
-- those bytes.
pub push_appends :
    {r : RingBuffer} (bs : List ℕ)
    → IsValid r
    → length bs ≤ (push_buf r).len
    → (r' : RingBuffer) × (push (fill r bs) (length bs) ≡ some r')
      × IsValid r'
      × (contents r' ≡ contents r ++ bs)
push_appends {r} bs v h =
    let v' = fill-IsValid bs v h in
    let h' : length bs ≤ (push_buf (fill r bs)).len = omega (arith, room-fill bs v h) in
    (
      pushed (fill r bs) (length bs),
      push-eq-pushed (length bs) v' h',
      pushed-IsValid (length bs) v' h',
      contents-pushed bs v h,
    )

-- A valid ring lends no room exactly when it holds as many bytes as its storage.
push_buf_empty :
    {r : RingBuffer} → IsValid r → ((push_buf r).len ≡ 0) ↔ (length (contents r) ≡ length r.buf)
unfolding push_buf
push_buf_empty {r} v = ground (arith, length-contents v)
