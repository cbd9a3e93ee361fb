-- ===== src/Extras/RingBuffer/Queue/Pop.antt =====
-- `pop_buf` shows the front of the queue, and `pop` takes bytes off it.
use embassy.Base.{
  ℕ, zero, suc, ◌+◌, ◌-◌, ◌≤◌, ◌<◌, ◌≡◌, refl, sym, ap, ◌∙◌, ◌↔◌, inl, inr, true, false, some, List,
  [], ◌++◌, arith, ltb, leb, ◌==◌, if◌then◌else◌, lt→ltb, Bool-cases, length, take, drop,
  length-take, length-drop, take-append, drop-append, drop_all, take-take, drop-drop, drop-take,
  drop-append_right, length-eq-zero,
}
use embassy.Extras.RingBuffer.{RingBuffer, pop_buf, pop, bytes_of}
use embassy.Extras.RingBuffer.Bounds.{IsValid, popped, pop-eq-popped, popped-IsValid}
use embassy.Extras.RingBuffer.Queue.{segment, held, contents, length-contents}

module _ (xs : List ℕ) (s e n : ℕ) (pos : 0 < n) (s_in : s < length xs) (e_in : e < length xs) where
  abbrev after : List ℕ
  after = let s' = if s + n == length xs then 0 else s + n in held xs s' e (s' == e)

  held-pop_linear : s < e → s + n ≤ e → after ≡ drop n (held xs s e false)
  held-pop_linear lt le =
      let t : (s + n == length xs) ≡ false = ground arith in
      let u : ltb s e ≡ true = ground arith in
      rw (t, u)
        (elim (Bool-cases (s + n == e)) [
          | inl done ↦ rw done (
              sym (
                drop-drop n s (take e xs)
                ∙ drop_all (s + n) (take e xs) (ground (arith, length-take {0} e xs))))
          | inr more ↦
              rw more (rw (lt→ltb (s + n) e (ground arith)) (sym (drop-drop n s (take e xs))))
        ])

  held-pop_wrapped : e ≤ s → s + n ≤ length xs → after ≡ drop n (held xs s e false)
  held-pop_wrapped le room =
      let u : ltb s e ≡ false = ground arith in
      let len_first = length-drop {0} s xs in
      rw u (elim (Bool-cases (s + n == length xs)) [
        | inl t ↦ rw t (around t ∙ sym (skip_first (ground arith)))
        | inr f ↦
            let more : (s + n == e) ≡ false = ground arith in
            let v : ltb (s + n) e ≡ false = ground arith in
            rw (f, more)
              (rw v (
                sym (
                  drop-append n (drop s xs) (take e xs) (omega arith)
                  ∙ ap (λ ys. ys ++ take e xs) (drop-drop n s xs))))
      ])
    where
      skip_first : s + n ≡ length xs → drop n (drop s xs ++ take e xs) ≡ take e xs
      skip_first t =
          let k : n ≡ length (drop s xs) + 0 = omega (arith, length-drop {0} s xs) in
          ap (λ m. drop m (drop s xs ++ take e xs)) k ∙ drop-append_right 0 (drop s xs) (take e xs)

      around : (s + n == length xs) ≡ true → held xs 0 e (0 == e) ≡ take e xs
      around t = elim (Bool-cases (0 == e)) [
        | inl z ↦ rw z (let e0 : 0 ≡ e = ground arith in ap (λ k. take k xs) e0)
        | inr p ↦ rw p (rw (lt→ltb 0 e (ground arith)) refl)
      ]

contents-popped :
    {r : RingBuffer} (n : ℕ)
    → IsValid r
    → n ≤ (pop_buf r).len
    → contents (popped r n) ≡ drop n (contents r)
unfolding pop_buf contents
contents-popped {r} zero v h = refl
contents-popped {r} (suc n) v h =
    let full : r.empty ≡ false = ground arith in
    let s_in : r.start < length r.buf = ground arith in
    let e_in : r.end < length r.buf = ground arith in
    let nonzero : (suc n == 0) ≡ false = ground arith in
    rw (nonzero, full)
      (elim (Bool-cases (leb r.end r.start)) [
        | inl t ↦
            held-pop_wrapped r.buf r.start r.end (suc n) (omega arith) s_in e_in (ground arith)
              (ground arith)
        | inr f ↦
            held-pop_linear r.buf r.start r.end (suc n) (omega arith) s_in e_in (ground arith)
              (ground arith)
      ])

-- If a client of a valid ring pops no more bytes than `pop_buf` lends, then `pop` does not panic,
-- the ring is valid after it, and has lost as many bytes from its front and no others.
pub pop_removes :
    {r : RingBuffer} (n : ℕ)
    → IsValid r
    → n ≤ (pop_buf r).len
    → (r' : RingBuffer) × (pop r n ≡ some r') × IsValid r' × (contents r' ≡ drop n (contents r))
pop_removes {r} n v h =
    (popped r n, pop-eq-popped n v h, popped-IsValid n v h, contents-popped n v h)

module _ (xs : List ℕ) (s e : ℕ) where
  front_linear : s < e → take (e - s) (drop s xs) ≡ take (e - s) (segment xs s e)
  front_linear lt =
      let k : e ≡ s + (e - s) = omega arith in
      sym (take-take (e - s) (e - s) (drop s xs) (omega arith))
      ∙ ap (take (e - s)) (sym (drop-take s (e - s) xs) ∙ ap (segment xs s) (sym k))

  front_wrapped :
      s ≤ length xs
      → take (length xs - s) (drop s xs) ≡ take (length xs - s) (drop s xs ++ take e xs)
  front_wrapped le =
      sym
        (take-append (length xs - s) (drop s xs) (take e xs) (omega (arith, length-drop {0} s xs)))

bytes-pop_buf :
    {r : RingBuffer} → IsValid r → bytes_of r (pop_buf r) ≡ take (pop_buf r).len (contents r)
unfolding pop_buf contents bytes_of
bytes-pop_buf {r} v =
    ground (arith, front_linear r.buf r.start r.end, front_wrapped r.buf r.start r.end)

-- The slice that a valid ring lends to a reader is the front of its contents, and it is empty
-- exactly when the ring holds nothing.
pub pop_buf_front :
    {r : RingBuffer}
    → IsValid r
    → (bytes_of r (pop_buf r) ≡ take (pop_buf r).len (contents r))
      × (((pop_buf r).len ≡ 0) ↔ (contents r ≡ []))
unfolding pop_buf
pop_buf_front {r} v = (
  bytes-pop_buf v,
  (
    λ z. length-eq-zero (contents r) (ground (arith, length-contents v)),
    λ e. ground (arith, length-contents v, ap length e),
  ),
)
