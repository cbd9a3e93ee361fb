-- ===== src/Extras/RingBuffer/Tests.antt =====
-- The ring's theorems at a ring of three bytes whose data goes round the end, and runs of its code.
use embassy.Base.{◌≡◌, refl, inl, false, none, some, [], ◌∷◌, ◌++◌, arith, drop}
use embassy.Extras.RingBuffer.{RingBuffer, push_buf, push, pop_buf, pop, fill}
use embassy.Extras.RingBuffer.Bounds.{IsValid}
use embassy.Extras.RingBuffer.Queue.{contents}
use embassy.Extras.RingBuffer.Queue.Push.{push_appends}
use embassy.Extras.RingBuffer.Queue.Pop.{pop_removes}

-- 8, then 9.
abbrev wrapped : RingBuffer
wrapped = record { buf = 9 ∷ 7 ∷ 8 ∷ []; start = 2; end = 1; empty = false }

wrapped-IsValid : IsValid wrapped
wrapped-IsValid = record {
  small = omega arith;
  start_in = inl (omega arith);
  end_in = inl (omega arith);
  empty_eq = λ e. cc;
}

contents-wrapped : contents wrapped ≡ 8 ∷ 9 ∷ []
unfolding contents
contents-wrapped = refl

-- Popping more than there is panics only past the end of the storage.
pop_too_many : pop wrapped 2 ≡ none
unfolding pop
pop_too_many = refl

push_appends_example :
    (r' : RingBuffer) × (push (fill wrapped (5 ∷ [])) 1 ≡ some r')
    × IsValid r'
    × (contents r' ≡ contents wrapped ++ (5 ∷ []))
unfolding push_buf
push_appends_example = push_appends (5 ∷ []) wrapped-IsValid (omega arith)

pop_removes_example :
    (r' : RingBuffer) × (pop wrapped 1 ≡ some r')
    × IsValid r'
    × (contents r' ≡ drop 1 (contents wrapped))
unfolding pop_buf
pop_removes_example = pop_removes 1 wrapped-IsValid (omega arith)
