-- ===== src/Extras/RingBuffer/Queue.antt =====
-- The ring as a queue of bytes: what it holds.
pub mod Push
pub mod Pop
use embassy.Base.{
  ℕ, ◌+◌, ◌-◌, ◌≡◌, Bool, List, [], ◌++◌, arith, ltb, if◌then◌else◌, length, take, drop,
  length-append, length-take, length-drop, drop_all,
}
use embassy.Extras.RingBuffer.Bounds.{IsValid}
use embassy.Extras.RingBuffer.{RingBuffer}

-- The bytes from index `i` up to index `j`.
abbrev pub segment : List ℕ → ℕ → ℕ → List ℕ
segment xs i j = drop i (take j xs)

-- The bytes that the fields of a ring stand for, oldest first: one run, or two when the data goes
-- round the end of the storage.
abbrev pub held : List ℕ → ℕ → ℕ → Bool → List ℕ
held xs s e empty = if empty then [] else if ltb s e then segment xs s e else drop s xs ++ take e xs

unfoldable pub contents : RingBuffer → List ℕ
contents r = held r.buf r.start r.end r.empty

pub segment-nil : (xs : List ℕ) (s : ℕ) → segment xs s s ≡ []
segment-nil xs s = drop_all s (take s xs) (omega (arith, length-take {0} s xs))

pub length-contents :
    {r : RingBuffer}
    → IsValid r
    → length (contents r) ≡ (
        if r.empty
        then 0
        else if ltb r.start r.end
        then r.end - r.start
        else length r.buf - r.start + r.end)
unfolding contents
length-contents {r} v = ground (
  arith,
  length-drop {0} r.start (take r.end r.buf),
  length-take {0} r.end r.buf,
  length-append {0} (drop r.start r.buf) (take r.end r.buf),
  length-drop {0} r.start r.buf,
)
