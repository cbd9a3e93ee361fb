-- ===== src/Io/ReadToEnd.antt =====
-- embassy/src/io/util/read_to_end.rs: what a poll answers, reads and fills.
use embassy.Base.{
  ℕ, zero, suc, ◌+◌, ◌-◌, ◌≤◌, ◌<◌, min, ◌≡◌, refl, sym, ap, ◌∙◌, inl, inr, false, some, List, [],
  ◌∷◌, ◌++◌, append-nil, append_assoc, arith, ◌==◌, if◌then◌else◌, Bool-cases, length, take, drop,
  length-append, length-take,
}
use embassy.Io.{
  ok, err, Poll, pending, ready, AsyncBufRead, Chunk, run, wait, fail, with_run, Contract, scripted,
}
use embassy.Io.ErrorKinds.{Error}
use embassy.Io.Bytes.{Event, byte, no_data, broken, bytes_then, events, events-with_run}
use embassy.Io.Loop.{take_on, end_pass, poll_loop, on_script, poll_loop-scripted}
use embassy.Io.Readers.{Buffer, copy_fitting, read_to_end_pass, read_to_end}

-- The same byte by byte: the answer, what is left to read, and the caller's buffer.
abbrev pub end_bytes : Buffer → List Event → Poll ℕ × List Event × Buffer
end_bytes b [] = (ready (ok (length b.got)), [], b)
end_bytes b (byte x ∷ ev) =
    let rest = end_bytes (record b { got = b.got ++ (x ∷ []) }) ev in
    if length b.got == b.room then (ready (err Error.truncated), byte x ∷ ev, b) else rest
end_bytes b (no_data ∷ ev) = (pending, ev, b)
end_bytes b (broken e ∷ ev) = (ready (err e), ev, b)

-- Bytes that fit are read one by one.
end_bytes-bytes_then :
    (k : ℕ) (b : Buffer) (bs : List ℕ) (ev : List Event)
    → k ≤ length bs
    → length b.got + k ≤ b.room
    → end_bytes b (bytes_then bs ev)
      ≡ end_bytes (record b { got = b.got ++ take k bs }) (bytes_then (drop k bs) ev)
end_bytes-bytes_then zero b bs ev le fits =
    ap (λ g. end_bytes (record b { got = g }) (bytes_then bs ev)) (sym (append-nil b.got))
end_bytes-bytes_then (suc k) b [] ev le fits = absurd (omega arith)
end_bytes-bytes_then (suc k) b (x ∷ bs) ev le fits =
    let room : (length b.got == b.room) ≡ false = ground arith in
    let b' : Buffer = record b { got = b.got ++ (x ∷ []) } in
    let one : length b'.got ≡ length b.got + 1 = length-append b.got (x ∷ []) in
    let rest : length b'.got + k ≤ b'.room = omega arith in
    rw room (
      end_bytes-bytes_then k b' bs ev (omega arith) rest
      ∙ ap (λ g. end_bytes (record b { got = g }) (bytes_then (drop k bs) ev))
          (append_assoc b.got (x ∷ []) (take k bs)))

length-with_run : (bs : List ℕ) (s : List Chunk) → length (with_run bs s) ≤ suc (length s)
length-with_run [] s = omega arith
length-with_run (b ∷ bs) s = omega arith

abbrev Ends : ℕ → List Chunk → Buffer → Type 0
Ends fuel s b =
    (o : Poll ℕ × List Chunk × Buffer) × (read_to_end scripted fuel s b ≡ some o)
    × ((o.0, events o.1, o.2) ≡ end_bytes b (events s))

read_to_end-Ends :
    (fuel : ℕ) (s : List Chunk) (b : Buffer)
    → length b.got ≤ b.room
    → length s + (b.room - length b.got) < fuel
    → Ends fuel s b
unfolding read_to_end poll_loop read_to_end_pass
read_to_end-Ends zero s b le h = absurd (omega arith)
read_to_end-Ends (suc fuel) [] b le h = ((ready (ok (length b.got)), [], b), refl, refl)
read_to_end-Ends (suc fuel) (wait ∷ s) b le h = ((pending, s, b), refl, refl)
read_to_end-Ends (suc fuel) (fail e ∷ s) b le h = ((ready (err e), s, b), refl, refl)
read_to_end-Ends (suc fuel) (run x xs ∷ s) b le h = elim (Bool-cases (length b.got == b.room)) [
  | inl full ↦ rw full ((ready (err Error.truncated), run x xs ∷ s, b), refl, refl)
  | inr room ↦
      let rbuf = x ∷ xs in
      let p = min (length rbuf) (b.room - length b.got) in
      let b' = copy_fitting b (length rbuf) rbuf in
      let min_idem : min p (length rbuf) ≡ p = omega arith in
      let taken : length (take p rbuf) ≡ p = length-take p rbuf ∙ min_idem in
      let kept : length b'.got ≡ length b.got + p =
        length-append b.got (take p rbuf) ∙ ap (λ n. length b.got + n) taken in
      let some_room : length b.got < b.room = ground arith in
      let shorter = length-with_run (drop p rbuf) s in
      let o = read_to_end-Ends fuel (with_run (drop p rbuf) s) b' (omega arith) (omega arith) in
      let passes : read_to_end_pass b rbuf ≡ take_on p b' = rw room refl in
      let rest = poll_loop scripted read_to_end_pass fuel in
      (
        o.0,
        ap (λ w. end_pass scripted rest w (run x xs ∷ s) b) passes ∙ o.1,
        o.2
            ∙ ap (end_bytes b') (events-with_run (drop p rbuf) s)
            ∙ sym (end_bytes-bytes_then p b rbuf (events s) (omega arith) (omega arith)),
      )
]

-- With fuel above the length of the script plus the room, a poll of `ReadToEnd` over any lawful
-- reader, whose buffer is not overfull, ends, and answers, reads and fills what reading byte by byte does: a byte that no longer fits stays
-- unread and is the error Truncated.
pub read_to_end-end_bytes :
    {R : Type 0} (rd : AsyncBufRead R) (contract : Contract rd) (fuel : ℕ) (r : R) (b : Buffer)
    → length b.got ≤ b.room
    → length (contract.script r) + (b.room - length b.got) < fuel
    → (o : Poll ℕ × List Chunk × Buffer) × (on_script rd contract (read_to_end rd fuel r b)
        ≡ some o)
      × ((o.0, events o.1, o.2) ≡ end_bytes b (events (contract.script r)))
unfolding read_to_end
read_to_end-end_bytes rd contract fuel r b le h =
    let o = read_to_end-Ends fuel (contract.script r) b le h in
    (o.0, poll_loop-scripted rd contract read_to_end_pass fuel r b ∙ o.1, o.2)
