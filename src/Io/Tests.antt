-- ===== src/Io/Tests.antt =====
-- The theorems on io at a scripted reader, and runs of the code.
use embassy.Base.{
  ℕ, ◌≤◌, min, ◌≡◌, refl, subst, Bool, not, some, List, [], ◌∷◌, ◌++◌, arith, ◌==◌, length, take,
}
use embassy.Io.{ok, err, Poll, pending, ready, Chunk, run, wait, scripted, scripted-Contract}
use embassy.Io.Bytes.{byte, events}
use embassy.Io.ReadExact
use embassy.Io.Loop.{on_script}
use embassy.Io.Readers.{Buffer, read_while, read_to_end, drain}
use embassy.Io.ReadWhile.{while_bytes, read_while-while_bytes}
use embassy.Io.ReadToEnd.{end_bytes, read_to_end-end_bytes}
use embassy.Time.{dev}
use embassy.Io.Writers.{AsyncWrite, WriteContract, answers, write, write_byte, write_all, copy_buf}
use embassy.Io.WriteAll.{WritesAll, write_all-WritesAll}
use embassy.Io.Copy.{Copies, copy_buf-Copies}
use embassy.Io.Drain.{drain_on_script, drain-drained}
use embassy.Io.ReadExact.{ReadExact, exact, as_bytes, poll-exact}

-- Two bytes, a pause, and three bytes more.
abbrev two_then_three : List Chunk
two_then_three = run 1 (2 ∷ []) ∷ wait ∷ run 3 (4 ∷ 5 ∷ []) ∷ []

abbrev three_wanted : ReadExact (List Chunk)
three_wanted = record { reader = two_then_three; left = 3; got = [] }

poll-exact_example :
    (o : Poll (Unit {0}) × ReadExact (List Chunk)) × (ReadExact.poll scripted 4 three_wanted
      ≡ some o)
    × (as_bytes scripted scripted-Contract o ≡ exact 3 (events two_then_three) [])
poll-exact_example = poll-exact scripted scripted-Contract 4 three_wanted (omega arith)

-- A line of three bytes and its end, in two buffers, into a buffer of two.
abbrev line : List Chunk
line = run 1 (2 ∷ []) ∷ run 3 (9 ∷ 5 ∷ []) ∷ []

abbrev two_bytes : Buffer
two_bytes = record { room = 2; got = [] }

abbrev not_nine : ℕ → Bool
not_nine x = not (x == 9)

read_while-while_bytes_example :
    (o : Poll ℕ × List Chunk × Buffer) × (on_script scripted scripted-Contract
        (read_while scripted 3 not_nine line two_bytes)
      ≡ some o)
    × ((o.0, events o.1, o.2) ≡ while_bytes not_nine two_bytes (events line))
read_while-while_bytes_example =
    read_while-while_bytes scripted scripted-Contract not_nine 3 line two_bytes (omega arith)

line_read :
    while_bytes not_nine two_bytes (events line)
    ≡ (ready (ok 2), byte 9 ∷ byte 5 ∷ [], record { room = 2; got = 1 ∷ 2 ∷ [] })
line_read = refl

read_to_end-end_bytes_example :
    (o : Poll ℕ × List Chunk × Buffer) × (on_script scripted scripted-Contract
        (read_to_end scripted 5 line two_bytes)
      ≡ some o)
    × ((o.0, events o.1, o.2) ≡ end_bytes two_bytes (events line))
read_to_end-end_bytes_example =
    read_to_end-end_bytes scripted scripted-Contract 5 line two_bytes (omega arith) (omega arith)

drain-drained_example :
    drain_on_script scripted scripted-Contract (drain scripted 4 two_then_three)
    ≡ some (ready (ok 2), run 3 (4 ∷ 5 ∷ []) ∷ [])
drain-drained_example = drain-drained scripted scripted-Contract 4 two_then_three (omega arith)

-- A writer that takes at most two bytes at a time and keeps them.
abbrev two_at_a_time : AsyncWrite (List ℕ)
two_at_a_time = record {
  poll_write = λ w buf. (ready (ok (min 2 (length buf))), w ++ take (min 2 (length buf)) buf);
}

two_at_a_time-WriteContract : WriteContract two_at_a_time
two_at_a_time-WriteContract = record {
  written = λ w. w;
  grows = λ w buf. refl;
  few = λ w buf n e. subst (λ p. count_in p ≤ length buf) e (omega arith);
}
  where
    count_in : Poll ℕ → ℕ
    count_in pending = 0
    count_in (ready (err e)) = 0
    count_in (ready (ok n)) = n

write_all-WritesAll_example :
    WritesAll two_at_a_time two_at_a_time-WriteContract
      (7 ∷ [])
      (1 ∷ 2 ∷ 3 ∷ [])
      (write_all two_at_a_time 4 (7 ∷ []) (1 ∷ 2 ∷ 3 ∷ []))
write_all-WritesAll_example =
    write_all-WritesAll two_at_a_time two_at_a_time-WriteContract 4 (7 ∷ []) (1 ∷ 2 ∷ 3 ∷ [])
      (omega arith)

all_written :
    write_all two_at_a_time 4 (7 ∷ []) (1 ∷ 2 ∷ 3 ∷ [])
    ≡ some (answers (ready (ok tt)), 7 ∷ 1 ∷ 2 ∷ 3 ∷ [], [])
unfolding write_all
all_written = refl

copy_buf-Copies_example :
    Copies scripted two_at_a_time dev scripted-Contract two_at_a_time-WriteContract line [] 0
      (copy_buf scripted two_at_a_time dev 6 line [] 0)
copy_buf-Copies_example =
    copy_buf-Copies scripted two_at_a_time dev scripted-Contract two_at_a_time-WriteContract 6 line
      [] 0 (omega arith) (omega arith)

all_copied :
    copy_buf scripted two_at_a_time dev 6 line [] 0
    ≡ some (answers (ready (ok 5)), [], 1 ∷ 2 ∷ 3 ∷ 9 ∷ 5 ∷ [], 5)
unfolding copy_buf
all_copied = refl

byte_written : write_byte two_at_a_time [] 9 ≡ (answers (ready (ok tt)), 9 ∷ [])
unfolding write_byte
byte_written = refl

some_written : write two_at_a_time [] (1 ∷ 2 ∷ 3 ∷ []) ≡ (ready (ok 2), 1 ∷ 2 ∷ [])
unfolding write
some_written = refl
