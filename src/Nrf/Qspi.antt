-- ===== src/Nrf/Qspi.antt =====
-- embassy-nrf/src/qspi.rs: commands to a flash chip, each of which waits for the interrupt of its end.
-- The registers are those that the commands use; a buffer is its address and length, except for the
-- bytes of a custom instruction. A future is its state between two polls; a panic is `none`.
mod Bytes
pub mod Chip
mod Waits
mod Tests
use embassy.Base.{
  ℕ, zero, suc, ◌+◌, ◌*◌, ◌/◌, ◌%◌, ◌^◌, max, Bool, true, false, ◌&&◌, Option, none, some, List, [],
  ◌∷◌, ltb, leb, ◌==◌, if◌then◌else◌, length, take, drop,
}
use embassy.Base.Options.{◌>>=◌}
use embassy.Poll.{Poll, pending, ready}
use embassy.Interrupt.{Nvic, Line}
use embassy.Util.InterruptFuture.{wake_on_interrupt}

pub data Task : Type 0 where
  readstart writestart erasestart custom : Task

-- `ready_enabled` is the bit of the interrupt's mask, and `task` the latest that was triggered.
pub record Qspi (N : Type 0) : Type 0 where
  pub events_ready : Bool
  pub ready_enabled : Bool
  pub read_src : ℕ
  pub read_dst : ℕ
  pub read_cnt : ℕ
  pub write_src : ℕ
  pub write_dst : ℕ
  pub write_cnt : ℕ
  pub erase_ptr : ℕ
  pub erase_len : ℕ
  pub cinstrdat0 : ℕ
  pub cinstrdat1 : ℕ
  pub opcode : ℕ
  pub cinstr_length : ℕ
  pub task : Option Task
  pub irq : Line N

-- `read` and `write` at an address with a buffer, `erase`, and `custom_instruction` with its request
-- and the response that it fills.
pub data Command : Type 0 where
  read write : ℕ → ℕ → ℕ → Command
  erase : ℕ → Command
  custom_instruction : ℕ → List ℕ → List ℕ → Command

-- Bytes in a word, the lowest first; each has its own bits, so `|=` is a sum.
abbrev pub little_endian : List ℕ → ℕ
little_endian [] = 0
little_endian (b ∷ bytes) = b + little_endian bytes * 2 ^ 8

abbrev pub set_nth : ℕ → ℕ → List ℕ → List ℕ
set_nth n v [] = []
set_nth zero v (x ∷ xs) = v ∷ xs
set_nth (suc n) v (x ∷ xs) = x ∷ set_nth n v xs

abbrev pub byte_of : ℕ → ℕ → ℕ
byte_of dat i = dat / 2 ^ (8 * i) % 2 ^ 8

-- A round of the loops that fill the response, for the word of its bytes from `first` on, and those.
unfoldable pub response_round : ℕ → ℕ → ℕ → List ℕ → List ℕ
response_round first dat i resp =
    if ltb (i + first) (length resp) then set_nth i (byte_of dat i) resp else resp

unfoldable pub response_word : ℕ → ℕ → List ℕ → List ℕ
unfolding response_round
response_word first dat resp =
    response_round first dat 3
      (response_round first dat 2 (response_round first dat 1 (response_round first dat 0 resp)))

unfoldable pub response : ℕ → ℕ → List ℕ → List ℕ
unfolding response_word
response dat0 dat1 resp = response_word 4 dat1 (response_word 0 dat0 resp)

module _ {N : Type 0} (nvic : Nvic N) where
  abbrev pub trigger : Task → Qspi N → Qspi N
  trigger task q = record q { events_ready = false; ready_enabled = true; task = some task }

  -- The commands up to their wait; an assertion that fails is a panic.
  abbrev pub begin_read : ℕ → ℕ → ℕ → Qspi N → Option (Qspi N)
  begin_read address ptr len q =
      if (ptr % 4 == 0) && ((len % 4 == 0) && (address % 4 == 0))
      then some
          (trigger readstart (record q { read_src = address; read_dst = ptr; read_cnt = len }))
      else none

  abbrev pub begin_write : ℕ → ℕ → ℕ → Qspi N → Option (Qspi N)
  begin_write address ptr len q =
      if (ptr % 4 == 0) && ((len % 4 == 0) && (address % 4 == 0))
      then some
          (trigger writestart (record q { write_src = ptr; write_dst = address; write_cnt = len }))
      else none

  abbrev pub begin_erase : ℕ → Qspi N → Option (Qspi N)
  begin_erase address q =
      if address % 4096 == 0
      then some (trigger erasestart (record q { erase_ptr = address; erase_len = 4096 }))
      else none

  abbrev pub begin_custom : ℕ → List ℕ → List ℕ → Qspi N → Option (Qspi N)
  begin_custom opcode req resp q =
      if leb (length req) 8 && leb (length resp) 8
      then some (
          trigger custom (record q {
            cinstrdat0 = little_endian (take 4 req);
            cinstrdat1 = little_endian (take 4 (drop 4 req));
            opcode = opcode;
            cinstr_length = max (length req) (length resp) + 1;
          }))
      else none

  unfoldable pub begin : Command → Qspi N → Option (Qspi N)
  begin (read address ptr len) q = begin_read address ptr len q
  begin (write address ptr len) q = begin_write address ptr len q
  begin (erase address) q = begin_erase address q
  begin (custom_instruction opcode req resp) q = begin_custom opcode req resp q

  unfoldable pub wait_ready : ℕ → Qspi N → Poll (Unit {0}) × Qspi N
  wait_ready t q =
      if q.events_ready
      then (ready tt, record q { events_ready = false })
      else (pending, record q { irq = wake_on_interrupt nvic t q.irq })

  -- What the command leaves in the response.
  unfoldable pub result : Command → Qspi N → List ℕ
  result (read address ptr len) q = []
  result (write address ptr len) q = []
  result (erase address) q = []
  result (custom_instruction opcode req resp) q = response q.cinstrdat0 q.cinstrdat1 resp

-- The future of a command.
pub data Job : Type 0 where
  created : Command → Job
  waits : Command → Job
  done : Job

module _ {N : Type 0} (nvic : Nvic N) where
  abbrev pub Polled : Type 0
  Polled = Poll (List ℕ) × Job × Qspi N

  unfoldable pub job_answer : Command → Poll (Unit {0}) → Qspi N → Polled
  job_answer c pending q = (pending, waits c, q)
  job_answer c (ready _) q = (ready (result nvic c q), done, q)

  abbrev pub job_wait : ℕ → Command → Qspi N → Polled
  job_wait t c q = let (a, q') = wait_ready nvic t q in job_answer c a q'

  unfoldable pub job_poll : ℕ → Job → Qspi N → Option Polled
  job_poll t (created c) q = do q' ← begin nvic c q; some (job_wait t c q')
  job_poll t (waits c) q = some (job_wait t c q)
  job_poll t done q = none

  -- The drop bomb of a command that waits panics.
  unfoldable pub job_drop : Job → Qspi N → Option (Qspi N)
  job_drop (created c) q = some q
  job_drop (waits c) q = none
  job_drop done q = some q
