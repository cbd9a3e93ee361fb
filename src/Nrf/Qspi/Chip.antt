-- ===== src/Nrf/Qspi/Chip.antt =====
-- The QSPI peripheral and the flash chip behind it, which the commands of embassy-nrf/src/qspi.rs rely
-- on: what a task does to memory, as its registers say. How a byte of flash is written over an old one
-- and what a custom instruction does are the chip's: they are parameters.
use embassy.Base.{
  ℕ, ◌+◌, ◌-◌, max, true, ◌&&◌, Option, some, List, [], ltb, leb, if◌then◌else◌, length, take, drop,
}
use mathlib.Core.Option
use embassy.Interrupt.{Nvic, Line}
use embassy.Executor.{System}
use embassy.Util.InterruptFuture.{fire}
use embassy.Nrf.Qspi.{
  Task, readstart, writestart, erasestart, custom, Qspi, Command, read, write, erase,
  custom_instruction, little_endian, response,
}

-- The bytes at an address of RAM and of flash.
pub record Memory : Type 0 where
  pub ram : ℕ → ℕ
  pub flash : ℕ → ℕ

-- `program` is of the old byte and the new one. An instruction is its opcode, its length and two words
-- of data, and answers two words.
pub record Chip : Type 0 where
  pub program : ℕ → ℕ → ℕ
  pub exec : ℕ → ℕ → ℕ → ℕ → Memory → ℕ × ℕ × Memory

-- Memory in which the `cnt` bytes from `dst` on are replaced; `f` is of the place and the old byte.
abbrev pub changed : ℕ → ℕ → (ℕ → ℕ → ℕ) → (ℕ → ℕ) → ℕ → ℕ
changed dst cnt f to a = if leb dst a && ltb a (dst + cnt) then f (a - dst) (to a) else to a

abbrev pub perform : {N : Type 0} → Chip → Task → Qspi N → Memory → Qspi N × Memory
perform chip readstart q m =
    (q, record m { ram = changed q.read_dst q.read_cnt (λ i old. m.flash (q.read_src + i)) m.ram })
perform chip writestart q m = (
  q,
  record m {
    flash =
        changed q.write_dst q.write_cnt (λ i old. chip.program old (m.ram (q.write_src + i)))
          m.flash;
  },
)
perform chip erasestart q m =
    (q, record m { flash = changed q.erase_ptr q.erase_len (λ i old. 0xFF) m.flash })
perform chip custom q m =
    let (dat0, dat1, m') = chip.exec q.opcode q.cinstr_length q.cinstrdat0 q.cinstrdat1 m in
    (record q { cinstrdat0 = dat0; cinstrdat1 = dat1 }, m')

-- The task that was started ends, with its event; `none` if there is none.
unfoldable pub run_chip : {N : Type 0} → Chip → Qspi N → Memory → Option (Qspi N × Memory)
run_chip chip q m =
    Option.map
      (λ task. let (q', m') = perform chip task q m in (record q' { events_ready = true }, m'))
      q.task

-- The event interrupts where the mask says so.
unfoldable pub ready_interrupt : {N : Type 0} → Nvic N → Qspi N → System → Option (Line N × System)
unfolding fire
ready_interrupt nvic q w =
    if q.events_ready && q.ready_enabled then fire nvic q.irq w else some (q.irq, w)

-- What a command is for: the response that it answers, and the memory after it.
abbrev pub effect : Chip → Command → Memory → List ℕ × Memory
effect chip (read address ptr len) m =
    ([], record m { ram = changed ptr len (λ i old. m.flash (address + i)) m.ram })
effect chip (write address ptr len) m = (
  [],
  record m { flash = changed address len (λ i old. chip.program old (m.ram (ptr + i))) m.flash },
)
effect chip (erase address) m =
    ([], record m { flash = changed address 4096 (λ i old. 0xFF) m.flash })
effect chip (custom_instruction opcode req resp) m =
    let words = chip.exec opcode (max (length req) (length resp) + 1) in
    let (dat0, dat1, m') =
      words (little_endian (take 4 req)) (little_endian (take 4 (drop 4 req))) m in
    (response dat0 dat1 resp, m')
