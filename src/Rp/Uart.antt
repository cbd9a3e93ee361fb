-- ===== src/Rp/Uart.antt =====
-- embassy-rp/src/uart.rs: the registers of the serial port, and its queue of bytes to send.
mod Rates
mod Sent
mod Tests
use embassy.Base.{
  ℕ, suc, ◌+◌, ◌-◌, ◌*◌, ◌/◌, ◌%◌, ◌^◌, Bool, true, false, Option, none, some, List, [], ◌∷◌, ◌++◌,
  leb, ◌==◌, if◌then◌else◌, length, drop,
}
use embassy.Base.Options.{◌>>=◌}
use embassy.Time.{Profile, dev, release}
use embassy.Rp.Pll.{divide}

pub record Config : Type 0 where
  pub baudrate : ℕ
  pub data_bits : ℕ
  pub stop_bits : ℕ

abbrev pub default : Config
default = record { baudrate = 115200; data_bits = 8; stop_bits = 1 }

-- The registers that `new` writes, and the bytes that the transmitter holds.
pub record Uart : Type 0 where
  pub ibrd : ℕ
  pub fbrd : ℕ
  pub wlen : ℕ
  pub stp2 : Bool
  pub pen : Bool
  pub eps : Bool
  pub fen : Bool
  pub uarten : Bool
  pub rxe : Bool
  pub txe : Bool
  pub fifo : List ℕ

abbrev pub clk_base : ℕ
clk_base = 12_000_000

-- `baud_ibrd` and `baud_fbrd`, from `baud_rate_div`.
unfoldable pub baud_divisors : ℕ → ℕ × ℕ
baud_divisors baud_rate_div =
    let baud_ibrd = baud_rate_div / 2 ^ 7 in
    let baud_fbrd = (baud_rate_div % 2 ^ 7 + 1) / 2 in
    if baud_ibrd == 0
    then (1, 0)
    else if leb 65535 baud_ibrd
    then (65535, 0)
    else (baud_ibrd, baud_fbrd)

-- `data_bits - 5` on u8.
abbrev pub word_length : Profile → ℕ → Option ℕ
word_length dev data_bits = if leb 5 data_bits then some (data_bits - 5) else none
word_length release data_bits = some ((data_bits + 2 ^ 8 - 5) % 2 ^ 8)

-- `new`, without its pins.
unfoldable pub new_uart : Profile → Config → Uart → Option Uart
unfolding baud_divisors
new_uart p config u = do
  baud_rate_div ← divide (8 * clk_base) config.baudrate
  wlen ← word_length p config.data_bits
  some (record u {
    ibrd = (baud_divisors baud_rate_div).0;
    fbrd = (baud_divisors baud_rate_div).1;
    wlen = wlen;
    stp2 = config.stop_bits == 2;
    pen = false;
    eps = false;
    fen = true;
    uarten = true;
    rxe = true;
    txe = true;
  })

-- `send`. The transmitter holds `depth` bytes, and may have sent some before each byte of the data:
-- `leaves` says how many, for the bytes from the first on.
unfoldable pub send : ℕ → (ℕ → ℕ) → List ℕ → Uart → Uart
send depth leaves [] u = u
send depth leaves (byte ∷ bytes) u =
    let held = drop (leaves 0) u.fifo in
    let kept = if leb depth (length held) then held else held ++ (byte ∷ []) in
    send depth (λ i. leaves (suc i)) bytes (record u { fifo = kept })
