-- ===== src/Rp/Uart/Rates.antt =====
-- The rate that the divisors of a new port give.
use embassy.Base.{ℕ, ◌+◌, ◌*◌, ◌/◌, ◌%◌, ◌≤◌, ◌<◌, ◌≡◌, ◌⊎◌, true, false, ◌==◌}
use embassy.Rp.Uart.{Config, Uart, clk_base, baud_divisors}

-- The divisor that the hardware uses, in 64ths: the register for the fraction has 6 bits.
abbrev pub divisor : ℕ × ℕ → ℕ
divisor (ibrd, fbrd) = ibrd * 64 + fbrd % 64

-- Half of `d`, rounded up, unless the fraction does not fit.
abbrev pub Halved : ℕ → ℕ → Type 0
Halved d divisor =
    ((d % 128 < 127) × (divisor ≡ (d + 1) / 2)) ⊎ ((d % 128 ≡ 127) × (divisor + 64 ≡ (d + 1) / 2))

-- The registers for a rate of b baud: `d` is the wanted divisor in 128th parts, rounded down.
abbrev pub Divides : ℕ → ℕ × ℕ → Type 0
Divides b registers =
    ((750_000 < b) × (registers ≡ (1, 0)))
    ⊎ (((b ≤ 11) × (registers ≡ (65535, 0)))
        ⊎ ((d : ℕ) × (11 < b)
            × (b ≤ 750_000)
            × (d * b ≤ 96_000_000)
            × (96_000_000 < d * b + b)
            × Halved d (divisor registers)))

-- The registers of a new port.
abbrev opened : Config → Uart → ℕ → Uart
opened config u wlen = record u {
  ibrd = (baud_divisors (8 * clk_base / config.baudrate)).0;
  fbrd = (baud_divisors (8 * clk_base / config.baudrate)).1;
  wlen = wlen;
  stp2 = config.stop_bits == 2;
  pen = false;
  eps = false;
  fen = true;
  uarten = true;
  rxe = true;
  txe = true;
}
