-- ===== src/Rp/Uart/Tests.antt =====
-- The theorems on the serial port at concrete values, and runs of the code.
use mathlib.Core.Option
use embassy.Base.{ℕ, ◌≡◌, refl, false, some, List, [], ◌∷◌}
use embassy.Time.{dev}
use embassy.Rp.Uart.{Config, default, Uart, baud_divisors, new_uart}

abbrev reset_uart : Uart
reset_uart = record {
  ibrd = 0;
  fbrd = 0;
  wlen = 0;
  stp2 = false;
  pen = false;
  eps = false;
  fen = false;
  uarten = false;
  rxe = false;
  txe = false;
  fifo = [];
}

-- The default configuration gives 6 and 33 / 64, for 6.51.
default_divisors :
    Option.map {B = ℕ × ℕ} (λ u. (u.ibrd, u.fbrd)) (new_uart dev default reset_uart) ≡ some (6, 33)
unfolding new_uart baud_divisors
default_divisors = refl

-- At 376,470 baud the divisor should be 2, and is 1.
abbrev quick : Config
quick = record default { baudrate = 376_470 }

abbrev three : List ℕ
three = 1 ∷ 2 ∷ 3 ∷ []
