-- ===== src/Rp.antt =====
-- embassy-rp/src/: the phase-locked loops and the serial port of the RP chips.
pub mod Pll
pub mod Uart
