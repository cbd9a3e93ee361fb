-- ===== src/Nrf.antt =====
-- embassy-nrf/src/: the clock, the buffered serial port, the pin events and the flash of the nRF chips.
pub mod Rtc
pub mod BufferedUarte
pub mod Gpiote
pub mod Qspi
