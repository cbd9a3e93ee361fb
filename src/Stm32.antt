-- ===== src/Stm32.antt =====
-- embassy-stm32/src/: the clock, the serial port and the pins of the STM32 chips.
pub mod Rtc
pub mod Serial
pub mod Exti
