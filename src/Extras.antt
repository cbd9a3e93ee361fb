-- ===== src/Extras.antt =====
-- The parts of embassy-extras.
pub mod RingBuffer
pub mod Peripheral
pub mod UsbSerial
