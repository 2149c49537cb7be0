-- ===== src/Serial.antt =====
-- The console drivers of firmware/serial, a module for each, and the search for a driver.
pub mod Mmio
pub mod Node
pub mod Uart8250
pub mod Cadence
pub mod Htif
pub mod Semihosting
pub mod Probe
