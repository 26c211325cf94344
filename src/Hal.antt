-- ===== src/Hal.antt =====
-- The drivers of firmware/components/device_hal: the interfaces of relay.h, sensor.h and sysinfo.h, and
-- the drivers that have them.
pub mod Interfaces
pub mod Board
pub mod Sysinfo
pub mod Relays
pub mod Mock
pub mod OneWire
pub mod Ds18b20
