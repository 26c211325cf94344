-- ===== src/Device.antt =====
-- The objects of the firmware: mib_ii.c, mib_wespe.c, mib_iftable.c and mib_sensor_table.c of
-- firmware/components/mib, over any drivers that have the interfaces of `Hal`.
pub mod Types
pub mod System
pub mod Wespe
pub mod Interfaces
pub mod Sensors
pub mod Boot
