-- ===== src/Checks.antt =====
-- Runs of the model, and instances of its theorems at concrete inputs.
mod Fixtures
mod Ber
mod Mib
mod Wire
mod Snmp
mod Access
mod Codec
mod Monitor
mod Device
mod DevAgent
mod Hal
mod Main
