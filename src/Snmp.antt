-- ===== src/Snmp.antt =====
-- The SNMP engine: firmware/components/snmp_core. `Types` is snmp_pdu.h and snmp_error.h, `Codec` is
-- snmp_codec.c, `Errors` is snmp_error.c, `Read`, `Bulk` and `Write` are the PDU handlers, `Dispatch`
-- is snmp_dispatch.c, `Security` holds the security models, and `Message` is snmp_message.c.
pub mod Types
pub mod Codec
pub mod Errors
pub mod Read
pub mod Bulk
pub mod Write
pub mod Dispatch
pub mod Security
pub mod Message
pub mod Keeps
pub mod Trap
