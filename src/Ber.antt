-- ===== src/Ber.antt =====
-- The BER codec: firmware/components/ber. `Types` is ber_types.h, `Decode` is ber_decode.c and
-- `Encode` is ber_encode.c; the other modules prove what the two files promise each other.
pub mod Types
pub mod Decode
pub mod Encode
pub mod Wire
pub mod RoundTrip
pub mod Integers
pub mod ReadsBack
pub mod Bounds
pub mod Oids
