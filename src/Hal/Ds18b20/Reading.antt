-- ===== src/Hal/Ds18b20/Reading.antt =====
-- A reading of the DS18B20: firmware/components/device_hal/sensor_ds18b20.c.
use wespe.Prelude.{
  ℕ, ◌+◌, ◌-◌, ◌*◌, ◌%◌, ◌^◌, ◌≡◌, ◌<◌, ◌≤◌, refl, arith, ◌∙◌, List, ◌∷◌, ◌++◌, some, IsByte, Bool,
  IsU32, ◌⊎◌, inl, inr, Bool-cases, ltb, true,
}
use wespe.Hal.Board.{Board}
use wespe.Hal.OneWire.{Bus, ow_reset, ow_write_byte, ow_write_bit, ow_read_byte}
use wespe.Hal.OneWire.Bytes.{bits_of, ow_read_byte-bits_of}
use wespe.Hal.Ds18b20.{
  decidegrees_of, read_scratchpad, read_once, poll_sensor, ds18b20_read_temperature,
}

write_byte-samples : (b : ℕ) (bus : Bus) → (ow_write_byte b bus).samples ≡ bus.samples
unfolding ow_write_byte ow_write_bit
write_byte-samples b bus = refl

reset-present :
    (bus : Bus) (rest : List ℕ)
    → bus.samples ≡ 0 ∷ rest
    → ((ow_reset bus).0 ≡ true) × ((ow_reset bus).1.samples ≡ rest)
unfolding ow_reset
reset-present bus rest e = rw e (refl, refl)

read_scratchpad-bits_of :
    (lsb msb : ℕ) (rest : List ℕ) (p : Bool × Bus)
    → IsByte lsb
    → IsByte msb
    → p.0 ≡ true
    → p.1.samples ≡ bits_of lsb ++ (bits_of msb ++ rest)
    → (read_scratchpad p).0 ≡ some (decidegrees_of (msb * 256 + lsb))
unfolding read_scratchpad
read_scratchpad-bits_of lsb msb rest (present, bus) hl hm t e =
    let asked = ow_write_byte 0xBE (ow_write_byte 0xCC bus) in
    let ready =
      write_byte-samples 0xBE (ow_write_byte 0xCC bus) ∙ write_byte-samples 0xCC bus ∙ e in
    let (low, left) = ow_read_byte-bits_of lsb (bits_of msb ++ rest) asked hl ready in
    let (high, none_left) = ow_read_byte-bits_of msb rest (ow_read_byte asked).1 hm left in
    rw (t, low, high) refl

-- `t` is the int32_t that has the tenths of a degree in the temperature `raw`, an int16_t of sixteenths of
-- a degree, rounded towards zero: above zero, or below it.
abbrev pub IsTenths : ℕ → ℕ → Type 0
IsTenths raw t =
    IsU32 t
    × (((raw < 2 ^ 15) × (16 * t ≤ 10 * raw) × (10 * raw < 16 * t + 16))
        ⊎ ((2 ^ 15 ≤ raw)
            × (16 * ((2 ^ 32 - t) % 2 ^ 32) ≤ 10 * (2 ^ 16 - raw))
            × (10 * (2 ^ 16 - raw) < 16 * ((2 ^ 32 - t) % 2 ^ 32) + 16)))

decidegrees_of-IsTenths : (raw : ℕ) → raw < 2 ^ 16 → IsTenths raw (decidegrees_of raw)
unfolding decidegrees_of
decidegrees_of-IsTenths raw h = elim (Bool-cases (ltb raw (2 ^ 15))) [
  | inl above ↦ (ground arith, inl (ground arith, ground arith, ground arith))
  | inr below ↦ (ground arith, inr (ground arith, ground arith, ground arith))
]

-- After a poll in which the DS18B20 answers presence twice and then the bits of two bytes, the
-- lowest first, readers get the temperature in tenths of a degree, as an int32_t: the sixteenths
-- that the two bytes are in two's complement, times ten and divided by sixteen, rounded towards
-- zero.
pub read_once-bits_of :
    (lsb msb : ℕ) (rest : List ℕ) (bus : Bus) (b : Board)
    → IsByte lsb
    → IsByte msb
    → bus.samples ≡ 0 ∷ 0 ∷ bits_of lsb ++ (bits_of msb ++ rest)
    → (t : ℕ) × (ds18b20_read_temperature (poll_sensor (read_once bus).0 b) ≡ some t)
      × IsTenths (msb * 256 + lsb) t
unfolding read_once poll_sensor ds18b20_read_temperature
read_once-bits_of lsb msb rest bus b hl hm e =
    let (present, left) = reset-present bus (0 ∷ bits_of lsb ++ (bits_of msb ++ rest)) e in
    let converting = ow_write_byte 0x44 (ow_write_byte 0xCC (ow_reset bus).1) in
    let ready =
      write_byte-samples 0x44 (ow_write_byte 0xCC (ow_reset bus).1)
      ∙ write_byte-samples 0xCC (ow_reset bus).1
      ∙ left in
    let (again, bits) = reset-present converting (bits_of lsb ++ (bits_of msb ++ rest)) ready in
    let got = read_scratchpad-bits_of lsb msb rest (ow_reset converting) hl hm again bits in
    (
      decidegrees_of (msb * 256 + lsb),
      rw (present, got) refl,
      decidegrees_of-IsTenths (msb * 256 + lsb) (omega arith),
    )
