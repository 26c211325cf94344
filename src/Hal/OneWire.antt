-- ===== src/Hal/OneWire.antt =====
-- The bit-banged 1-Wire bus of firmware/components/device_hal/sensor_ds18b20.c. The pin is ESP-IDF's:
-- what is done to it is a log, and what gpio_get_level returns comes from a list of samples.
pub mod Bytes
use wespe.Prelude.{
  ℕ, zero, suc, ◌+◌, ◌*◌, ◌/◌, ◌%◌, ◌^◌, Bool, true, false, List, [], ◌∷◌, ◌++◌, ◌==◌,
  if◌then◌else◌,
}

pub data Pin : Type 0 where
  output input sample : Pin
  level delay_us : ℕ → Pin

pub record Bus : Type 0 where
  pub log : List Pin
  pub samples : List ℕ

abbrev pub drive : List Pin → Bus → Bus
drive pins bus = record bus { log = bus.log ++ pins }

-- A bus that nothing pulls low reads as 1.
abbrev pub next_sample : List ℕ → ℕ × List ℕ
next_sample [] = (1, [])
next_sample (s ∷ samples) = (s, samples)

unfoldable pub gpio_get_level : Bus → ℕ × Bus
gpio_get_level bus =
    let (s, samples) = next_sample bus.samples in
    (s, record { log = bus.log ++ sample ∷ []; samples = samples })

-- The slot of one bit that is written.
abbrev pub write_slot : ℕ → List Pin
write_slot bit =
    output
    ∷ level 0
    ∷ delay_us (if bit == 0 then 60 else 6)
    ∷ level 1
    ∷ delay_us (if bit == 0 then 10 else 64)
    ∷ []

unfoldable pub ow_write_bit : ℕ → Bus → Bus
ow_write_bit bit bus = drive (write_slot bit) bus

unfoldable pub ow_read_bit : Bus → ℕ × Bus
unfolding gpio_get_level
ow_read_bit bus =
    let (bit, bus') =
      gpio_get_level (drive (output ∷ level 0 ∷ delay_us 2 ∷ input ∷ delay_us 10 ∷ []) bus) in
    (bit, drive (delay_us 50 ∷ []) bus')

-- `n` rounds of the loop of ow_write_byte.
unfoldable pub write_bits : ℕ → ℕ → Bus → Bus
write_bits zero b bus = bus
write_bits (suc n) b bus = write_bits n (b / 2) (ow_write_bit (b % 2) bus)

unfoldable pub ow_write_byte : ℕ → Bus → Bus
unfolding write_bits
ow_write_byte b bus = write_bits 8 b bus

-- The loop of ow_read_byte with `n` rounds left, from bit `i` on. The bits of `b` from `i` on are
-- clear, so that `|=` is a sum.
unfoldable pub read_bits : ℕ → ℕ → ℕ → Bus → ℕ × Bus
read_bits zero i b bus = (b, bus)
read_bits (suc n) i b bus =
    let (bit, bus') = ow_read_bit bus in read_bits n (i + 1) ((b + bit * 2 ^ i) % 256) bus'

unfoldable pub ow_read_byte : Bus → ℕ × Bus
unfolding read_bits
ow_read_byte bus = read_bits 8 0 0 bus

-- A device that is present pulls the bus low.
unfoldable pub ow_reset : Bus → Bool × Bus
unfolding gpio_get_level
ow_reset bus =
    let (s, bus') =
      gpio_get_level (drive (output ∷ level 0 ∷ delay_us 480 ∷ input ∷ delay_us 70 ∷ []) bus) in
    (s == 0, drive (delay_us 410 ∷ []) bus')
