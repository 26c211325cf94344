-- ===== src/Hal/OneWire/Bytes.antt =====
-- Bytes on the 1-Wire bus: firmware/components/device_hal/sensor_ds18b20.c.
use wespe.Prelude.{ℕ, ◌/◌, ◌%◌, ◌≡◌, refl, arith, List, [], ◌∷◌, ◌++◌, IsByte}
use wespe.Hal.OneWire.{Bus, ow_read_bit, ow_read_byte}

-- The bits of a byte, the lowest first.
abbrev pub bits_of : ℕ → List ℕ
bits_of b =
    b % 2
    ∷ b / 2 % 2
    ∷ b / 4 % 2
    ∷ b / 8 % 2
    ∷ b / 16 % 2
    ∷ b / 32 % 2
    ∷ b / 64 % 2
    ∷ b / 128 % 2
    ∷ []

-- ow_read_byte puts a byte together from the samples of its bits, the lowest first, and takes no
-- sample more.
pub ow_read_byte-bits_of :
    (b : ℕ) (rest : List ℕ) (bus : Bus)
    → IsByte b
    → bus.samples ≡ bits_of b ++ rest
    → ((ow_read_byte bus).0 ≡ b) × ((ow_read_byte bus).1.samples ≡ rest)
unfolding ow_read_byte ow_read_bit
ow_read_byte-bits_of b rest bus h e = rw e (omega arith, refl)
