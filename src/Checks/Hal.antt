-- ===== src/Checks/Hal.antt =====
-- The drivers of firmware/components/device_hal on small inputs.
use wespe.Prelude.{ℕ, ◌≡◌, refl, arith, true, none, some, [], ◌∷◌, ◌++◌}
use wespe.Hal.Board.{cold_board}
use wespe.Hal.Sysinfo.LastChange.{Link, answers, answers_after_change}
use wespe.Hal.OneWire.{Bus}
use wespe.Hal.Ds18b20.{decidegrees_of, read_once, poll_sensor, ds18b20_read_temperature}
use wespe.Hal.OneWire.Bytes.{bits_of}
use wespe.Hal.Ds18b20.Reading.{IsTenths, read_once-bits_of}

abbrev down : Link
down = record { ap_rssi = none; uptime_us = 1000000 }

abbrev up : Link
up = record { ap_rssi = some 200; uptime_us = 5000000 }

abbrev up_later : Link
up_later = record { ap_rssi = some 190; uptime_us = 9000000 }

answers_after_change_example :
    answers
      (record cold_board { last_change_initialized = true })
      ((down ∷ []) ++ up ∷ up_later ∷ [])
    ≡ 0 ∷ 500 ∷ 500 ∷ []
answers_after_change_example =
    answers_after_change (record cold_board { last_change_initialized = true }) (down ∷ []) up
      (up_later ∷ []) refl (refl, tt) (λ e. cc) (refl, tt)

-- 25.0625 degrees, the example of the sensor's data sheet, and -10.125 degrees.
warm : decidegrees_of 0x0191 ≡ 250
unfolding decidegrees_of
warm = refl

cold : decidegrees_of 0xFF5E ≡ 4294967195
unfolding decidegrees_of
cold = refl

abbrev answering : Bus
answering = record { log = []; samples = 0 ∷ 0 ∷ bits_of 0x91 ++ (bits_of 0x01 ++ []) }

read_once-bits_of_example :
    (t : ℕ) × (ds18b20_read_temperature (poll_sensor (read_once answering).0 cold_board) ≡ some t)
    × IsTenths 0x0191 t
read_once-bits_of_example =
    read_once-bits_of 0x91 0x01 [] answering cold_board (omega arith) (omega arith) refl
