-- ===== src/Hal/Ds18b20.antt =====
-- The DS18B20 driver of firmware/components/device_hal/sensor_ds18b20.c, but for the bus. The task that
-- polls the sensor and the readers hold s_lock while they touch the cached reading, so each of their
-- accesses is one step.
pub mod Reading
use wespe.Prelude.{
  ℕ, ◌+◌, ◌-◌, ◌*◌, ◌/◌, ◌%◌, ◌^◌, Bool, true, false, not, Option, none, some, ltb, ◌==◌,
  if◌then◌else◌,
}
use wespe.Hal.Interfaces.{Sensor}
use wespe.Hal.Board.{Board}
use wespe.Hal.OneWire.{Bus, ow_reset, ow_write_byte, ow_read_byte}

-- `((int32_t)raw * 10) / 16` for an int16_t of bit pattern `raw`: division is towards zero.
unfoldable pub decidegrees_of : ℕ → ℕ
decidegrees_of raw =
    if ltb raw (2 ^ 15) then raw * 10 / 16 else (2 ^ 32 - (2 ^ 16 - raw) * 10 / 16) % 2 ^ 32

-- The second half of read_once, from the answer to the second reset on.
unfoldable pub read_scratchpad : Bool × Bus → Option ℕ × Bus
read_scratchpad (present, bus) =
    let asked = ow_write_byte 0xBE (ow_write_byte 0xCC bus) in
    let (lsb, bus') = ow_read_byte asked in
    let (msb, bus'') = ow_read_byte bus' in
    if not present then (none, bus) else (some (decidegrees_of (msb * 256 + lsb)), bus'')

-- read_once; the conversion time between its halves is a vTaskDelay.
unfoldable pub read_once : Bus → Option ℕ × Bus
unfolding read_scratchpad
read_once bus =
    let (present, bus') = ow_reset bus in
    let converting = ow_write_byte 0x44 (ow_write_byte 0xCC bus') in
    let later = read_scratchpad (ow_reset converting) in if not present then (none, bus') else later

-- One round of poll_task, given what read_once returns: a failure leaves the cached reading.
unfoldable pub poll_sensor : Option ℕ → Board → Board
poll_sensor none b = b
poll_sensor (some decidegrees) b = record b { last_decidegrees = decidegrees; have_reading = true }

unfoldable pub ds18b20_read_temperature : Board → Option ℕ
ds18b20_read_temperature b = if b.have_reading then some b.last_decidegrees else none

unfoldable pub ds18b20_read_indexed : ℕ → Board → Option ℕ
ds18b20_read_indexed index b = if not (index == 1) then none else ds18b20_read_temperature b

abbrev pub sensor_ds18b20 : Sensor Board
sensor_ds18b20 = record {
  sensor_read_temperature = ds18b20_read_temperature;
  sensor_count = λ b. 1;
  sensor_read_indexed = ds18b20_read_indexed;
}
