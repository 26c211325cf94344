-- ===== src/Hal/Mock.antt =====
-- firmware/components/device_hal/sensor_mock.c, with CONFIG_WESPE_SENSOR_VOLATILE_ROWS as `volatile`.
use wespe.Prelude.{
  ℕ, ◌-◌, ◌/◌, ◌%◌, Bool, ◌||◌, Option, none, some, List, [], ◌∷◌, ltb, if◌then◌else◌, get_or,
}
use wespe.Hal.Interfaces.{Sensor}
use wespe.Hal.Board.{Board}

abbrev pub mock_sensor_count : ℕ
mock_sensor_count = 3

abbrev pub mock_decidegrees : List ℕ
mock_decidegrees = 235 ∷ 198 ∷ 271 ∷ []

-- One step of the pattern in ten seconds.
unfoldable pub mock_count : Bool → Board → ℕ
mock_count volatile b =
    let step = b.uptime_us / 1000000 / 10 in
    if volatile then get_or (1 ∷ 2 ∷ 3 ∷ 2 ∷ []) (step % 4) 0 else mock_sensor_count

unfoldable pub mock_read_indexed : ℕ → Board → Option ℕ
mock_read_indexed index b =
    if ltb index 1 || ltb mock_sensor_count index
    then none
    else some (get_or mock_decidegrees (index - 1) 0)

abbrev pub sensor_mock : Bool → Sensor Board
sensor_mock volatile = record {
  sensor_read_temperature = λ b. some 235;
  sensor_count = mock_count volatile;
  sensor_read_indexed = mock_read_indexed;
}
