-- ===== src/Hal/Relays.antt =====
-- firmware/components/device_hal/relay_gpio.c and relay_mock.c.
use wespe.Prelude.{Bool, true, false, some, if◌then◌else◌}
use wespe.Hal.Interfaces.{Relay}
use wespe.Hal.Board.{Board}

-- relay_init of relay_gpio.c; `configured` says that gpio_config returns ESP_OK.
unfoldable pub relay_gpio_init : Bool → Board → Bool × Board
relay_gpio_init configured b =
    if configured then (true, record b { relay_level = 0; relay_on = false }) else (false, b)

unfoldable pub relay_gpio_set_state : Bool → Board → Bool × Board
relay_gpio_set_state on b = (true, record b { relay_level = if on then 1 else 0; relay_on = on })

abbrev pub relay_gpio : Relay Board
relay_gpio = record {
  relay_get_state = λ b. some b.relay_on;
  relay_set_state = relay_gpio_set_state;
}

unfoldable pub relay_mock_init : Board → Bool × Board
relay_mock_init b = (true, record b { relay_on = false })

unfoldable pub relay_mock_set_state : Bool → Board → Bool × Board
relay_mock_set_state on b = (true, record b { relay_on = on })

abbrev pub relay_mock : Relay Board
relay_mock = record {
  relay_get_state = λ b. some b.relay_on;
  relay_set_state = relay_mock_set_state;
}
