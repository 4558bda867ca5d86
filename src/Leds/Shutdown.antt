-- ===== src/Leds/Shutdown.antt =====
-- `StatusLEDs::init` and `clear` for the configurations that they meet.
use phntm_bridge.Prelude.{◌≡◌, not, ◌&&◌, none, some, arith, is_empty, is_some}
use phntm_bridge.Led.{Env}
use phntm_bridge.Leds.{LedConfig, Gpio, returned, init, clear_all}

-- Without pins, the shutdown follows a null pointer unless both LED topics are configured.
clear_faults :
    (e e' : Env) (g : Gpio) (c : LedConfig)
    → c.conn_led_pin ≡ none
    → c.data_led_pin ≡ none
    → is_some (clear_all e' (some (init e g c none).0))
      ≡ not (is_empty c.conn_led_topic) && not (is_empty c.data_led_topic)
unfolding init clear_all
clear_faults e e' g c p q = ground arith

-- A first `init` that returns runs the loop exactly if it made a LED.
init_runs :
    (e : Env) (g : Gpio) (c : LedConfig)
    → (init e g c none).1 ≡ returned
    → (init e g c none).0.loop_running ≡ not (is_empty (init e g c none).0.leds)
unfolding init
init_runs e g c h = ground arith
