-- ===== src/Leds.antt =====
-- StatusLEDs, ConnLED and DataLED of src/status_leds.cpp. `leds` is the vector of the loop; `conn`
-- and `dat` are the places of the shared objects in it.
pub mod Shutdown
use phntm_bridge.Prelude.{
  ℕ, zero, suc, ◌+◌, Bool, true, false, not, ◌&&◌, ◌||◌, Option, none, some, List, [], ◌∷◌, ◌++◌,
  map, Str, is_empty, is_some, length, get_elem?, if◌then◌else◌,
}
use phntm_bridge.Led.{
  Led, Env, Mode, gpio, ros, make_led, turn_on, turn_off, once, fast_pulse, update, clear,
}

pub record Leds : Type 0 where
  pub leds : List Led
  conn : Option ℕ
  dat : Option ℕ
  pub loop_running : Bool

-- The parameters that `init` reads. A pin above -1 is `some`.
pub record LedConfig : Type 0 where
  pub conn_led_pin : Option ℕ
  pub data_led_pin : Option ℕ
  conn_led_gpio_chip : Str
  pub conn_led_topic : Str
  pub data_led_topic : Str

-- What libgpiod answers: does the chip open, and which lines does it have?
pub record Gpio : Type 0 where
  chip_opens : Bool
  has_line : ℕ → Bool

pub data Outcome : Type 0 where
  returned : Outcome
  failed_chip failed_line : Outcome

unfoldable change_at : ℕ → (Led → Led) → List Led → List Led
change_at i f [] = []
change_at zero f (l ∷ ls) = f l ∷ ls
change_at (suc i) f (l ∷ ls) = l ∷ change_at i f ls

unfoldable no_leds : Leds
no_leds = record { leds = []; conn = none; dat = none; loop_running = false }

abbrev add_conn : Led → Leds → Leds
add_conn l s = record s { leds = s.leds ++ l ∷ []; conn = some (length s.leds) }

abbrev add_data : Led → Leds → Leds
add_data l s = record s { leds = s.leds ++ l ∷ []; dat = some (length s.leds) }

-- The two blocks for the pins: a line that is missing throws.
unfoldable init_conn_pin : Env → Gpio → Option ℕ → Leds → Leds × Outcome
init_conn_pin e g none s = (s, returned)
init_conn_pin e g (some pin) s =
    if g.has_line pin then (add_conn (make_led e gpio 0 0) s, returned) else (s, failed_line)

unfoldable init_data_pin : Env → Gpio → Option ℕ → Leds × Outcome → Leds × Outcome
init_data_pin e g none r = r
init_data_pin e g (some pin) (s, returned) =
    if g.has_line pin then (add_data (make_led e gpio 0 0) s, returned) else (s, failed_line)
init_data_pin e g (some pin) (s, failed_chip) = (s, failed_chip)
init_data_pin e g (some pin) (s, failed_line) = (s, failed_line)

unfoldable init_topics : Env → LedConfig → Leds → Leds
init_topics e c s =
    let s' = if is_empty c.conn_led_topic then s else add_conn (make_led e ros 0 0) s in
    if is_empty c.data_led_topic then s' else add_data (make_led e ros 0 0) s'

-- The end of `init`: the loop's thread starts if there is a LED. A throw skips it.
unfoldable start_loop : Leds × Outcome → Leds × Outcome
start_loop (s, returned) =
    (if is_some s.dat || is_some s.conn then record s { loop_running = true } else s, returned)
start_loop (s, failed_chip) = (s, failed_chip)
start_loop (s, failed_line) = (s, failed_line)

-- StatusLEDs::init, from the instance that is there, or none.
unfoldable pub init : Env → Gpio → LedConfig → Option Leds → Leds × Outcome
unfolding no_leds init_conn_pin init_data_pin init_topics start_loop
init e g c instance_opt =
    let s : Leds = elim instance_opt [ none ↦ no_leds | some i ↦ i ] in
    if is_some c.conn_led_pin || is_some c.data_led_pin
    then (if is_empty c.conn_led_gpio_chip
        then (s, returned)
        else (if not g.chip_opens
            then (s, failed_chip)
            else start_loop
                (init_data_pin e g c.data_led_pin (init_conn_pin e g c.conn_led_pin s))))
    else start_loop (init_topics e c s, returned)

-- A call through `instance->conn` or `instance->data`; `none` is the null pointer that is not
-- checked.
unfoldable through : Option ℕ → (Led → Led) → Leds → Option Leds
unfolding change_at
through none f s = none
through (some i) f s = some (record s { leds = change_at i f s.leds })

-- StatusLEDs::clear: `none` is a null pointer that is followed. At the end `instance` is null, which
-- is the inner `none`; the LEDs that the loop's thread still holds are given beside it.
unfoldable pub clear_all : Env → Option Leds → Option (Leds × Option Leds)
unfolding through
clear_all e none = none
clear_all e (some s) = elim (through s.conn (clear e) (record s { loop_running = false })) [
  | none ↦ none
  | some s' ↦ elim (through s.dat (clear e) s') [ none ↦ none | some s'' ↦ some (s'', none) ]
]

-- One round of StatusLEDs::loop.
unfoldable loop_round : Env → Leds → Leds
loop_round e s = if s.loop_running then record s { leds = map (update e) s.leds } else s

-- ConnLED and DataLED: nothing without an instance, nor without the LED.
unfoldable on_conn : (Led → Led) → Option Leds → Option Leds
unfolding change_at
on_conn f none = none
on_conn f (some s) = elim s.conn [
  | none ↦ some s
  | some i ↦ some (record s { leds = change_at i f s.leds })
]

unfoldable pub on_data : (Led → Led) → Option Leds → Option Leds
unfolding change_at
on_data f none = none
on_data f (some s) = elim s.dat [
  | none ↦ some s
  | some i ↦ some (record s { leds = change_at i f s.leds })
]

unfoldable conn_on : Option Leds → Option Leds
unfolding on_conn
conn_on = on_conn turn_on

unfoldable conn_fast_pulse : Option Leds → Option Leds
unfolding on_conn
conn_fast_pulse = on_conn fast_pulse

unfoldable conn_off : Option Leds → Option Leds
unfolding on_conn
conn_off = on_conn turn_off

unfoldable data_once : Option Leds → Option Leds
unfolding on_data
data_once = on_data (once 10)

unfoldable data_off : Option Leds → Option Leds
unfolding on_data
data_off = on_data turn_off
