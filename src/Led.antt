-- ===== src/Led.antt =====
-- StatusLED of src/status_leds.cpp: one LED on a GPIO line or behind a ROS topic. Times are
-- readings of the steady clock in nanoseconds; the periods are `uint` milliseconds.
pub mod Blink
pub mod Wire
pub mod Examples
use phntm_bridge.Prelude.{
  ℕ, ◌+◌, ◌-◌, ◌/◌, ◌%◌, ◌^◌, Bool, true, false, not, ◌&&◌, ◌||◌, List, [], ◌∷◌, ltb, if◌then◌else◌,
}

pub data Mode : Type 0 where
  unused ros gpio : Mode

pub data State : Type 0 where
  on off blink_once blinking : State

-- `written` are the values sent to the line or the publisher, newest first.
pub record Led : Type 0 where
  pub mode : Mode
  pub state : State
  pub on_ms : ℕ
  pub interval_ms : ℕ
  pub min_off_ms : ℕ
  pub current_state : Bool
  pub last_on_time : ℕ
  pub last_off_time : ℕ
  pub written : List Bool

-- What one call reads from outside: the clock at the start of `update` and in `setState`, and
-- rclcpp::ok().
pub record Env : Type 0 where
  pub now : ℕ
  pub later : ℕ
  pub ros_ok : Bool

-- duration_cast<milliseconds>(now - last).count()
unfoldable pub elapsed_ms : ℕ → ℕ → ℕ
elapsed_ms now last = (now - last) / 1_000_000

unfoldable pub sends : Mode → Bool → Bool
sends gpio ros_ok = true
sends ros ros_ok = ros_ok
sends unused ros_ok = false

unfoldable pub set_state : Env → Bool → Led → Led
unfolding sends
set_state e b l = record l {
  written = if sends l.mode e.ros_ok then b ∷ l.written else l.written;
  current_state = b;
  last_on_time = if b then e.later else l.last_on_time;
  last_off_time = if b then l.last_off_time else e.later;
}

-- Both constructors end in setState(false). The members that they leave unset are arguments.
unfoldable pub make_led : Env → Mode → ℕ → ℕ → Led
unfolding set_state
make_led e mode on_ms interval_ms = set_state e false (record {
  mode = mode;
  state = off;
  on_ms = on_ms;
  interval_ms = interval_ms;
  min_off_ms = 80;
  current_state = false;
  last_on_time = 0;
  last_off_time = 0;
  written = [];
})

unfoldable pub turn_on : Led → Led
turn_on l = record l { state = on }

unfoldable pub turn_off : Led → Led
turn_off l = record l { state = off }

unfoldable pub once : ℕ → Led → Led
once on_ms l = record l { state = blink_once; on_ms = on_ms }

unfoldable pub interval : ℕ → ℕ → Led → Led
interval on_ms interval_ms l = record l {
  state = blinking;
  on_ms = on_ms;
  interval_ms = interval_ms;
}

unfoldable pub fast_pulse : Led → Led
unfolding interval
fast_pulse l = interval 10 500 l

-- this->interval_ms - this->on_ms, in `uint`.
unfoldable pub off_ms : Led → ℕ
off_ms l = (l.interval_ms + 2 ^ 32 - l.on_ms) % 2 ^ 32

unfoldable pub update_in : State → Env → Led → Led
unfolding set_state turn_off elapsed_ms off_ms
update_in on e l =
    if not l.current_state || ltb 1000 (elapsed_ms e.now l.last_on_time)
    then set_state e true l
    else l
update_in off e l =
    if l.current_state || ltb 1000 (elapsed_ms e.now l.last_off_time)
    then set_state e false l
    else l
update_in blink_once e l =
    if not l.current_state && ltb l.min_off_ms (elapsed_ms e.now l.last_off_time)
    then set_state e true l
    else (if l.current_state && ltb l.on_ms (elapsed_ms e.now l.last_on_time)
        then set_state e false (turn_off l)
        else l)
update_in blinking e l =
    if not l.current_state
    then (if ltb (off_ms l) (elapsed_ms e.now l.last_off_time) then set_state e true l else l)
    else (if ltb l.on_ms (elapsed_ms e.now l.last_on_time) then set_state e false l else l)

unfoldable pub update : Env → Led → Led
unfolding update_in
update e l = update_in l.state e l

-- The release of the line after this leaves the object as it is. That libgpiod throws when a released
-- line is set, before `current_state` changes, is left out.
unfoldable pub clear : Env → Led → Led
unfolding set_state
clear e l = set_state e false l
