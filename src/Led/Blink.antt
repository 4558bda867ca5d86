-- ===== src/Led/Blink.antt =====
-- What the modes of a StatusLED show.
use phntm_bridge.Prelude.{ℕ, ◌-◌, ◌<◌, ◌≤◌, ◌^◌, ◌≡◌, true, false, arith, ltb, not, if◌then◌else◌}
use phntm_bridge.Led.{
  Led, Env, on, off, blink_once, elapsed_ms, off_ms, once, interval, turn_on, turn_off, update,
}

-- In the mode ON every update leaves the LED lit, in OFF it leaves it dark, and neither changes the
-- mode.
update_steady :
    (e : Env) (l : Led)
    → ((update e (turn_on l)).current_state ≡ true)
      × ((update e (turn_on l)).state ≡ on)
      × ((update e (turn_off l)).current_state ≡ false)
      × ((update e (turn_off l)).state ≡ off)
unfolding update turn_on turn_off
update_steady e l = ground arith

-- A single blink, asked for while the LED is dark: an update within `min_off_ms` changes nothing; the
-- first update after it lights the LED; while `on_ms` have not passed since, an update changes
-- nothing; the first update after it puts the LED out and leaves the mode OFF.
once_pulse :
    (e e₁ e₂ e₃ : Env) (ms : ℕ) (l : Led)
    → l.current_state ≡ false
    → elapsed_ms e.now l.last_off_time ≤ l.min_off_ms
    → l.min_off_ms < elapsed_ms e₁.now l.last_off_time
    → elapsed_ms e₂.now e₁.later ≤ ms
    → ms < elapsed_ms e₃.now e₁.later
    → (update e (once ms l) ≡ once ms l)
      × ((update e₁ (once ms l)).current_state ≡ true)
      × (update e₂ (update e₁ (once ms l)) ≡ update e₁ (once ms l))
      × ((update e₃ (update e₁ (once ms l))).current_state ≡ false)
      × ((update e₃ (update e₁ (once ms l))).state ≡ off)
unfolding update once
once_pulse e e₁ e₂ e₃ ms l dark early ripe short long =
    (ground arith, ground arith, ground arith, ground arith, ground arith)

-- When an update in BLINK_ONCE lights a dark LED, it was dark for more than `min_off_ms`.
once_rate :
    (e : Env) (l : Led)
    → l.state ≡ blink_once
    → l.current_state ≡ false
    → (update e l).current_state ≡ true
    → l.min_off_ms < elapsed_ms e.now l.last_off_time
unfolding update
once_rate e l s d h = ground arith

-- In BLINKING, with a period that is not shorter than the time on: the LED is lit after an update
-- exactly if it was dark for more than the rest of the period, or is lit for `on_ms` at most.
blinking_lit :
    (e : Env) (on_ms interval_ms : ℕ) (l : Led)
    → on_ms ≤ interval_ms
    → interval_ms < 2 ^ 32
    → (update e (interval on_ms interval_ms l)).current_state ≡ (
        if l.current_state
        then not (ltb on_ms (elapsed_ms e.now l.last_on_time))
        else ltb (interval_ms - on_ms) (elapsed_ms e.now l.last_off_time))
unfolding update interval off_ms
blinking_lit e on_ms interval_ms l h k = ground arith

-- With a period shorter than the time on, the difference wraps: a dark LED stays dark until almost
-- 2^32 ms have passed.
blinking_wraps :
    (e : Env) (on_ms interval_ms : ℕ) (l : Led)
    → interval_ms < on_ms
    → on_ms < 2 ^ 32
    → l.current_state ≡ false
    → elapsed_ms e.now l.last_off_time ≤ 2 ^ 32 - (on_ms - interval_ms)
    → update e (interval on_ms interval_ms l) ≡ interval on_ms interval_ms l
unfolding update interval off_ms
blinking_wraps e on_ms interval_ms l h k d t = ground arith
