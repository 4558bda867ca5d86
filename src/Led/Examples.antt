-- ===== src/Led/Examples.antt =====
-- One LED of src/status_leds.cpp, with concrete times.
use phntm_bridge.Prelude.{ℕ, ◌*◌, refl, true, [], ◌∷◌}
use phntm_bridge.Led.{Env, gpio, make_led, sends}
use phntm_bridge.Led.Wire.{run, InSync, updates, onces, make_led-InSync}

-- The clock reads so many milliseconds, at both calls.
abbrev at : ℕ → Env
at ms = record { now = ms * 1_000_000; later = ms * 1_000_000; ros_ok = true }

make_led-InSync_example :
    InSync (run ((onces 20, at 10) ∷ (updates, at 70) ∷ []) (make_led (at 0) gpio 0 0))
make_led-InSync_example =
    make_led-InSync ((onces 20, at 10) ∷ (updates, at 70) ∷ []) (at 0) gpio 0 0
      (unfold sends in refl) (unfold sends in (refl, (refl, tt)))
