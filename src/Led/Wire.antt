-- ===== src/Led/Wire.antt =====
-- What a StatusLED has sent agrees with what it remembers.
use phntm_bridge.Prelude.{ℕ, ◌≡◌, refl, sym, subst, true, List, [], ◌∷◌, some, arith, get_elem?}
use phntm_bridge.Led.{
  Led, Env, Mode, State, on, make_led, once, interval, update_in, turn_on, turn_off, update, clear,
  set_state, sends,
}

-- The operations of the class.
pub data Op : Type 0 where
  ons offs updates clears : Op
  onces : ℕ → Op
  intervals : ℕ → ℕ → Op

unfoldable apply : Op → Env → Led → Led
unfolding turn_on turn_off update clear once interval
apply ons e l = turn_on l
apply offs e l = turn_off l
apply updates e l = update e l
apply clears e l = clear e l
apply (onces ms) e l = once ms l
apply (intervals ms period) e l = interval ms period l

unfoldable pub run : List (Op × Env) → Led → Led
unfolding apply
run [] l = l
run ((o, e) ∷ os) l = run os (apply o e l)

-- The last value sent is the one that the object remembers.
abbrev pub InSync : Led → Type 0
InSync l = get_elem? l.written 0 ≡ some l.current_state

-- Each call of the history can send: always on GPIO, on ROS while rclcpp is up.
abbrev CanSend : Mode → List (Op × Env) → Type 0
CanSend m [] = Unit
CanSend m ((o, e) ∷ os) = (sends m e.ros_ok ≡ true) × CanSend m os

apply-InSync :
    (o : Op) (e : Env) (l : Led)
    → sends l.mode e.ros_ok ≡ true
    → InSync l
    → InSync (apply o e l) × ((apply o e l).mode ≡ l.mode)
unfolding apply set_state
apply-InSync updates e l h s = updates-InSync l.state e l h s
  where
    updates-InSync :
        (st : State) (e : Env) (l : Led)
        → sends l.mode e.ros_ok ≡ true
        → InSync l
        → InSync (update_in st e l) × ((update_in st e l).mode ≡ l.mode)
    updates-InSync on e l h s = (ground arith, ground arith)
    updates-InSync _ e l h s = (ground arith, ground arith)
apply-InSync clears e l h s = (ground arith, ground arith)
apply-InSync _ e l h s = (s, refl)

run-InSync : (os : List (Op × Env)) (l : Led) → CanSend l.mode os → InSync l → InSync (run os l)
unfolding run
run-InSync [] l c s = s
run-InSync ((o, e) ∷ os) l c s =
    let (s', m) = apply-InSync o e l c.0 s in
    run-InSync os (apply o e l) (subst (λ k. CanSend k os) (sym m) c.1) s'

-- From its construction on, through any calls, a LED that can send has sent last what it remembers.
pub make_led-InSync :
    (os : List (Op × Env)) (e : Env) (m : Mode) (on_ms interval_ms : ℕ)
    → sends m e.ros_ok ≡ true
    → CanSend m os
    → InSync (run os (make_led e m on_ms interval_ms))
make_led-InSync os e m on_ms interval_ms h c =
    run-InSync os (make_led e m on_ms interval_ms) (unfold make_led set_state in c)
      (made e m on_ms interval_ms h)
  where
    made :
        (e : Env) (m : Mode) (on_ms interval_ms : ℕ)
        → sends m e.ros_ok ≡ true
        → InSync (make_led e m on_ms interval_ms)
    made e m on_ms interval_ms h = unfold make_led set_state in ground arith
