-- ===== src/Introspection/Control.antt =====
-- Introspection::start, stop and the two ends of runIntrospection of src/introspection.cpp: whether the
-- introspection is running, its timer, and its runs, which the timer calls on the threads of a
-- reentrant group. What reportRunningState emits are the Booleans of the results, in their order.
use phntm_bridge.Prelude.{
  ℕ, zero, suc, ◌+◌, ◌-◌, Bool, true, false, not, ◌||◌, List, [], ◌∷◌, ◌++◌, if◌then◌else◌,
}

-- The timers that are not cancelled; the runs that have begun and are not over.
pub record Control : Type 0 where
  pub running : Bool
  pub introspection_in_progress : Bool
  pub timers : ℕ
  pub runs : ℕ

-- The constructor, which does not set `introspection_in_progress`: no run looks at it before `start`.
abbrev pub new_control : Bool → Control
new_control in_progress = record {
  running = false;
  introspection_in_progress = in_progress;
  timers = 0;
  runs = 0;
}

unfoldable pub start : Control → Control × List Bool
start c = if c.running then (c, []) else (
  record c { running = true; introspection_in_progress = false; timers = 1 + c.timers },
  true ∷ [],
)

unfoldable pub stop : Control → Control × List Bool
stop c =
    if not c.running
    then (c, [])
    else (record c { running = false; timers = c.timers - 1 }, false ∷ [])

-- The head of runIntrospection: the run that the timer calls is begun, or it returns.
unfoldable pub begin_run : Control → Control
begin_run c =
    if not c.running || c.introspection_in_progress
    then c
    else record c { introspection_in_progress = true; runs = 1 + c.runs }

-- Its end, with the stop where the time that is set for the discovery is over.
unfoldable pub end_run : Bool → Control → Control × List Bool
unfolding stop
end_run expired c =
    let c' = record c { introspection_in_progress = false; runs = c.runs - 1 } in
    if expired then stop c' else (c', [])

-- The end of a run that rclcpp's answers make it give up.
unfoldable pub give_up : Control → Control
give_up c = record c { introspection_in_progress = false; runs = c.runs - 1 }

pub data Event : Type 0 where
  start_it stop_it tick given_up : Event
  over : Bool → Event

-- A run ends only where there is one.
unfoldable pub handle : Event → Control → Control × List Bool
unfolding start stop begin_run end_run give_up
handle start_it c = start c
handle stop_it c = stop c
handle tick c = (begin_run c, [])
handle given_up c = elim c.runs [ zero ↦ (c, []) | suc n ↦ (give_up c, []) ]
handle (over expired) c = elim c.runs [ zero ↦ (c, []) | suc n ↦ end_run expired c ]

unfoldable pub handle_all : List Event → Control → Control × List Bool
unfolding handle
handle_all [] c = (c, [])
handle_all (e ∷ es) c =
    let (c₁, r₁) = handle e c in let (c₂, r₂) = handle_all es c₁ in (c₂, r₁ ++ r₂)
