-- ===== src/Introspection/Turns.antt =====
-- What src/introspection.cpp reports of its running state, its one timer, and how many of its runs can be
-- at work at once.
use phntm_bridge.Prelude.{
  ℕ, ◌+◌, ◌≤◌, ◌≡◌, refl, sym, subst, Bool, true, false, not, List, [], ◌∷◌, ◌++◌, if◌then◌else◌,
  arith,
}
use phntm_bridge.Introspection.Control.{
  Control, new_control, start, stop, begin_run, end_run, give_up, Event, handle, handle_all,
  start_it, stop_it, tick, given_up, over,
}

-- Reports that take turns, from one state to another.
abbrev pub TakeTurns : Bool → List Bool → Bool → Type 0
TakeTurns from [] to = from ≡ to
TakeTurns from (r ∷ rs) to = (r ≡ not from) × TakeTurns r rs to

abbrev pub one_if : Bool → ℕ
one_if b = if b then 1 else 0

-- The reports of a start.
abbrev pub starts : List Bool → ℕ
starts [] = 0
starts (r ∷ rs) = one_if r + starts rs

pub handle-TakeTurns :
    (e : Event) (c : Control) → let (c', rs) = handle e c in TakeTurns c.running rs c'.running
unfolding handle start stop begin_run end_run give_up
handle-TakeTurns start_it c = ground arith
handle-TakeTurns stop_it c = ground arith
handle-TakeTurns tick c = ground arith
handle-TakeTurns given_up c = ground arith
handle-TakeTurns (over expired) c = ground arith

TakeTurns-append :
    (a b c : Bool) (rs ss : List Bool)
    → TakeTurns a rs b
    → TakeTurns b ss c
    → TakeTurns a (rs ++ ss) c
TakeTurns-append a b c [] ss p q = subst (λ x. TakeTurns x ss c) (sym p) q
TakeTurns-append a b c (r ∷ rs) ss (p, p') q = (p, TakeTurns-append r b c rs ss p' q)

starts-append : (rs ss : List Bool) → starts (rs ++ ss) ≡ starts rs + starts ss
starts-append [] ss = omega arith
starts-append (r ∷ rs) ss = ground (arith, starts-append rs ss)

-- One timer where the introspection runs, and none otherwise; and no more runs at work than starts
-- so far, with one to spare where the next tick begins a run.
abbrev Bounded : ℕ → Control → Type 0
Bounded n c =
    (c.timers ≡ one_if c.running)
    × (c.runs ≤ n)
    × (c.running ≡ true → c.introspection_in_progress ≡ false → 1 + c.runs ≤ n)

handle-Bounded :
    (e : Event) (n : ℕ) (c : Control)
    → Bounded n c
    → let (c', rs) = handle e c in Bounded (n + starts rs) c'
unfolding handle start stop begin_run end_run give_up
handle-Bounded start_it n c b = ground (arith, b)
handle-Bounded stop_it n c b = ground (arith, b)
handle-Bounded tick n c b = ground (arith, b)
handle-Bounded given_up n c b = ground (arith, b)
handle-Bounded (over expired) n c b = ground (arith, b)

handle_all-TakeTurns :
    (es : List Event) (c : Control)
    → let (c', rs) = handle_all es c in TakeTurns c.running rs c'.running
unfolding handle_all
handle_all-TakeTurns [] c = refl
handle_all-TakeTurns (e ∷ es) c =
    let (c₁, r₁) = handle e c in
    TakeTurns-append c.running c₁.running _ r₁ _ (handle-TakeTurns e c) (handle_all-TakeTurns es c₁)

handle_all-Bounded :
    (es : List Event) (n : ℕ) (c : Control)
    → Bounded n c
    → let (c', rs) = handle_all es c in Bounded (n + starts rs) c'
unfolding handle_all
handle_all-Bounded [] n c b = ground (arith, b)
handle_all-Bounded (e ∷ es) n c b =
    let (c₁, r₁) = handle e c in
    let (c₂, r₂) = handle_all es c₁ in
    let q = starts-append r₁ r₂ in
    subst (λ k. Bounded k c₂) (omega (arith, q))
      (handle_all-Bounded es (n + starts r₁) c₁ (handle-Bounded e n c b))

-- Through any starts, stops, ticks of the timer and ends of runs, from the construction on: the
-- reports of the running state take turns, the first is of a start, and the last is the state; there
-- is one timer while the introspection runs, and none otherwise; and at most as many runs are at work
-- at once as there were starts.
pub handle_all-turns :
    (in_progress : Bool) (es : List Event)
    → let (c, rs) = handle_all es (new_control in_progress) in
      TakeTurns false rs c.running × (c.timers ≡ one_if c.running) × (c.runs ≤ starts rs)
handle_all-turns in_progress es =
    let (t, r, _) =
      handle_all-Bounded es 0 (new_control in_progress)
        (refl, omega arith, λ h _. ground (arith, h)) in
    (handle_all-TakeTurns es (new_control in_progress), t, ground (arith, r))
