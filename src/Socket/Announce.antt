-- ===== src/Socket/Announce.antt =====
-- The connection of src/sio.cpp and the introspection of src/introspection.cpp together: what the server
-- is told of the running state, which is emitted where there is a connection, and reported anew by
-- onSocketOpen.
use phntm_bridge.Prelude.{
  ◌≡◌, refl, Bool, true, false, Option, none, some, List, [], ◌∷◌, ◌++◌, if◌then◌else◌, arith,
  append-nil, ap, sym, subst, ◌∙◌,
}
use phntm_bridge.Introspection.Control
use phntm_bridge.Introspection.Turns.{TakeTurns, handle-TakeTurns}
use phntm_bridge.Socket.Connection

-- `told`: the states that were emitted to the server.
pub record Bridge : Type 0 where
  connection : Connection.Connection
  control : Control.Control
  pub told : List Bool

pub data Event : Type 0 where
  socket : Connection.Event → Event
  introspection : Control.Event → Event

abbrev is_open : Connection.Event → Bool
is_open Connection.socket_open = true
is_open Connection.disconnected = false
is_open Connection.closed = false
is_open Connection.woke_up = false
is_open Connection.shut_down = false

-- Introspection::report tells the state at the end, when the socket has opened.
unfoldable pub handle : Event → Bridge → Bridge
unfolding Connection.handle Connection.emit Control.handle
handle (socket e) b =
    let connection = Connection.handle e b.connection in
    record b {
      connection = connection;
      told =
          b.told ++ (if is_open e then Connection.emit connection (b.control.running ∷ []) else []);
    }
handle (introspection e) b =
    let (control, states) = Control.handle e b.control in
    record b { control = control; told = b.told ++ Connection.emit b.connection states }

unfoldable pub handle_all : List Event → Bridge → Bridge
unfolding handle
handle_all [] b = b
handle_all (e ∷ es) b = handle_all es (handle e b)

abbrev pub last : List Bool → Option Bool
last [] = none
last (x ∷ []) = some x
last (x ∷ y ∷ xs) = last (y ∷ xs)

last-append : (xs : List Bool) (y : Bool) (ys : List Bool) → last (xs ++ y ∷ ys) ≡ last (y ∷ ys)
last-append [] y ys = refl
last-append (x ∷ []) y ys = refl
last-append (x ∷ x' ∷ xs) y ys = last-append (x' ∷ xs) y ys

last-TakeTurns :
    (a b : Bool) (r : Bool) (rs : List Bool) → TakeTurns a (r ∷ rs) b → last (r ∷ rs) ≡ some b
last-TakeTurns a b r [] (p, q) = ap some q
last-TakeTurns a b r (s ∷ rs) (p, q) = last-TakeTurns r b s rs q

-- Where there is a connection, the last that the server was told is the state.
abbrev Told : Bridge → Type 0
Told b = b.connection.connected ≡ true → last b.told ≡ some b.control.running

last-states :
    (told states : List Bool) (a b : Bool)
    → last told ≡ some a
    → TakeTurns a states b
    → last (told ++ states) ≡ some b
last-states told [] a b h t = ap last (append-nil told) ∙ h ∙ ap some t
last-states told (r ∷ rs) a b h t = last-append told r rs ∙ last-TakeTurns a b r rs t

quiet :
    (told : List Bool) (state : Bool) (c c' : Connection.Connection)
    → (c'.connected ≡ true → c.connected ≡ true)
    → (c.connected ≡ true → last told ≡ some state)
    → c'.connected ≡ true
    → last (told ++ []) ≡ some state
quiet told state c c' f t h = ap last (append-nil told) ∙ t (f h)

handle-Told : (e : Event) (b : Bridge) → Told b → Told (handle e b)
unfolding handle Connection.handle Connection.emit Connection.on_socket_open
    Connection.on_disconnected Connection.on_closed Connection.wake_up Connection.connect
    Connection.shutdown
handle-Told (socket Connection.socket_open) b t h = last-append b.told b.control.running []
handle-Told (socket Connection.disconnected) b t h = ground (arith, h)
handle-Told (socket Connection.closed) b t h =
    quiet b.told b.control.running b.connection (Connection.handle Connection.closed b.connection)
      (λ g. ground (arith, g)) t h
handle-Told (socket Connection.woke_up) b t h =
    quiet b.told b.control.running b.connection (Connection.handle Connection.woke_up b.connection)
      (λ g. ground (arith, g)) t h
handle-Told (socket Connection.shut_down) b t h =
    quiet b.told b.control.running b.connection b.connection (λ g. g) t h
handle-Told (introspection e) b t h =
    let (control, states) = Control.handle e b.control in
    let q : last (b.told ++ states) ≡ some control.running =
      last-states b.told states b.control.running control.running (t h)
        (handle-TakeTurns e b.control) in
    subst (λ c. last (b.told ++ (if c then states else [])) ≡ some control.running) (sym h) q

handle_all-Told : (es : List Event) (b : Bridge) → Told b → Told (handle_all es b)
unfolding handle_all
handle_all-Told [] b t = t
handle_all-Told (e ∷ es) b t = handle_all-Told es (handle e b) (handle-Told e b t)

abbrev pub new_bridge : Bool → Bridge
new_bridge in_progress = record {
  connection = Connection.new_connection;
  control = Control.new_control in_progress;
  told = [];
}

-- From the construction on, and through any openings and losses of the connection, starts, stops and
-- runs of the introspection, in any order: while the socket is connected, the running state that the
-- server was told last is the state.
pub handle_all-told :
    (in_progress : Bool) (es : List Event)
    → let b = handle_all es (new_bridge in_progress) in
      b.connection.connected ≡ true → last b.told ≡ some b.control.running
handle_all-told in_progress es h =
    handle_all-Told es (new_bridge in_progress) (λ g. ground (arith, g)) h
