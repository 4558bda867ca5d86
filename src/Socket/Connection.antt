-- ===== src/Socket/Connection.antt =====
-- The connection to the server, in src/sio.cpp: the flags of BridgeSocket, what it emits and
-- acknowledges, and its attempts to connect.
use phntm_bridge.Prelude.{
  ℕ, zero, suc, ◌+◌, ◌≡◌, refl, Bool, true, false, List, [], ◌∷◌, if◌then◌else◌, arith,
}

-- `sleeping`: the threads that onClosed started and that have not yet woken up; `attempts`: the calls
-- of client.connect.
pub record Connection : Type 0 where
  pub connected : Bool
  shutting_down : Bool
  pub sleeping : ℕ
  pub attempts : ℕ

abbrev pub new_connection : Connection
new_connection = record { connected = false; shutting_down = false; sleeping = 0; attempts = 0 }

-- emit and ack: what is sent without a connection is dropped.
unfoldable pub emit : {A : Type 0} → Connection → List A → List A
emit c msgs = if c.connected then msgs else []

unfoldable pub connect : Connection → Connection
connect c = record c { attempts = 1 + c.attempts }

unfoldable pub on_socket_open : Connection → Connection
on_socket_open c = record c { connected = true }

unfoldable pub on_disconnected : Connection → Connection
on_disconnected c = record c { connected = false }

-- A thread is started that connects again after a second.
unfoldable pub on_closed : Connection → Connection
on_closed c = if c.shutting_down then c else record c { sleeping = 1 + c.sleeping }

-- A thread wakes up: it connects, without another look at `shutting_down`.
unfoldable pub wake_up : Connection → Connection
unfolding connect
wake_up c = elim c.sleeping [ zero ↦ c | suc n ↦ connect (record c { sleeping = n }) ]

unfoldable pub shutdown : Connection → Connection
shutdown c = record c { shutting_down = true }

-- What the client and its threads call, and the shutdown.
pub data Event : Type 0 where
  socket_open disconnected closed woke_up shut_down : Event

unfoldable pub handle : Event → Connection → Connection
unfolding on_socket_open on_disconnected on_closed wake_up shutdown
handle socket_open c = on_socket_open c
handle disconnected c = on_disconnected c
handle closed c = on_closed c
handle woke_up c = wake_up c
handle shut_down c = shutdown c

unfoldable pub handle_all : List Event → Connection → Connection
unfolding handle
handle_all [] c = c
handle_all (e ∷ es) c = handle_all es (handle e c)

handle-down :
    (e : Event) (c : Connection)
    → c.shutting_down ≡ true
    → let c' = handle e c in
      (c'.shutting_down ≡ true) × (c'.attempts + c'.sleeping ≡ c.attempts + c.sleeping)
unfolding handle on_socket_open on_disconnected on_closed wake_up connect shutdown
handle-down socket_open c h = ground (arith, h)
handle-down disconnected c h = ground (arith, h)
handle-down closed c h = ground (arith, h)
handle-down woke_up c h = ground (arith, h)
handle-down shut_down c h = ground (arith, h)

handle_all-down :
    (es : List Event) (c : Connection)
    → c.shutting_down ≡ true
    → let c' = handle_all es c in c'.attempts + c'.sleeping ≡ c.attempts + c.sleeping
unfolding handle_all
handle_all-down [] c h = ground arith
handle_all-down (e ∷ es) c h =
    let (d, q) = handle-down e c h in ground (arith, q, handle_all-down es (handle e c) d)

-- Once the socket is shut down, and whatever happens to the connection then, the only further attempts
-- to connect are those of the threads that were asleep at that time: each makes one at most.
pub attempts_end :
    (before after : List Event) (c : Connection)
    → let down = shutdown (handle_all before c) in
      let c' = handle_all after down in c'.attempts + c'.sleeping ≡ down.attempts + down.sleeping
unfolding shutdown
attempts_end before after c = handle_all-down after _ refl
