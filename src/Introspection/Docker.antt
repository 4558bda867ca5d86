-- ===== src/Introspection/Docker.antt =====
-- Introspection::onDockerMonitorMessage of src/introspection.cpp: the containers of every host, as its
-- agent reports them.
use phntm_bridge.Prelude.{
  ℕ, Bool, true, false, not, ◌&&◌, ◌||◌, Option, none, some, List, [], ◌∷◌, ◌++◌, Str, codes,
  length, nat_eq, str_eq, is_empty, any, if◌then◌else◌, Map, find, assign, str_key,
}
use phntm_bridge.Introspection.Control.{Control, start}

-- Numbers are the patterns of their types; `cpu_percent` is a double.
pub record Container : Type 0 where
  pub id : Str
  pub name : Str
  pub status : ℕ
  pub pids : ℕ
  pub block_io_read_bytes : ℕ
  pub block_io_write_bytes : ℕ
  pub cpu_percent : ℕ

pub record DockerStatus : Type 0 where
  pub frame_id : Str
  pub sec : ℕ
  pub nanosec : ℕ
  pub containers : List Container

abbrev pub Hosts : Type 0
Hosts = Map Str DockerStatus

abbrev pub host_of : DockerStatus → Str
host_of msg =
    if not (is_empty msg.frame_id)
    then codes "phntm_agent_" ++ msg.frame_id
    else codes "phntm_agent"

-- The loops over the hosts, for a host that is new: one of its containers is known elsewhere.
unfoldable pub moved : List Container → Hosts → Bool
moved containers hosts =
    any (λ c. any (λ h. any (λ k. str_eq c.id k.id) h.1.containers) hosts) containers

-- One container is not the one that was there.
abbrev differs : Container → Container → Bool
differs c k =
    not (str_eq c.id k.id) || (not (str_eq c.name k.name) || not (nat_eq c.status k.status))

-- The loop over the containers of a host that was seen before, which has as many as the message.
unfoldable pub any_differs : List Container → List Container → Bool
any_differs [] ks = false
any_differs (c ∷ cs) [] = true
any_differs (c ∷ cs) (k ∷ ks) = differs c k || any_differs cs ks

unfoldable pub changed_at : DockerStatus → DockerStatus → Bool
unfolding any_differs
changed_at msg old =
    not (nat_eq (length old.containers) (length msg.containers))
    || any_differs msg.containers old.containers

-- The hosts, and whether the containers changed. `none`: a container has moved to a new host, and the
-- old one is erased within the loop over the hosts, whose iterator is not valid after that.
unfoldable pub note_status : DockerStatus → Hosts → Option (Hosts × Bool)
unfolding moved changed_at
note_status msg hosts = elim (find (host_of msg) hosts) [
  | none ↦ if moved msg.containers hosts then none else some (assign (host_of msg) msg hosts, true)
  | some old ↦ some (assign (host_of msg) msg hosts, changed_at msg old)
]

-- The introspection, what it reports of its state, and whether the containers are reported.
unfoldable on_docker_monitor_message :
    DockerStatus → Hosts → Control → Option (Hosts × (Control × (List Bool × Bool)))
unfolding note_status start
on_docker_monitor_message msg hosts c = elim (note_status msg hosts) [
  | none ↦ none
  | some (hosts', changed) ↦
      if changed && not c.running
      then (let (c', states) = start c in some (hosts', (c', (states, true))))
      else some (hosts', (c, ([], changed)))
]
