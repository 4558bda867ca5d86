-- ===== src/Introspection/Examples.antt =====
-- A run of src/introspection.cpp on a concrete graph.
use phntm_bridge.Prelude.{
  ℕ, ◌≤◌, ◌≡◌, nat_eq, Map, refl, true, false, none, some, List, [], ◌∷◌, Str, codes, contains,
  find, str_eq, str_lt, str_key, emplace, insert_new, mem, assign, update,
}
use phntm_bridge.Text.{rfind}
use phntm_bridge.Introspection.{
  Discovered, Observed, nodes_and_namespaces, new_node, SubQos, DiscoveredNode,
}
use phntm_bridge.Introspection.Qos.{Compatibility, ok, error, check_profiles}
use phntm_bridge.Introspection.Verdicts.{offers, check_profiles_lem}
use phntm_bridge.Introspection.Run.{run_introspection}
use phntm_bridge.Introspection.Control.{
  new_control, handle, handle_all, start, stop, begin_run, start_it, stop_it, tick,
}
use phntm_bridge.Introspection.Turns.{TakeTurns, one_if, starts, handle_all-turns}
use phntm_bridge.Introspection.Docker.{
  Container, DockerStatus, note_status, changed_at, any_differs, moved,
}
use phntm_bridge.Introspection.DockerLaws.{seen, note_all, note_all-reported}
use phntm_bridge.Introspection.Reports.{Profile, report_nodes}
use phntm_bridge.Introspection.ReportLaws.{lookup, lookup_in}
use phntm_bridge.Introspection.Reported.{report_nodes_lem}
use phntm_bridge.Services.{string}
use phntm_bridge.Introspection.Names.{run_names}

abbrev compatible : ℕ → ℕ → Compatibility
compatible p s = ok

abbrev names : List Str
names = codes "/robot/drive" ∷ codes "camera" ∷ codes "/arm/drive" ∷ []

abbrev topics : List (Str × Str)
topics = (codes "/cmd", codes "Twist") ∷ (codes "/log", codes "Log") ∷ []

abbrev graph : Observed
graph = record {
  node_names = some names;
  topics_and_types = some topics;
  publishers = λ t. some ((codes "drive", 1) ∷ []);
  subscribers = λ t. none;
  services = λ n ns. some [];
}

-- The node `old` has gone, and so has the topic `/old`.
abbrev known : Discovered
known = record {
  nodes = (codes "old", new_node (codes "/")) ∷ [];
  topics = (codes "/log", codes "Log") ∷ (codes "/old", codes "Old") ∷ [];
  file_extractors = (codes "old", codes "/files") ∷ [];
}

run_names_example :
    (contains (codes "drive") (run_introspection compatible [] [] graph known).0.nodes ≡ true)
    × (contains (codes "drive") (run_introspection compatible [] [] graph known).0.topics ≡ false)
unfolding nodes_and_namespaces find str_eq emplace insert_new rfind mem str_lt
run_names_example = run_names compatible [] [] graph known names topics (codes "drive") refl refl

-- Profiles fit if they are the same.
abbrev same : ℕ → ℕ → Compatibility
same p s = elim (nat_eq p s) [ true ↦ ok | false ↦ error (codes "depth") ]

abbrev publishing : Map Str DiscoveredNode
publishing =
    (
      codes "drive",
      record (new_node (codes "/")) {
        publishers = (codes "/cmd", record { msg_type = codes "Twist"; qos = 1 ∷ [] }) ∷ [];
      },
    )
    ∷ []

abbrev listening : List SubQos
listening =
    record { qos = 1; error = codes "old"; warning = [] }
    ∷ record { qos = 2; error = []; warning = [] }
    ∷ []

check_profiles_lem_example :
    check_profiles same (codes "/cmd") publishing listening
    ≡ record { qos = 1; error = []; warning = [] }
      ∷ record { qos = 2; error = codes "depth"; warning = [] }
      ∷ []
unfolding find str_eq offers
check_profiles_lem_example = check_profiles_lem same (codes "/cmd") publishing listening

-- The introspection is stopped and started within a run: two runs are at work.
handle_all-turns_example :
    let (c, rs) =
      handle_all (start_it ∷ tick ∷ stop_it ∷ start_it ∷ tick ∷ []) (new_control true) in
    TakeTurns false rs c.running × (c.timers ≡ one_if c.running) × (c.runs ≤ starts rs)
handle_all-turns_example = handle_all-turns true (start_it ∷ tick ∷ stop_it ∷ start_it ∷ tick ∷ [])

two_runs :
    (handle_all (start_it ∷ tick ∷ stop_it ∷ start_it ∷ tick ∷ []) (new_control true)).0.runs ≡ 2
unfolding handle_all handle start stop begin_run
two_runs = refl

abbrev bridge_container : Container
bridge_container = record {
  id = codes "1";
  name = codes "bridge";
  status = 1;
  pids = 5;
  block_io_read_bytes = 0;
  block_io_write_bytes = 0;
  cpu_percent = 0;
}

abbrev agent : Container → DockerStatus
agent c = record { frame_id = codes "pi"; sec = 0; nanosec = 0; containers = c ∷ [] }

-- More processes are no change; another state is.
note_all-reported_example :
    seen (some (agent bridge_container))
    ≡ seen (some (agent (record bridge_container { pids = 6 })))
unfolding note_all note_status find str_eq changed_at any_differs moved assign insert_new str_lt
    update
note_all-reported_example =
    note_all-reported (agent bridge_container ∷ agent (record bridge_container { pids = 6 }) ∷ [])
      ((codes "phntm_agent_pi", agent (record bridge_container { pids = 6 })) ∷ [])
      ((codes "phntm_agent_pi", agent bridge_container) ∷ []) (codes "phntm_agent_pi") refl

abbrev profile : ℕ → Profile
profile q = record {
  depth = q;
  history = 1;
  reliability = 1;
  durability = 2;
  lifespan = none;
  deadline = none;
}

report_nodes_lem_example :
    lookup_in (codes "msg_type" ∷ []) (
      lookup
        (codes "drive" ∷ codes "publishers" ∷ codes "/cmd" ∷ [])
        (report_nodes profile publishing))
    ≡ some (string (codes "Twist"))
unfolding find str_eq
report_nodes_lem_example = (report_nodes_lem profile publishing (codes "drive") (codes "/cmd")).2.0
