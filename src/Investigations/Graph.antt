-- ===== src/Investigations/Graph.antt =====
-- soc-frontend/src/features/investigations/ui/InvestigationGraph.tsx: the graph of an investigation.
-- Updates of the stream wait in a list, a ticker applies them every 250 ms once the snapshot of the
-- history has come. The waiting list and the flag are refs, which go with the component: the dashboard
-- takes it off the page while it loads an investigation.
pub mod Convergence
pub mod Statuses
use Prim.Native.String.{String}
use text.Mathlib.Text.{◌==◌ as str_eq}
use homelabs_siem_soar.Prelude.{
  ℕ, Bool, true, false, not, ◌||◌, Option, none, some, List, [], ◌∷◌, ◌++◌, get_elem?, remove_at,
  text_or, if◌then◌else◌,
}
use homelabs_siem_soar.Hooks.AsyncState.{Reply, ok, failed}
use homelabs_siem_soar.Investigations.Types.{NodeStatus, success}
use homelabs_siem_soar.Investigations.Types

-- `GraphNode`, less what only the painter reads.
pub record Node : Type 0 where
  pub id : String
  pub label : String
  pub kind : Option String  -- `type`
  pub status : NodeStatus

pub record Edge : Type 0 where
  pub source_id : String
  pub target_id : String
  pub relation : String
  pub action : Option String

-- A message of type 'node_execution'.
pub record Update : Type 0 where
  pub node_id : String
  pub agent_name : Option String
  pub label : Option String
  pub status : NodeStatus

-- `nodes` and `edges` of the reply, of its `graph_data` or of its `graph_layout`.
pub record Layout : Type 0 where
  pub nodes : Option (List Node)
  pub edges : Option (List Edge)

pub record Body : Type 0 where
  pub top : Layout
  pub graph_data : Option Layout
  pub graph_layout : Option Layout

-- One turn of `batch.forEach`: the status of the first node with the id, or a new node at the end.
unfoldable pub apply_update : Update → List Node → List Node
apply_update u [] =
    record {
      id = u.node_id;
      label = text_or u.agent_name (text_or u.label "");
      kind = none;
      status = u.status;
    }
    ∷ []
apply_update u (n ∷ nodes) =
    if str_eq n.id u.node_id
    then record n { status = u.status } ∷ nodes
    else n ∷ apply_update u nodes

unfoldable pub apply_batch : List Node → List Update → List Node
unfolding apply_update
apply_batch nodes [] = nodes
apply_batch nodes (u ∷ us) = apply_batch (apply_update u nodes) us

-- `a || b` on lists, of which the empty one is truthy too.
abbrev first_of {ℓ} : {A : Type ℓ} → Option A → Option A → Option A
first_of none b = b
first_of (some a) b = some a

abbrev pub list_of {ℓ} : {A : Type ℓ} → Option (List A) → List A
list_of none = []
list_of (some xs) = xs

abbrev nodes_in : Option Layout → Option (List Node)
nodes_in none = none
nodes_in (some l) = l.nodes

abbrev edges_in : Option Layout → Option (List Edge)
edges_in none = none
edges_in (some l) = l.edges

-- The flow that is shown when the history has no nodes.
abbrev baseline_nodes : List Node
baseline_nodes =
    record {
      id = "router-gw";
      label = "WiFi 6 Router Gateway (192.168.1.1)";
      kind = some "RouterHost";
      status = success;
    }
    ∷ record {
      id = "client-192.168.1.105";
      label = "Station: 192.168.1.105";
      kind = some "ClientHost";
      status = Types.failed;
    }
    ∷ record {
      id = "domain-c2-malicious.org";
      label = "c2-malicious.org";
      kind = some "ExternalDomain";
      status = Types.failed;
    }
    ∷ []

abbrev baseline_edges : List Edge
baseline_edges =
    record {
      source_id = "client-192.168.1.105";
      target_id = "router-gw";
      relation = "ROUTED_THROUGH";
      action = some "ALLOW";
    }
    ∷ record {
      source_id = "router-gw";
      target_id = "domain-c2-malicious.org";
      relation = "WAN_EGRESS";
      action = some "DROP";
    }
    ∷ record {
      source_id = "client-192.168.1.105";
      target_id = "domain-c2-malicious.org";
      relation = "VISITED_SITE";
      action = some "OBSERVED";
    }
    ∷ []

-- `historicalNodes` and `historicalEdges` of the reply.
historical_nodes : Body → List Node
historical_nodes b =
    list_of (first_of b.top.nodes (first_of (nodes_in b.graph_data) (nodes_in b.graph_layout)))

historical_edges : Body → List Edge
historical_edges b =
    list_of (first_of b.top.edges (first_of (edges_in b.graph_data) (edges_in b.graph_layout)))

pub record Snapshot : Type 0 where
  pub nodes : List Node
  pub edges : List Edge

abbrev or_baseline : List Node → List Edge → Snapshot
or_baseline [] edges = record { nodes = baseline_nodes; edges = baseline_edges }
or_baseline (n ∷ nodes) edges = record { nodes = n ∷ nodes; edges = edges }

unfoldable pub snapshot_of : Body → Snapshot
unfolding historical_nodes historical_edges
snapshot_of b = or_baseline (historical_nodes b) (historical_edges b)

pub record Graph : Type 0 where
  pub session : Option String  -- the session of the effect that runs, if one does
  pub nodes : List Node
  pub edges : List Edge
  pub pending_updates : List Update
  pub is_snapshot_loaded : Bool
  pub fetches : List String  -- the sessions of the requests in flight

unfoldable pub start : Graph
start = record {
  session = none;
  nodes = [];
  edges = [];
  pending_updates = [];
  is_snapshot_loaded = false;
  fetches = [];
}

-- The effect for a session, after the clean-up of the one before: its socket and its ticker are gone
-- at once, its request is not.
unfoldable pub show : String → Graph → Graph
show session_id s = record s { session = some session_id; fetches = s.fetches ++ session_id ∷ [] }

-- The component is taken off the page. A request that is still in flight finds nothing to set.
unfoldable unmount : Graph → Graph
unfolding start
unmount s = start

queued : Option String → Update → Graph → Graph
queued none u s = s
queued (some session_id) u s = record s { pending_updates = s.pending_updates ++ u ∷ [] }

-- `ws.onmessage`; a message of another type, or one that is no JSON, does nothing.
unfoldable pub on_message : Option Update → Graph → Graph
unfolding queued
on_message none s = s
on_message (some u) s = queued s.session u s

ticked : Option String → Graph → Graph
unfolding apply_batch
ticked none s = s
ticked (some session_id) s =
    if s.is_snapshot_loaded
    then record s { nodes = apply_batch s.nodes s.pending_updates; pending_updates = [] }
    else s

-- The ticker. With nothing pending it returns at once; an empty batch does nothing either.
unfoldable pub on_tick : Graph → Graph
unfolding ticked
on_tick s = ticked s.session s

settle : Reply Body → Graph → Graph
unfolding snapshot_of
settle (ok b) s = record s {
  nodes = (snapshot_of b).nodes;
  edges = (snapshot_of b).edges;
  is_snapshot_loaded = true;
}
settle (failed message) s = record s { is_snapshot_loaded = true }

fetch_found : Option String → ℕ → Reply Body → Graph → Graph
unfolding settle
fetch_found none i reply s = s
fetch_found (some session_id) i reply s =
    settle reply (record s { fetches = remove_at s.fetches i })

-- The end of the request at a place of the list.
unfoldable pub on_snapshot : ℕ → Reply Body → Graph → Graph
unfolding fetch_found
on_snapshot i reply s = fetch_found (get_elem? s.fetches i) i reply s

pub data Event : Type 0 where
  shown : String → Event
  unmounted : Event
  message : Option Update → Event
  tick : Event
  snapshot : ℕ → Reply Body → Event

unfoldable pub step : Event → Graph → Graph
unfolding show unmount on_message on_tick on_snapshot
step (shown session_id) s = show session_id s
step unmounted s = unmount s
step (message u) s = on_message u s
step tick s = on_tick s
step (snapshot i reply) s = on_snapshot i reply s

unfoldable pub run : Graph → List Event → Graph
unfolding step
run s [] = s
run s (e ∷ es) = run (step e s) es
