-- ===== src/AgentOps/TriageFeed.antt =====
-- soc-frontend/src/features/agent-ops/AgentTriageFeed.tsx: the events of the agents. They wait in a
-- queue that an interval empties while the feed is not paused. A change of `isPaused` runs the effect
-- again, with its clean-up.
pub mod Shown
pub mod Connections
use Prim.Native.String.{String}
use homelabs_siem_soar.Prelude.{
  ℕ, zero, suc, Bool, true, false, not, ◌&&◌, ◌==◌, Option, none, some, List, [], ◌∷◌, ◌++◌, map,
  filter_by, get_elem?, remove_at, if◌then◌else◌,
}
use homelabs_siem_soar.Prelude.Window.{window}

pub data NodeName : Type 0 where
  ingest deobfuscation llm_triage action : NodeName

pub data Status : Type 0 where
  started completed failed fallback_rule_triggered : Status

pub record AgentEvent : Type 0 where
  pub correlation_id : String
  pub node : NodeName
  pub status : Status
  pub provider : Option String
  pub summary : Option String

-- A message of the stream; `other` is any other type.
pub data Frame : Type 0 where
  history : List AgentEvent → Frame
  live : AgentEvent → Frame
  other : Frame

-- A socket that has not reported its close.
pub record Socket : Type 0 where
  pub number : ℕ
  pub is_closing : Bool

pub record Feed : Type 0 where
  pub is_mounted : Bool
  pub events : List AgentEvent
  pub is_paused : Bool
  pub filter_node : Option NodeName  -- none is 'All'
  pub ws_ref : ℕ
  pub events_queue : List AgentEvent
  pub fresh : ℕ
  pub sockets : List Socket
  pub timers : ℕ  -- the calls of `connect` that wait

unfoldable pub connect : Feed → Feed
connect s = record s {
  ws_ref = s.fresh;
  fresh = suc s.fresh;
  sockets = s.sockets ++ record { number = s.fresh; is_closing = false } ∷ [];
}

abbrev pub close_if : ℕ → Socket → Socket
close_if k w = if w.number == k then record w { is_closing = true } else w

-- The clean-up: the interval and the socket that the ref names.
unfoldable pub clean_up : Feed → Feed
clean_up s = record s { sockets = map (close_if s.ws_ref) s.sockets }

-- The first rendering.
unfoldable pub mount : Feed
unfolding connect
mount = connect (record {
  is_mounted = true;
  events = [];
  is_paused = false;
  filter_node = none;
  ws_ref = 0;
  events_queue = [];
  fresh = 0;
  sockets = [];
  timers = 0;
})

-- `setIsPaused(!isPaused)`, with the effect.
unfoldable pub toggle_pause : Feed → Feed
unfolding clean_up connect
toggle_pause s =
    if s.is_mounted then connect (clean_up (record s { is_paused = not s.is_paused })) else s

unfoldable pub unmount : Feed → Feed
unfolding clean_up
unmount s = if s.is_mounted then clean_up (record s { is_mounted = false }) else s

-- `onmessage`.
unfoldable pub handle_frame : Frame → Feed → Feed
handle_frame (history events) s = record s { events = events }
handle_frame (live event) s = record s { events_queue = s.events_queue ++ event ∷ [] }
handle_frame other s = s

unfoldable pub receive : Option Socket → Frame → Feed → Feed
unfolding handle_frame
receive none f s = s
receive (some w) f s = if w.is_closing then s else handle_frame f s

-- `onclose`.
unfoldable pub close_found : Option Socket → ℕ → Feed → Feed
close_found none i s = s
close_found (some w) i s = record s { sockets = remove_at s.sockets i; timers = suc s.timers }

-- A timer of `onclose`.
unfoldable pub fire : ℕ → Feed → Feed
unfolding connect
fire zero s = s
fire (suc n) s = connect (record s { timers = n })

abbrev pub most_events : ℕ
most_events = 500

-- The interval. With an empty queue it leaves the events as they are.
unfoldable pub flush : List AgentEvent → Feed → Feed
flush [] s = s
flush (e ∷ es) s = record s { events = window most_events (s.events ++ e ∷ es); events_queue = [] }

unfoldable pub on_tick : Feed → Feed
unfolding flush
on_tick s = if s.is_mounted && not s.is_paused then flush s.events_queue s else s

pub data Event : Type 0 where
  pause_clicked : Event
  unmounted : Event
  filter_chosen : Option NodeName → Event
  message : ℕ → Frame → Event
  socket_closed : ℕ → Event
  timer_fired : Event
  tick : Event

unfoldable pub step : Event → Feed → Feed
unfolding toggle_pause unmount receive close_found fire on_tick
step pause_clicked s = toggle_pause s
step unmounted s = unmount s
step (filter_chosen node) s = record s { filter_node = node }
step (message i f) s = receive (get_elem? s.sockets i) f s
step (socket_closed i) s = close_found (get_elem? s.sockets i) i s
step timer_fired s = fire s.timers s
step tick s = on_tick s

unfoldable pub run : Feed → List Event → Feed
unfolding step
run s [] = s
run s (e ∷ es) = run (step e s) es

abbrev is_node : NodeName → NodeName → Bool
is_node ingest ingest = true
is_node deobfuscation deobfuscation = true
is_node llm_triage llm_triage = true
is_node action action = true
is_node _ _ = false

abbrev pub is_shown : Option NodeName → AgentEvent → Bool
is_shown none e = true
is_shown (some node) e = is_node e.node node

-- `filteredEvents`.
unfoldable filtered_events : Feed → List AgentEvent
filtered_events s = filter_by (is_shown s.filter_node) s.events
