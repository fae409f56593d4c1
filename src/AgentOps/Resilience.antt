-- ===== src/AgentOps/Resilience.antt =====
-- soc-frontend/src/features/agent-ops/AgentResilienceStatus.tsx: the health of the agents' nodes, from
-- messages with all data and from live events.
pub mod Live
use Prim.Native.String.{String}
use text.Mathlib.Text.{◌==◌ as str_eq}
use homelabs_siem_soar.Prelude.{
  ℕ, zero, suc, ◌+◌, Bool, true, false, not, ◌&&◌, ◌==◌, ltb, Option, none, some, List, [], ◌∷◌,
  ◌++◌, map, get_elem?, remove_at, is_empty, if◌then◌else◌,
}

pub data NodeStatus : Type 0 where
  healthy degraded failed idle : NodeStatus

pub record AgentNode : Type 0 where
  pub name : String
  pub status : NodeStatus
  pub latency_ms : ℕ
  pub last_event_at : Option String
  pub fallback_rate : ℕ

pub record ResilienceData : Type 0 where
  pub nodes : List AgentNode
  pub total_processed : ℕ
  pub fallback_total : ℕ
  pub provider : String

-- `MOCK_INITIAL`, with the time at which the module was loaded.
abbrev pub mock_initial : String → ResilienceData
mock_initial now = record {
  nodes =
      record {
        name = "Ingest";
        status = healthy;
        latency_ms = 12;
        last_event_at = some now;
        fallback_rate = 0;
      }
      ∷ record {
        name = "Deobfuscation";
        status = healthy;
        latency_ms = 340;
        last_event_at = some now;
        fallback_rate = 2;
      }
      ∷ record {
        name = "LLMTriage";
        status = degraded;
        latency_ms = 1820;
        last_event_at = some now;
        fallback_rate = 18;
      }
      ∷ record {
        name = "Action";
        status = healthy;
        latency_ms = 55;
        last_event_at = some now;
        fallback_rate = 0;
      }
      ∷ [];
  total_processed = 4821;
  fallback_total = 91;
  provider = "openai/gpt-4o-mini";
}

unfoldable status_color : NodeStatus → String
status_color healthy = "text-emerald-400"
status_color degraded = "text-amber-400"
status_color failed = "text-red-400"
status_color idle = "text-slate-500"

unfoldable latency_color : ℕ → String
latency_color ms =
    if ltb ms 200
    then "text-emerald-400"
    else if ltb ms 1000
    then "text-amber-400"
    else "text-red-400"

-- A live event; a latency of 0 and a node without a name are falsy.
pub record LiveEvent : Type 0 where
  pub node : Option String
  pub latency_ms : Option ℕ
  pub timestamp : String
  pub status : String
  pub fallback_triggered : Bool

pub data Frame : Type 0 where
  resilience : ResilienceData → Frame
  live : LiveEvent → Frame
  other : Frame

-- The node and the latency of an event that has both.
abbrev pub named : String → ℕ → Option (String × ℕ)
named name zero = none
named name (suc n) = if is_empty name then none else some (name, suc n)

abbrev measured_in : Option String → Option ℕ → Option (String × ℕ)
measured_in (some name) (some ms) = named name ms
measured_in _ _ = none

abbrev pub measured : LiveEvent → Option (String × ℕ)
measured e = measured_in e.node e.latency_ms

unfoldable pub update_node : String → ℕ → LiveEvent → AgentNode → AgentNode
update_node name ms e n =
    if str_eq n.name name
    then record n {
      latency_ms = ms;
      last_event_at = some e.timestamp;
      status = if str_eq e.status "failed" then degraded else healthy;
    }
    else n

update_found : Option (String × ℕ) → LiveEvent → ResilienceData → ResilienceData
unfolding update_node
update_found none e d = d
update_found (some (name, ms)) e d = record d {
  total_processed = d.total_processed + 1;
  nodes = map (update_node name ms e) d.nodes;
}

-- The functional update for a live event.
unfoldable pub update_live : LiveEvent → ResilienceData → ResilienceData
unfolding update_found
update_live e d = update_found (measured e) e d

-- A socket that has not reported its close.
pub record Socket : Type 0 where
  pub number : ℕ
  pub is_closing : Bool

pub record Panel : Type 0 where
  pub data_ : ResilienceData
  pub connected : Bool
  pub ws_ref : ℕ
  pub fresh : ℕ
  pub sockets : List Socket
  pub timers : ℕ  -- the calls of `connect` that wait

unfoldable pub connect : Panel → Panel
connect s = record s {
  ws_ref = s.fresh;
  fresh = suc s.fresh;
  sockets = s.sockets ++ record { number = s.fresh; is_closing = false } ∷ [];
}

unfoldable pub mount : String → Panel
unfolding connect
mount now = connect (record {
  data_ = mock_initial now;
  connected = false;
  ws_ref = 0;
  fresh = 0;
  sockets = [];
  timers = 0;
})

-- `onmessage`.
unfoldable pub handle_frame : Frame → Panel → Panel
unfolding update_live
handle_frame (resilience payload) s = record s { data_ = payload }
handle_frame (live e) s = record s { data_ = update_live e s.data_ }
handle_frame other s = s

-- What the socket at a place does, if it is there and not closing.
abbrev on_live : Option Socket → (Panel → Panel) → Panel → Panel
on_live none handler s = s
on_live (some w) handler s = if w.is_closing then s else handler s

close_found : Option Socket → ℕ → Panel → Panel
close_found none i s = s
close_found (some w) i s = record s {
  connected = false;
  sockets = remove_at s.sockets i;
  timers = suc s.timers;
}

fire : ℕ → Panel → Panel
unfolding connect
fire zero s = s
fire (suc n) s = connect (record s { timers = n })

abbrev pub close_if : ℕ → Socket → Socket
close_if k w = if w.number == k then record w { is_closing = true } else w

pub data Event : Type 0 where
  unmounted : Event
  socket_opened : ℕ → Event
  socket_error : ℕ → Event
  socket_closed : ℕ → Event
  message : ℕ → Frame → Event
  timer_fired : Event

unfoldable pub step : Event → Panel → Panel
unfolding close_found fire handle_frame
step unmounted s = record s { sockets = map (close_if s.ws_ref) s.sockets }
step (socket_opened i) s = on_live (get_elem? s.sockets i) (λ t. record t { connected = true }) s
step (socket_error i) s = record s { connected = false }
step (socket_closed i) s = close_found (get_elem? s.sockets i) i s
step (message i f) s = on_live (get_elem? s.sockets i) (handle_frame f) s
step timer_fired s = fire s.timers s

unfoldable pub run : Panel → List Event → Panel
unfolding step
run s [] = s
run s (e ∷ es) = run (step e s) es
